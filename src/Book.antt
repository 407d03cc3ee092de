-- ===== src/Book.antt =====
-- market_engine/market_data/l2_order_book.py: the fixed-point types and `class L2OrderBook`.
pub mod Types
pub mod Hash
pub mod Levels
pub mod Views
pub mod Invariant
use market_systems_workstati.Base.{
  ℕ, zero, suc, ◌+◌, ◌≤◌, Bool, true, false, ◌&&◌, ◌||◌, Option, none, some, List, [], ◌∷◌, map,
  ltb, leb, ◌==◌, if◌then◌else◌, nat_eq, take, any, Result, ok, err, Error, Action, raise_if,
  and_then,
}
use market_systems_workstati.Base.Int.{ℤ, pos_part, leb_ℤ, ltb_ℤ, pos}
use market_systems_workstati.Base.Dict.{Dict, keys, lookup, insert, erase, or_else}
use market_systems_workstati.Base.Sort.{sorted}
use market_systems_workstati.Base.Order.{geb}
use Types.{Level, Snapshot, DepthUpdate, int64_max}
use Hash.{hash_views}

-- One side of the book: quantities by price.
abbrev pub LevelMap : Type 0
LevelMap = Dict ℕ ℕ

pub record Book : Type 0 where
  pub bids : LevelMap
  pub asks : LevelMap
  pub last_update_id : ℕ

-- `L2OrderBook()`, and the state after `clear`.
abbrev pub empty_book : Book
empty_book = record { bids = []; asks = []; last_update_id = 0 }

unfoldable pub clear : Book → Book
clear b = record { bids = []; asks = []; last_update_id = 0 }

-- `_set_level`: quantity zero deletes.
unfoldable pub set_level : LevelMap → Level → LevelMap
set_level side l = if l.quantity == 0 then erase l.price side else insert l.price l.quantity side

unfoldable pub set_levels : LevelMap → List Level → LevelMap
unfolding set_level
set_levels side [] = side
set_levels side (l ∷ ls) = set_levels (set_level side l) ls

-- The loops of `install_snapshot`, which test `if level.quantity`.
unfoldable pub load_levels : LevelMap → List Level → LevelMap
load_levels side [] = side
load_levels side (l ∷ ls) =
    load_levels (if ltb 0 l.quantity then insert l.price l.quantity side else erase l.price side) ls

abbrev pub is_empty {ℓ} : {A : Type ℓ} → List A → Bool
is_empty [] = true
is_empty (x ∷ xs) = false

-- `max(side)` and `min(side)`; the code does not call them on an empty dict.
abbrev pub max_price : List ℕ → ℕ
max_price [] = 0
max_price (p ∷ []) = p
max_price (p ∷ q ∷ ps) = let m = max_price (q ∷ ps) in if ltb m p then p else m

abbrev pub min_price : List ℕ → ℕ
min_price [] = 0
min_price (p ∷ []) = p
min_price (p ∷ q ∷ ps) = let m = min_price (q ∷ ps) in if ltb p m then p else m

abbrev pub bad_entry : ℕ × ℕ → Bool
bad_entry (p, q) = leb p 0 || leb q 0

unfoldable pub validate : Book → Result (Unit {0})
validate b =
    if is_empty b.bids || is_empty b.asks
    then err Error.not_two_sided
    else if any bad_entry b.bids
    then err Error.invalid_bid
    else if any bad_entry b.asks
    then err Error.invalid_ask
    else if leb (min_price (keys b.asks)) (max_price (keys b.bids))
    then err Error.crossed
    else ok tt

-- The assignments of `install_snapshot`, and the method with its final check.
unfoldable pub loaded : Snapshot → Book
unfolding load_levels
loaded s = record {
  bids = load_levels [] s.bids;
  asks = load_levels [] s.asks;
  last_update_id = s.last_update_id;
}

unfoldable pub install_snapshot : Snapshot → Action Book (Unit {0})
unfolding loaded validate
install_snapshot s b = (validate (loaded s), loaded s)

-- The assignments of `apply`, and the method with its final check: a raise leaves them in place.
unfoldable pub updated : DepthUpdate → Book → Book
unfolding set_levels
updated u b = record {
  bids = set_levels b.bids u.bids;
  asks = set_levels b.asks u.asks;
  last_update_id = u.final_update_id;
}

unfoldable pub apply : DepthUpdate → Action Book (Unit {0})
unfolding updated validate
apply u b = (validate (updated u b), updated u b)

-- `Level(price, side[price])` for a price that is there.
abbrev pub level_at : LevelMap → ℕ → Level
level_at side p = record { price = p; quantity = or_else (lookup p side) 0 }

unfoldable pub best_bid : Book → Result Level
best_bid b =
    if is_empty b.bids
    then err Error.bid_book_empty
    else ok (level_at b.bids (max_price (keys b.bids)))

unfoldable pub best_ask : Book → Result Level
best_ask b =
    if is_empty b.asks
    then err Error.ask_book_empty
    else ok (level_at b.asks (min_price (keys b.asks)))

abbrev pub limited {ℓ} : {A : Type ℓ} → ℕ → List A → List A
limited limit xs = if ltb 0 limit then take limit xs else xs

-- `bids(limit)` and `asks(limit)`: 0, the default, stands for no limit.
unfoldable pub bid_levels : Book → ℕ → List Level
bid_levels b limit = map (level_at b.bids) (limited limit (sorted geb (keys b.bids)))

unfoldable pub ask_levels : Book → ℕ → List Level
ask_levels b limit = map (level_at b.asks) (limited limit (sorted leb (keys b.asks)))

-- The strings `"bid"` and `"ask"`, and any other.
pub data BookSide : Type 0 where
  bid ask other_side : BookSide

abbrev side_quantity : Book → BookSide → ℕ → Result ℕ
side_quantity b BookSide.bid p = ok (or_else (lookup p b.bids) 0)
side_quantity b BookSide.ask p = ok (or_else (lookup p b.asks) 0)
side_quantity b BookSide.other_side p = err Error.bad_side

unfoldable pub quantity_at : Book → BookSide → ℤ → Result ℕ
quantity_at b side p =
    if leb_ℤ p (pos 0) || ltb_ℤ (pos int64_max) p
    then err Error.bad_price
    else side_quantity b side (pos_part p)

unfoldable pub state_hash : Book → ℕ
unfolding bid_levels ask_levels hash_views
state_hash b = hash_views b.last_update_id (bid_levels b 0) (ask_levels b 0)
