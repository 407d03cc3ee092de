-- ===== src/Book/Views.antt =====
-- `bids`, `asks` and `state_hash` of `L2OrderBook` (market_engine/market_data/l2_order_book.py): the
-- ordered views list exactly the active levels, and depend on no insertion order.
use market_systems_workstati.Base.{
  ℕ, ◌≡◌, refl, sym, ap, ap₂, fun_ext, ◌∙◌, Bool, true, false, Option, none, some, List, [], ◌∷◌,
  map, arith, ◌==◌, nat_eq, if◌then◌else◌,
}
use market_systems_workstati.Base.Dict.{lookup, keys, IsUnique, or_else}
use market_systems_workstati.Base.Sort.{sorted}
use market_systems_workstati.Base.Order.{
  Order, ascending, descending, mem, IsDistinct, IsSorted, mem-sorted, sorted-IsSorted,
  sorted_unique,
}
use market_systems_workstati.Book.Types.{Level}
use market_systems_workstati.Book.{Book, LevelMap, level_at, bid_levels, ask_levels, state_hash}

abbrev pub is_some {ℓ} : {A : Type ℓ} → Option A → Bool
is_some none = false
is_some (some a) = true

pub mem-keys : (p : ℕ) (side : LevelMap) → mem p (keys side) ≡ is_some (lookup p side)
mem-keys p [] = refl
mem-keys p ((j, v) ∷ side) = ground (arith, mem-keys p side)

keys-IsDistinct : (side : LevelMap) → IsUnique side → IsDistinct (keys side)
keys-IsDistinct [] u = tt
keys-IsDistinct ((j, v) ∷ side) u = (mem-keys j side ∙ ap is_some u.0, keys-IsDistinct side u.1)

-- The prices and quantities of a view, in its order.
abbrev pub prices : List Level → List ℕ
prices [] = []
prices (l ∷ ls) = l.price ∷ prices ls

abbrev pub find_level : ℕ → List Level → Option ℕ
find_level p [] = none
find_level p (l ∷ ls) = if l.price == p then some l.quantity else find_level p ls

prices-map : (side : LevelMap) (ps : List ℕ) → prices (map (level_at side) ps) ≡ ps
prices-map side [] = refl
prices-map side (p ∷ ps) = ap (λ qs. p ∷ qs) (prices-map side ps)

find-map :
    (p : ℕ) (side : LevelMap) (ps : List ℕ)
    → find_level p (map (level_at side) ps)
      ≡ (if mem p ps then some (or_else (lookup p side) 0) else none)
find-map p side [] = refl
find-map p side (x ∷ ps) = ground (arith, find-map p side ps)

module _ (o : Order) where
  open o use {le}

  view : LevelMap → List Level
  view side = map (level_at side) (sorted le (keys side))

  view-IsSorted : (side : LevelMap) → IsUnique side → IsSorted o (prices (view side))
  unfolding view
  view-IsSorted side u =
      rw (prices-map side (sorted le (keys side)))
        (sorted-IsSorted o (keys side) (keys-IsDistinct side u))

  find-view : (p : ℕ) (side : LevelMap) → find_level p (view side) ≡ lookup p side
  unfolding view
  find-view p side =
      ground (
        arith,
        find-map p side (sorted le (keys side)),
        mem-sorted o p (keys side),
        mem-keys p side,
      )

  view_unique :
      (s t : LevelMap)
      → IsUnique s
      → IsUnique t
      → ((p : ℕ) → lookup p s ≡ lookup p t)
      → view s ≡ view t
  unfolding view
  view_unique s t u v same =
      ap₂ map (fun_ext (λ p. ap (λ q. record { price = p; quantity = or_else q 0 }) (same p))) (
        sorted_unique o _ _ (sorted-IsSorted o (keys s) (keys-IsDistinct s u))
          (sorted-IsSorted o (keys t) (keys-IsDistinct t v))
          (λ p.
            mem-sorted o p (keys s)
            ∙ mem-keys p s
            ∙ ap is_some (same p)
            ∙ sym (mem-sorted o p (keys t) ∙ mem-keys p t)))

-- The two books hold the same quantity at every price, and the same update ID.
pub record SameLevels (b c : Book) : Type 0 where
  pub same_bids : (p : ℕ) → lookup p b.bids ≡ lookup p c.bids
  pub same_asks : (p : ℕ) → lookup p b.asks ≡ lookup p c.asks
  pub same_id : b.last_update_id ≡ c.last_update_id

-- Neither side of the book has a price twice.
pub record IsKeyed (b : Book) : Type 0 where
  pub bids_unique : IsUnique b.bids
  pub asks_unique : IsUnique b.asks

-- `bids()` is strictly descending, `asks()` strictly ascending, and each lists the quantity of every
-- price of its side, and nothing else.
pub views_list_book :
    (b : Book)
    → IsKeyed b
    → IsSorted descending (prices (bid_levels b 0))
      × IsSorted ascending (prices (ask_levels b 0))
      × ((p : ℕ) → find_level p (bid_levels b 0) ≡ lookup p b.bids)
      × ((p : ℕ) → find_level p (ask_levels b 0) ≡ lookup p b.asks)
unfolding bid_levels ask_levels view
views_list_book b k = (
  view-IsSorted descending b.bids k.bids_unique,
  view-IsSorted ascending b.asks k.asks_unique,
  λ p. find-view descending p b.bids,
  λ p. find-view ascending p b.asks,
)

-- Two books with the same levels and update ID have the same state hash, whatever the order in which
-- their levels came in.
pub state_hash-eq :
    (b c : Book) → IsKeyed b → IsKeyed c → SameLevels b c → state_hash b ≡ state_hash c
unfolding state_hash bid_levels ask_levels view
state_hash-eq b c k m s = rw (
  s.same_id,
  view_unique descending b.bids c.bids k.bids_unique m.bids_unique s.same_bids,
  view_unique ascending b.asks c.asks k.asks_unique m.asks_unique s.same_asks,
)
