-- ===== src/Tests/Books.antt =====
-- market_engine/market_data/l2_order_book.py: `L2OrderBook` on a small book.
use market_systems_workstati.Base.{ℕ, ◌≡◌, refl, ◌↔◌, [], ◌∷◌, ok, err, Error, arith, nat_eq}
use market_systems_workstati.Base.Order.{IsSorted, ascending, descending}
use market_systems_workstati.Base.Dict.{lookup}
use market_systems_workstati.Book.Types.{Level, Snapshot, DepthUpdate}
use market_systems_workstati.Book.{
  Book, LevelMap, install_snapshot, apply, updated, set_levels, set_level, load_levels, validate,
  bid_levels, ask_levels, state_hash, best_bid, best_ask,
}
use market_systems_workstati.Book.Levels.{
  lookup-set_levels, load_levels-eq-set_levels, after_levels, last_quantity,
}
use market_systems_workstati.Book.Views.{
  IsKeyed, SameLevels, views_list_book, state_hash-eq, prices, find_level,
}
use market_systems_workstati.Book.Invariant.{IsValid, apply_iff, install_snapshot_iff}

abbrev pub level : ℕ → ℕ → Level
level p q = record { price = p; quantity = q }

abbrev bid_side : LevelMap
bid_side = (10, 5) ∷ (9, 7) ∷ []

abbrev ask_side : LevelMap
ask_side = (11, 4) ∷ (12, 6) ∷ []

abbrev pub book : Book
book = record { bids = bid_side; asks = ask_side; last_update_id = 100 }

-- The same book, filled in another order.
abbrev shuffled : Book
shuffled = record {
  bids = (9, 7) ∷ (10, 5) ∷ [];
  asks = (12, 6) ∷ (11, 4) ∷ [];
  last_update_id = 100;
}

abbrev pub snapshot : Snapshot
snapshot = record {
  receipt_timestamp_ns = 1;
  last_update_id = 100;
  bids = level 10 5 ∷ level 9 7 ∷ [];
  asks = level 11 4 ∷ level 12 6 ∷ [];
}

-- Deletes the best bid and moves the best ask.
abbrev pub update : DepthUpdate
update = record {
  receipt_timestamp_ns = 2;
  event_time_ms = 2;
  first_update_id = 99;
  final_update_id = 103;
  bids = level 10 0 ∷ [];
  asks = level 11 2 ∷ [];
}

-- Crosses the book.
abbrev crossing : DepthUpdate
crossing = record update { bids = level 12 1 ∷ [] }

apply_moves :
    apply update book
    ≡ (ok tt, record { bids = (9, 7) ∷ []; asks = (11, 2) ∷ (12, 6) ∷ []; last_update_id = 103 })
unfolding apply updated set_levels set_level validate
apply_moves = refl

crossing_raises : (apply crossing book).0 ≡ err Error.crossed
unfolding apply updated set_levels set_level validate
crossing_raises = refl

best_levels : (best_bid book ≡ ok (level 10 5)) × (best_ask book ≡ ok (level 11 4))
unfolding best_bid best_ask
best_levels = (refl, refl)

two_best_bids : bid_levels shuffled 1 ≡ level 10 5 ∷ []
unfolding bid_levels
two_best_bids = refl

empty_hash : state_hash (record { bids = []; asks = []; last_update_id = 0 }) ≡ 9354609568656401157
unfolding state_hash bid_levels ask_levels
empty_hash = refl

book-IsKeyed : IsKeyed book
book-IsKeyed = record { bids_unique = (refl, (refl, tt)); asks_unique = (refl, (refl, tt)) }

shuffled-IsKeyed : IsKeyed shuffled
shuffled-IsKeyed = record { bids_unique = (refl, (refl, tt)); asks_unique = (refl, (refl, tt)) }

book-SameLevels-shuffled : SameLevels book shuffled
book-SameLevels-shuffled = record {
  same_bids = λ p. ground arith;
  same_asks = λ p. ground arith;
  same_id = refl;
}

lookup-set_levels_example :
    lookup 10 (set_levels bid_side update.bids)
    ≡ after_levels (last_quantity 10 update.bids) (lookup 10 bid_side)
lookup-set_levels_example = lookup-set_levels 10 update.bids bid_side book-IsKeyed.bids_unique

load_levels-eq-set_levels_example : load_levels [] snapshot.bids ≡ set_levels [] snapshot.bids
load_levels-eq-set_levels_example = load_levels-eq-set_levels snapshot.bids []

views_list_book_example :
    IsSorted descending (prices (bid_levels shuffled 0))
    × IsSorted ascending (prices (ask_levels shuffled 0))
    × ((p : ℕ) → find_level p (bid_levels shuffled 0) ≡ lookup p shuffled.bids)
    × ((p : ℕ) → find_level p (ask_levels shuffled 0) ≡ lookup p shuffled.asks)
views_list_book_example = views_list_book shuffled shuffled-IsKeyed

state_hash-eq_example : state_hash book ≡ state_hash shuffled
state_hash-eq_example =
    state_hash-eq book shuffled book-IsKeyed shuffled-IsKeyed book-SameLevels-shuffled

apply_iff_example :
    IsKeyed (apply update book).1
    × (((apply update book).0 ≡ ok tt) ↔ IsValid (apply update book).1)
apply_iff_example = apply_iff update book book-IsKeyed

install_snapshot_iff_example :
    ((install_snapshot snapshot shuffled).0 ≡ ok tt)
    ↔ IsValid (install_snapshot snapshot shuffled).1
install_snapshot_iff_example = install_snapshot_iff snapshot shuffled
