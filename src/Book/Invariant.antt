-- ===== src/Book/Invariant.antt =====
-- `validate`, `best_bid` and `best_ask` of `L2OrderBook` (market_engine/market_data/l2_order_book.py):
-- the check that ends `install_snapshot` and `apply` decides the invariant of the book.
use market_systems_workstati.Base.{
  ℕ, ◌≤◌, ◌<◌, ◌≡◌, refl, sym, ap, ◌∙◌, ◌↔◌, true, false, Option, none, some, List, [], ◌∷◌, arith,
  nat_eq, ok, any,
}
use market_systems_workstati.Base.Dict.{lookup, keys, IsUnique}
use market_systems_workstati.Base.Order.{mem}
use market_systems_workstati.Book.Types.{Snapshot, DepthUpdate}
use market_systems_workstati.Book.{
  Book, LevelMap, is_empty, max_price, min_price, bad_entry, validate, loaded, install_snapshot,
  updated, apply,
}
use market_systems_workstati.Book.Levels.{set_levels-IsUnique, load_levels-eq-set_levels}
use market_systems_workstati.Book.Views.{IsKeyed, mem-keys, is_some}

-- Every resting level has a positive price and a positive quantity.
abbrev pub ArePositive : LevelMap → Type 0
ArePositive side = (p q : ℕ) → lookup p side ≡ some q → (0 < p) × (0 < q)

pub record IsValid (b : Book) : Type 0 where
  pub keyed : IsKeyed b
  pub has_bid : is_empty b.bids ≡ false
  pub has_ask : is_empty b.asks ≡ false
  pub bids_positive : ArePositive b.bids
  pub asks_positive : ArePositive b.asks
  pub uncrossed : (p a q r : ℕ) → lookup p b.bids ≡ some q → lookup a b.asks ≡ some r → p < a

pub le-max_price : (p : ℕ) (ps : List ℕ) → mem p ps ≡ true → p ≤ max_price ps
le-max_price p [] m = cc
le-max_price p (x ∷ []) m = ground arith
le-max_price p (x ∷ y ∷ ps) m = ground (arith, le-max_price p (y ∷ ps))

pub min_price-le : (p : ℕ) (ps : List ℕ) → mem p ps ≡ true → min_price ps ≤ p
min_price-le p [] m = cc
min_price-le p (x ∷ []) m = ground arith
min_price-le p (x ∷ y ∷ ps) m = ground (arith, min_price-le p (y ∷ ps))

pub mem-max_price : (x : ℕ) (ps : List ℕ) → mem (max_price (x ∷ ps)) (x ∷ ps) ≡ true
mem-max_price x [] = ground arith
mem-max_price x (y ∷ ps) = ground (arith, mem-max_price y ps)

pub mem-min_price : (x : ℕ) (ps : List ℕ) → mem (min_price (x ∷ ps)) (x ∷ ps) ≡ true
mem-min_price x [] = ground arith
mem-min_price x (y ∷ ps) = ground (arith, mem-min_price y ps)

is_some_witness : (o : Option ℕ) → is_some o ≡ true → (q : ℕ) × (o ≡ some q)
is_some_witness none h = cc
is_some_witness (some q) h = (q, refl)

lookup_of_mem :
    (p : ℕ) (side : LevelMap) → mem p (keys side) ≡ true → (q : ℕ) × (lookup p side ≡ some q)
lookup_of_mem p side m = is_some_witness (lookup p side) (sym (mem-keys p side) ∙ m)

mem_of_lookup : (p q : ℕ) (side : LevelMap) → lookup p side ≡ some q → mem p (keys side) ≡ true
mem_of_lookup p q side e = mem-keys p side ∙ ap is_some e

positive_of_any : (side : LevelMap) → any bad_entry side ≡ false → ArePositive side
positive_of_any [] h p q e = cc
positive_of_any ((j, v) ∷ side) h p q e = ground (arith, positive_of_any side (ground arith) p q)

any_of_positive : (side : LevelMap) → IsUnique side → ArePositive side → any bad_entry side ≡ false
any_of_positive [] u h = refl
any_of_positive ((j, v) ∷ side) u h =
    ground (arith, h j v, any_of_positive side u.1 (λ p q e. h p q (ground (arith, u.0))))

-- Both sides are there: the best bid is below the best ask exactly if every bid is below every ask.
best_apart :
    (b : Book)
    → is_empty b.bids ≡ false
    → is_empty b.asks ≡ false
    → (max_price (keys b.bids) < min_price (keys b.asks))
      ↔ ((p a q r : ℕ) → lookup p b.bids ≡ some q → lookup a b.asks ≡ some r → p < a)
best_apart b hb ha = (
  λ h p a q r e f. omega (
    arith,
    le-max_price p (keys b.bids) (mem_of_lookup p q b.bids e),
    min_price-le a (keys b.asks) (mem_of_lookup a r b.asks f),
  ),
  λ h. let (q, e) = top b.bids hb in let (r, f) = bottom b.asks ha in h _ _ q r e f,
)
  where
    top :
        (side : LevelMap)
        → is_empty side ≡ false
        → (q : ℕ) × (lookup (max_price (keys side)) side ≡ some q)
    top [] h = cc
    top ((j, v) ∷ side) h = lookup_of_mem _ ((j, v) ∷ side) (mem-max_price j (keys side))

    bottom :
        (side : LevelMap)
        → is_empty side ≡ false
        → (q : ℕ) × (lookup (min_price (keys side)) side ≡ some q)
    bottom [] h = cc
    bottom ((j, v) ∷ side) h = lookup_of_mem _ ((j, v) ∷ side) (mem-min_price j (keys side))

validate-IsValid : (b : Book) → IsKeyed b → validate b ≡ ok tt → IsValid b
unfolding validate
validate-IsValid b k h = record {
  keyed = k;
  has_bid = ground arith;
  has_ask = ground arith;
  bids_positive = positive_of_any b.bids (ground arith);
  asks_positive = positive_of_any b.asks (ground arith);
  uncrossed = (best_apart b (ground arith) (ground arith)).0 (ground arith);
}

IsValid-validate : (b : Book) → IsValid b → validate b ≡ ok tt
unfolding validate
IsValid-validate b v = ground (
  arith,
  any_of_positive b.bids v.keyed.bids_unique v.bids_positive,
  any_of_positive b.asks v.keyed.asks_unique v.asks_positive,
  (best_apart b v.has_bid v.has_ask).1 v.uncrossed,
)

-- Of a book without repeated prices, `validate` passes exactly if the invariant holds.
pub validate_iff : (b : Book) → IsKeyed b → (validate b ≡ ok tt) ↔ IsValid b
validate_iff b k = (validate-IsValid b k, IsValid-validate b)

pub loaded-IsKeyed : (s : Snapshot) → IsKeyed (loaded s)
unfolding loaded
loaded-IsKeyed s = record {
  bids_unique = rw (load_levels-eq-set_levels s.bids []) (set_levels-IsUnique s.bids [] tt);
  asks_unique = rw (load_levels-eq-set_levels s.asks []) (set_levels-IsUnique s.asks [] tt);
}

pub updated-IsKeyed : (u : DepthUpdate) (b : Book) → IsKeyed b → IsKeyed (updated u b)
unfolding updated
updated-IsKeyed u b k = record {
  bids_unique = set_levels-IsUnique u.bids b.bids k.bids_unique;
  asks_unique = set_levels-IsUnique u.asks b.asks k.asks_unique;
}

-- A snapshot is accepted exactly if the book that it leaves meets the invariant, whatever the book
-- was before.
pub install_snapshot_iff :
    (s : Snapshot) (b : Book)
    → ((install_snapshot s b).0 ≡ ok tt) ↔ IsValid (install_snapshot s b).1
unfolding install_snapshot
install_snapshot_iff s b = validate_iff (loaded s) (loaded-IsKeyed s)

-- An update of a book without repeated prices leaves such a book, and raises nothing exactly if the
-- book that it leaves meets the invariant.
pub apply_iff :
    (u : DepthUpdate) (b : Book)
    → IsKeyed b
    → IsKeyed (apply u b).1 × (((apply u b).0 ≡ ok tt) ↔ IsValid (apply u b).1)
unfolding apply
apply_iff u b k = (updated-IsKeyed u b k, validate_iff (updated u b) (updated-IsKeyed u b k))
