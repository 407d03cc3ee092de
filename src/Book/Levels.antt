-- ===== src/Book/Levels.antt =====
-- `L2OrderBook._set_level` and the level loops of `install_snapshot` and `apply`
-- (market_engine/market_data/l2_order_book.py): what a list of levels does to a side of the book.
use market_systems_workstati.Base.{
  ℕ, ◌≡◌, refl, Option, none, some, List, [], ◌∷◌, arith, ◌==◌, nat_eq, if◌then◌else◌,
}
use market_systems_workstati.Base.Dict.{
  lookup, IsUnique, lookup-insert, lookup-erase, insert-IsUnique, erase-IsUnique,
}
use market_systems_workstati.Book.Types.{Level}
use market_systems_workstati.Book.{LevelMap, set_level, set_levels, load_levels}

-- The quantity that the last of the levels with this price gives.
abbrev pub last_quantity : ℕ → List Level → Option ℕ
last_quantity p [] = none
last_quantity p (l ∷ ls) = elim (last_quantity p ls) [
  | some q ↦ some q
  | none ↦ if l.price == p then some l.quantity else none
]

-- What a quantity leaves in the book: zero leaves nothing.
abbrev pub resting : ℕ → Option ℕ
resting q = if q == 0 then none else some q

abbrev pub after_levels : Option ℕ → Option ℕ → Option ℕ
after_levels (some q) old = resting q
after_levels none old = old

pub set_level-IsUnique : (l : Level) (side : LevelMap) → IsUnique side → IsUnique (set_level side l)
unfolding set_level
set_level-IsUnique l side u =
    ground (arith, erase-IsUnique l.price side u, insert-IsUnique l.price l.quantity side u)

pub lookup-set_level :
    (p : ℕ) (l : Level) (side : LevelMap)
    → IsUnique side
    → lookup p (set_level side l) ≡ (if l.price == p then resting l.quantity else lookup p side)
unfolding set_level
lookup-set_level p l side u =
    ground (arith, lookup-erase p l.price side u, lookup-insert p l.price l.quantity side)

pub set_levels-IsUnique :
    (ls : List Level) (side : LevelMap) → IsUnique side → IsUnique (set_levels side ls)
unfolding set_levels
set_levels-IsUnique [] side u = u
set_levels-IsUnique (l ∷ ls) side u =
    set_levels-IsUnique ls (set_level side l) (set_level-IsUnique l side u)

-- After a list of levels each price holds what the last level with that price says: nothing if its
-- quantity is zero, and what it held before if no level has that price.
pub lookup-set_levels :
    (p : ℕ) (ls : List Level) (side : LevelMap)
    → IsUnique side
    → lookup p (set_levels side ls) ≡ after_levels (last_quantity p ls) (lookup p side)
unfolding set_levels
lookup-set_levels p [] side u = refl
lookup-set_levels p (l ∷ ls) side u = ground (
  arith,
  lookup-set_levels p ls (set_level side l) (set_level-IsUnique l side u),
  lookup-set_level p l side u,
)

-- The loops of `install_snapshot` do to a side what `_set_level` does, level by level.
pub load_levels-eq-set_levels :
    (ls : List Level) (side : LevelMap) → load_levels side ls ≡ set_levels side ls
unfolding load_levels set_levels set_level
load_levels-eq-set_levels [] side = refl
load_levels-eq-set_levels (l ∷ ls) side =
    ground (arith, load_levels-eq-set_levels ls (set_level side l))
