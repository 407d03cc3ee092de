-- ===== src/Base/Order.antt =====
-- Total orders of numbers as an interface, and what sorting by one gives: a list without repetitions
-- is sorted strictly, keeps its members, and is determined by them.
use Prim.Native.Nat.{ℕ}
use mathlib.Core.Path.{◌≡◌, refl, sym, ◌∙◌, ap, ap₂, subst}
use mathlib.Core.Logic.{◌≢◌, inl, inr}
use mathlib.Core.Bool.{Bool, true, false, ◌||◌}
use mathlib.Core.List.{List, [], ◌∷◌}
use native.Mathlib.Omega.{arith}
use market_systems_workstati.Base.Tests.{leb, nat_beq, Bool-cases}
use market_systems_workstati.Base.Lists.{All}
use market_systems_workstati.Base.Sort.{place, sorted}

pub record Order : Type 0 where
  pub le : ℕ → ℕ → Bool
  pub total : (x y : ℕ) → le x y ≡ false → le y x ≡ true
  pub antisym : (x y : ℕ) → le x y ≡ true → le y x ≡ true → x ≡ y
  pub trans : (x y z : ℕ) → le x y ≡ true → le y z ≡ true → le x z ≡ true

abbrev pub geb : ℕ → ℕ → Bool
geb a b = leb b a

pub leb_total : (x y : ℕ) → leb x y ≡ false → leb y x ≡ true
leb_total x y h = ground arith

pub leb_antisym : (x y : ℕ) → leb x y ≡ true → leb y x ≡ true → x ≡ y
leb_antisym x y h k = ground arith

pub leb_trans : (x y z : ℕ) → leb x y ≡ true → leb y z ≡ true → leb x z ≡ true
leb_trans x y z h k = ground arith

abbrev pub ascending : Order
ascending = record { le = leb; total = leb_total; antisym = leb_antisym; trans = leb_trans }

abbrev pub descending : Order
descending = record {
  le = geb;
  total = λ x y. leb_total y x;
  antisym = λ x y h k. leb_antisym x y k h;
  trans = λ x y z h k. leb_trans z y x k h;
}

abbrev pub mem : ℕ → List ℕ → Bool
mem p [] = false
mem p (x ∷ xs) = nat_beq x p || mem p xs

abbrev pub IsDistinct : List ℕ → Type 0
IsDistinct [] = Unit
IsDistinct (x ∷ xs) = (mem x xs ≡ false) × IsDistinct xs

head_ne : (x y : ℕ) (ys : List ℕ) → mem x (y ∷ ys) ≡ false → x ≢ y
head_ne x y ys m e = ground arith

tail_not_mem : (x y : ℕ) (ys : List ℕ) → mem x (y ∷ ys) ≡ false → mem x ys ≡ false
tail_not_mem x y ys m = ground arith

module _ (o : Order) where
  open o use {le, total, antisym, trans}

  abbrev pub Before : ℕ → ℕ → Type 0
  Before x y = (le x y ≡ true) × (x ≢ y)

  abbrev pub IsSorted : List ℕ → Type 0
  IsSorted [] = Unit
  IsSorted (x ∷ xs) = All (Before x) xs × IsSorted xs

  All-place :
      (x y : ℕ) (ys : List ℕ) → Before x y → All (Before x) ys → All (Before x) (place le y ys)
  All-place x y [] b a = (b, tt)
  All-place x y (z ∷ zs) b a = ground (arith, All-place x y zs b a.1)

  Before-trans : (x y z : ℕ) → Before x y → Before y z → Before x z
  Before-trans x y z b c =
      (trans x y z b.0 c.0, λ e. b.1 (antisym x y b.0 (subst (λ w. le y w ≡ true) (sym e) c.0)))

  All-weaken : (x y : ℕ) (ys : List ℕ) → Before x y → All (Before y) ys → All (Before x) ys
  All-weaken x y [] b a = tt
  All-weaken x y (z ∷ zs) b a = (Before-trans x y z b a.0, All-weaken x y zs b a.1)

  mem-place : (p x : ℕ) (ys : List ℕ) → mem p (place le x ys) ≡ (nat_beq x p || mem p ys)
  mem-place p x [] = refl
  mem-place p x (y ∷ ys) = ground (arith, mem-place p x ys)

  pub mem-sorted : (p : ℕ) (xs : List ℕ) → mem p (sorted le xs) ≡ mem p xs
  mem-sorted p [] = refl
  mem-sorted p (x ∷ xs) = ground (arith, mem-place p x (sorted le xs), mem-sorted p xs)

  place-IsSorted : (x : ℕ) (ys : List ℕ) → mem x ys ≡ false → IsSorted ys → IsSorted (place le x ys)
  place-IsSorted x [] m s = (tt, tt)
  place-IsSorted x (y ∷ ys) m s = elim (Bool-cases (le x y)) [
    | inl first ↦
        rw first
          (let b : Before x y = (first, head_ne x y ys m) in ((b, All-weaken x y ys b s.0), s))
    | inr later ↦ rw later (
      All-place y x ys (total x y later, λ e. head_ne x y ys m (sym e)) s.0,
      place-IsSorted x ys (tail_not_mem x y ys m) s.1,
    )
  ]

  pub sorted-IsSorted : (xs : List ℕ) → IsDistinct xs → IsSorted (sorted le xs)
  sorted-IsSorted [] d = tt
  sorted-IsSorted (x ∷ xs) d =
      place-IsSorted x (sorted le xs) (mem-sorted x xs ∙ d.0) (sorted-IsSorted xs d.1)

  not_mem_of_All : (x : ℕ) (ys : List ℕ) → All (Before x) ys → mem x ys ≡ false
  not_mem_of_All x [] a = refl
  not_mem_of_All x (y ∷ ys) a = ground (arith, a.0.1, not_mem_of_All x ys a.1)

  Before-of_mem : (x p : ℕ) (ys : List ℕ) → All (Before x) ys → mem p ys ≡ true → Before x p
  Before-of_mem x p [] a m = cc
  Before-of_mem x p (y ∷ ys) a m = elim (Bool-cases (nat_beq y p)) [
    | inl e ↦ subst (Before x) (let q : y ≡ p = ground arith in q) a.0
    | inr n ↦ Before-of_mem x p ys a.1 (ground arith)
  ]

  heads-eq :
      (x y : ℕ) (xs ys : List ℕ)
      → IsSorted (x ∷ xs)
      → IsSorted (y ∷ ys)
      → ((p : ℕ) → mem p (x ∷ xs) ≡ mem p (y ∷ ys))
      → x ≡ y
  heads-eq x y xs ys s t h = elim (Bool-cases (nat_beq x y)) [
    | inl e ↦ ground arith
    | inr n ↦
        antisym x y (Before-of_mem x y xs s.0 (ground (arith, h y))).0
          (Before-of_mem y x ys t.0 (ground (arith, h x))).0
  ]

  tails-eq :
      (x : ℕ) (xs ys : List ℕ)
      → IsSorted (x ∷ xs)
      → IsSorted (x ∷ ys)
      → ((p : ℕ) → mem p (x ∷ xs) ≡ mem p (x ∷ ys))
      → (p : ℕ) → mem p xs ≡ mem p ys
  tails-eq x xs ys s t h p = ground (arith, h p, not_mem_of_All x xs s.0, not_mem_of_All x ys t.0)

  -- A strictly sorted list is determined by its members.
  pub sorted_unique :
      (xs ys : List ℕ) → IsSorted xs → IsSorted ys → ((p : ℕ) → mem p xs ≡ mem p ys) → xs ≡ ys
  sorted_unique [] [] s t h = refl
  sorted_unique [] (y ∷ ys) s t h = ground (arith, h y)
  sorted_unique (x ∷ xs) [] s t h = ground (arith, h x)
  sorted_unique (x ∷ xs) (y ∷ ys) s t h =
      let e : x ≡ y = heads-eq x y xs ys s t h in
      ap₂ ◌∷◌ e (
        sorted_unique xs ys s.1 t.1 (
          tails-eq x xs ys s (subst (λ z. IsSorted (z ∷ ys)) (sym e) t)
            (λ p. h p ∙ ap (λ z. mem p (z ∷ ys)) (sym e))))
