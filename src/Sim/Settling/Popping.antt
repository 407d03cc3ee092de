-- ===== src/Sim/Settling/Popping.antt =====
-- What is left of the pending requests of market_engine/execution/simulator.py when one is popped.
use market_systems_workstati.Base.{
  ℕ, ◌+◌, ◌≤◌, ◌≡◌, refl, sym, ◌∙◌, true, false, Option, some, List, [], ◌∷◌, arith, ◌==◌, nat_eq,
  list_eq, length, Bool-cases, Option-cases, inl, inr, ◌⊎◌, subst, All,
}
use market_systems_workstati.Floats.{Floats}
use market_systems_workstati.Sim.Types.{OrderId, OrderRequest}
use market_systems_workstati.Sim.State.{Config}
use market_systems_workstati.Sim.Controls.{pop_request}

-- Each entry comes at or before those that follow it.
abbrev pub InOrder : {A : Type 0} → (A → ℕ) → List A → Type 0
InOrder key [] = Unit
InOrder key (x ∷ xs) = All (λ y. key x ≤ key y) xs × InOrder key xs

abbrev pub decided : OrderRequest → ℕ
decided r = r.decision_timestamp_ns

rest_popped :
    {r q : OrderRequest} {rs qs : List OrderRequest}
    → ◌≡◌ {A = Option (OrderRequest × List OrderRequest)} (some (r, rs)) (some (q, qs))
    → rs ≡ qs
rest_popped h = cc

module _ (fl : Floats) (c : Config fl.Float) where
  open fl use {Float}

  pub pop_request-length :
      (id : OrderId) (rs qs : List OrderRequest) (r : OrderRequest)
      → pop_request fl c id rs ≡ some (r, qs)
      → length qs + 1 ≡ length rs
  pop_request-length id [] qs r e = cc
  pop_request-length id (x ∷ xs) qs r e = elim (Bool-cases (x.order_id == id)) [
    | inl own ↦ ground (arith, own)
    | inr other ↦ elim (Option-cases (pop_request fl c id xs)) [
      | inl missing ↦ ground (arith, other, missing)
      | inr ((y, ys), found) ↦ ground (arith, other, found, pop_request-length id xs ys y found)
    ]
  ]

  pop_own :
      (id : OrderId) (x : OrderRequest) (xs : List OrderRequest)
      → (x.order_id == id) ≡ true
      → pop_request fl c id (x ∷ xs) ≡ some (x, xs)
  pop_own id x xs own = rw own refl

  pop_later :
      (id : OrderId) (x y : OrderRequest) (xs ys : List OrderRequest)
      → (x.order_id == id) ≡ false
      → pop_request fl c id xs ≡ some (y, ys)
      → pop_request fl c id (x ∷ xs) ≡ some (y, x ∷ ys)
  pop_later id x y xs ys other found = rw (other, found) refl

  -- What is left when a request is popped: all but the first, or the first and what is left of the rest.
  popped_cons :
      (id : OrderId) (x r : OrderRequest) (xs qs : List OrderRequest)
      → pop_request fl c id (x ∷ xs) ≡ some (r, qs)
      → (xs ≡ qs)
        ⊎ ((y : OrderRequest) × (ys : List OrderRequest) × (pop_request fl c id xs ≡ some (y, ys))
            × (x ∷ ys ≡ qs))
  popped_cons id x r xs qs e = elim (Bool-cases (x.order_id == id)) [
    | inl own ↦ inl (rest_popped (sym (pop_own id x xs own) ∙ e))
    | inr other ↦ elim (Option-cases (pop_request fl c id xs)) [
      | inl missing ↦ absurd (ground (arith, e, other, missing))
      | inr ((y, ys), found) ↦
          inr (y, ys, found, rest_popped (sym (pop_later id x y xs ys other found) ∙ e))
    ]
  ]

  pop_request-All :
      (P : OrderRequest → Type 0) (id : OrderId) (rs qs : List OrderRequest) (r : OrderRequest)
      → pop_request fl c id rs ≡ some (r, qs)
      → All P rs
      → All P qs
  pop_request-All P id [] qs r e a = absurd (cc)
  pop_request-All P id (x ∷ xs) qs r e a = elim (popped_cons id x r xs qs e) [
    | inl same ↦ subst (All P) same a.1
    | inr (y, ys, found, same) ↦ subst (All P) same (a.0, pop_request-All P id xs ys y found a.1)
  ]

  pub pop_request-InOrder :
      (id : OrderId) (rs qs : List OrderRequest) (r : OrderRequest)
      → pop_request fl c id rs ≡ some (r, qs)
      → InOrder decided rs
      → InOrder decided qs
  pop_request-InOrder id [] qs r e o = absurd (cc)
  pop_request-InOrder id (x ∷ xs) qs r e o = elim (popped_cons id x r xs qs e) [
    | inl same ↦ subst (InOrder decided) same o.1
    | inr (y, ys, found, same) ↦
        subst (InOrder decided) same
          (pop_request-All _ id xs ys y found o.0, pop_request-InOrder id xs ys y found o.1)
  ]
