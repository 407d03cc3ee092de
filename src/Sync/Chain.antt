-- ===== src/Sync/Chain.antt =====
-- Update-ID continuity, apart from the code: the events that a stream contributes after an update ID,
-- and where it breaks off. Used for `DepthSynchronizer`
-- (market_engine/market_data/l2_order_book.py).
use market_systems_workstati.Base.{
  ℕ, ◌+◌, ◌≤◌, ◌<◌, ◌≡◌, refl, true, false, List, [], ◌∷◌, ◌++◌, arith, ltb, leb, Bool-cases, inl,
  inr, ok, ap, ◌∙◌, sym, subst,
}
use market_systems_workstati.Book.Types.{DepthUpdate, Snapshot}
use market_systems_workstati.Book.{Book, updated, validate, loaded}

-- No update is missing: each event begins at most one past the ID reached, and goes beyond it.
abbrev pub Continuous : ℕ → List DepthUpdate → Type 0
Continuous last [] = Unit
Continuous last (u ∷ us) =
    (u.first_update_id ≤ last + 1) × (last < u.final_update_id) × Continuous u.final_update_id us

-- What a stream gives after `last`: stale events are skipped, and the first gap ends it.
unfoldable pub accepted : ℕ → List DepthUpdate → List DepthUpdate
accepted last [] = []
accepted last (u ∷ us) = elim (leb u.final_update_id last) [
  | true ↦ accepted last us
  | false ↦ elim (ltb (last + 1) u.first_update_id) [
    | true ↦ []
    | false ↦ u ∷ accepted u.final_update_id us
  ]
]

-- The events from the first gap on; none if the stream is continuous.
unfoldable pub beyond_gap : ℕ → List DepthUpdate → List DepthUpdate
beyond_gap last [] = []
beyond_gap last (u ∷ us) = elim (leb u.final_update_id last) [
  | true ↦ beyond_gap last us
  | false ↦ elim (ltb (last + 1) u.first_update_id) [
    | true ↦ u ∷ us
    | false ↦ beyond_gap u.final_update_id us
  ]
]

unfoldable pub apply_all : List DepthUpdate → Book → Book
apply_all [] b = b
apply_all (u ∷ us) b = apply_all us (updated u b)

-- The book stays valid after each event.
abbrev pub Validates : List DepthUpdate → Book → Type 0
Validates [] b = Unit
Validates (u ∷ us) b = (validate (updated u b) ≡ ok tt) × Validates us (updated u b)

module _ (u : DepthUpdate) (us : List DepthUpdate) (last : ℕ) where
  pub accepted_stale : leb u.final_update_id last ≡ true → accepted last (u ∷ us) ≡ accepted last us
  unfolding accepted
  accepted_stale h = ground arith

  pub beyond_gap_stale :
      leb u.final_update_id last ≡ true → beyond_gap last (u ∷ us) ≡ beyond_gap last us
  unfolding beyond_gap
  beyond_gap_stale h = ground arith

  module _ (fresh : leb u.final_update_id last ≡ false) where
    pub accepted_broken : ltb (last + 1) u.first_update_id ≡ true → accepted last (u ∷ us) ≡ []
    unfolding accepted
    accepted_broken h = ground arith

    pub beyond_gap_broken :
        ltb (last + 1) u.first_update_id ≡ true → beyond_gap last (u ∷ us) ≡ u ∷ us
    unfolding beyond_gap
    beyond_gap_broken h = ground arith

    pub accepted_joined :
        ltb (last + 1) u.first_update_id ≡ false
        → accepted last (u ∷ us) ≡ u ∷ accepted u.final_update_id us
    unfolding accepted
    accepted_joined h = ground arith

    pub beyond_gap_joined :
        ltb (last + 1) u.first_update_id ≡ false
        → beyond_gap last (u ∷ us) ≡ beyond_gap u.final_update_id us
    unfolding beyond_gap
    beyond_gap_joined h = ground arith

pub Continuous-accepted : (us : List DepthUpdate) (last : ℕ) → Continuous last (accepted last us)
unfolding accepted
Continuous-accepted [] last = tt
Continuous-accepted (u ∷ us) last = elim (Bool-cases (leb u.final_update_id last)) [
  | inl stale ↦
      subst (Continuous last) (sym (accepted_stale u us last stale)) (Continuous-accepted us last)
  | inr fresh ↦ elim (Bool-cases (ltb (last + 1) u.first_update_id)) [
    | inl broken ↦ subst (Continuous last) (sym (accepted_broken u us last fresh broken)) tt
    | inr joined ↦
        subst (Continuous last) (sym (accepted_joined u us last fresh joined))
          (ground arith, ground arith, Continuous-accepted us u.final_update_id)
  ]
]

pub last_update_id-updated :
    (u : DepthUpdate) (b : Book) → (updated u b).last_update_id ≡ u.final_update_id
unfolding updated
last_update_id-updated u b = refl

pub apply_all-append :
    (us : List DepthUpdate) (u : DepthUpdate) (b : Book)
    → apply_all (us ++ u ∷ []) b ≡ updated u (apply_all us b)
unfolding apply_all
apply_all-append [] u b = refl
apply_all-append (v ∷ us) u b = apply_all-append us u (updated v b)

Continuous-append :
    (us : List DepthUpdate) (u : DepthUpdate) (last : ℕ) (b : Book)
    → b.last_update_id ≡ last
    → Continuous last us
    → u.first_update_id ≤ (apply_all us b).last_update_id + 1
    → (apply_all us b).last_update_id < u.final_update_id
    → Continuous last (us ++ u ∷ [])
unfolding apply_all
Continuous-append [] u last b e c h k = (omega arith, omega arith, tt)
Continuous-append (v ∷ us) u last b e c h k = (
  c.0,
  c.1,
  Continuous-append us u v.final_update_id (updated v b) (last_update_id-updated v b) c.2 h k,
)

abbrev pub Every : (DepthUpdate → Type 0) → List DepthUpdate → Type 0
Every Received [] = Unit
Every Received (u ∷ us) = Received u × Every Received us

pub accepted-Every :
    (P : DepthUpdate → Type 0) (us : List DepthUpdate) (last : ℕ)
    → Every P us
    → Every P (accepted last us)
unfolding accepted
accepted-Every P [] last e = tt
accepted-Every P (u ∷ us) last e = elim (Bool-cases (leb u.final_update_id last)) [
  | inl stale ↦
      subst (Every P) (sym (accepted_stale u us last stale)) (accepted-Every P us last e.1)
  | inr fresh ↦ elim (Bool-cases (ltb (last + 1) u.first_update_id)) [
    | inl broken ↦ subst (Every P) (sym (accepted_broken u us last fresh broken)) tt
    | inr joined ↦
        subst (Every P) (sym (accepted_joined u us last fresh joined))
          (e.0, accepted-Every P us u.final_update_id e.1)
  ]
]

pub Every-append :
    (Received : DepthUpdate → Type 0) (us : List DepthUpdate) (u : DepthUpdate)
    → Every Received us
    → Received u
    → Every Received (us ++ u ∷ [])
Every-append Received [] u e r = (r, tt)
Every-append Received (v ∷ us) u e r = (e.0, Every-append Received us u e.1 r)

pub last_update_id-loaded : (s : Snapshot) → (loaded s).last_update_id ≡ s.last_update_id
unfolding loaded
last_update_id-loaded s = refl

module _ (Received : DepthUpdate → Type 0) (Fetched : Snapshot → Type 0) where
  -- A book that is a fetched snapshot followed by received updates with none missing between.
  pub record IsReconstructed (b : Book) : Type 0 where
    pub snapshot : Snapshot
    pub events : List DepthUpdate
    pub fetched : Fetched snapshot
    pub received : Every Received events
    pub continuous : Continuous snapshot.last_update_id events
    pub rebuilt : b ≡ apply_all events (loaded snapshot)

  pub loaded-IsReconstructed : (s : Snapshot) → Fetched s → IsReconstructed (loaded s)
  unfolding apply_all
  loaded-IsReconstructed s f = record {
    snapshot = s;
    events = [];
    fetched = f;
    received = tt;
    continuous = tt;
    rebuilt = refl;
  }

  pub updated-IsReconstructed :
      (u : DepthUpdate) (b : Book)
      → Received u
      → IsReconstructed b
      → u.first_update_id ≤ b.last_update_id + 1
      → b.last_update_id < u.final_update_id
      → IsReconstructed (updated u b)
  updated-IsReconstructed u b q r h k = record {
    snapshot = r.snapshot;
    events = r.events ++ u ∷ [];
    fetched = r.fetched;
    received = Every-append Received r.events u r.received q;
    continuous =
        Continuous-append r.events u r.snapshot.last_update_id (loaded r.snapshot)
          (last_update_id-loaded r.snapshot) r.continuous (rw (← r.rebuilt) h) (rw (← r.rebuilt) k);
    rebuilt = ap (updated u) r.rebuilt ∙ sym (apply_all-append r.events u (loaded r.snapshot));
  }
