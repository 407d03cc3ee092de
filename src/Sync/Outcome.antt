-- ===== src/Sync/Outcome.antt =====
-- Every outcome of `DepthSynchronizer.install_snapshot` (market_engine/market_data/l2_order_book.py):
-- a raise, or one of the branches of Sync/Install.
use market_systems_workstati.Base.{
  ℕ, ◌+◌, ◌<◌, ◌≡◌, ◌≢◌, ◌⊎◌, refl, ap, sym, subst, ◌∙◌, List, [], ◌∷◌, ◌++◌, arith, ltb, leb,
  Bool-cases, Result-cases, inl, inr, Result, ok, err, Error,
}
use market_systems_workstati.Book.Types.{DepthUpdate, Snapshot}
use market_systems_workstati.Book.{validate, loaded, updated, install_snapshot as install_book}
use market_systems_workstati.Sync.{
  DepthSynchronizer, SyncState, SnapshotResult, replay_pending, bridge, install_result,
  take_snapshot, install_snapshot,
}
use market_systems_workstati.Sync.Chain.{
  accepted, beyond_gap, apply_all, Validates, accepted_stale, accepted_broken, accepted_joined,
  beyond_gap_broken,
}
use market_systems_workstati.Sync.Bridge.{
  verdict, state_after, replay_stale, replay_joined, replay_crossed,
}
use market_systems_workstati.Sync.Install.{
  Drops, drop_stale-Drops, dropped, install_snapshot_bridged, install_snapshot_awaiting,
  install_snapshot_too_old,
}

abbrev Raises {ℓ} : {A : Type ℓ} → Result A → Type ℓ
Raises r = (e : Error) × (r ≡ err e)

cons_ne : {u : DepthUpdate} {us : List DepthUpdate} → ◌≢◌ {A = List DepthUpdate} (u ∷ us) []
cons_ne e = cc

nil_cases : (us : List DepthUpdate) → (us ≡ []) ⊎ (us ≢ [])
nil_cases [] = inl refl
nil_cases (u ∷ us) = inr cons_ne

-- The accepted events keep the book valid, or the loop raises.
replay_valid :
    (us done : List DepthUpdate) (s : DepthSynchronizer)
    → Validates (accepted s.book.last_update_id us) s.book ⊎ Raises (replay_pending us done s).0
unfolding accepted updated
replay_valid [] done s = inl tt
replay_valid (u ∷ us) done s = elim (Bool-cases (leb u.final_update_id s.book.last_update_id)) [
  | inl stale ↦ elim (replay_valid us done s) [
    | inl v ↦ inl (subst (λ w. Validates w s.book) (sym (accepted_stale u us _ stale)) v)
    | inr (e, r) ↦ inr (e, ap (λ m. m.0) (replay_stale u us done s stale) ∙ r)
  ]
  | inr fresh ↦ elim (Bool-cases (ltb (s.book.last_update_id + 1) u.first_update_id)) [
    | inl broken ↦
        inl (subst (λ w. Validates w s.book) (sym (accepted_broken u us _ fresh broken)) tt)
    | inr joined ↦ elim (Result-cases (validate (updated u s.book))) [
      | inr (e, crossed) ↦ inr (e, ap (λ m. m.0) (replay_crossed u us done s fresh joined crossed))
      | inl (tt, fine) ↦
          elim (replay_valid us (done ++ u ∷ [])
            (record s { book = updated u s.book; state = SyncState.live })) [
              | inl v ↦ inl (
                  subst (λ w. Validates w s.book) (sym (accepted_joined u us _ fresh joined))
                    (fine, v))
              | inr (e, r) ↦
                  inr (e, ap (λ m. m.0) (replay_joined u us done s fresh joined fine) ∙ r)
            ]
    ]
  ]
]

module _ (snapshot : Snapshot) (s : DepthSynchronizer) where
  abbrev pub contributed : List DepthUpdate
  contributed = accepted snapshot.last_update_id s.buffer

  abbrev pub left_over : List DepthUpdate
  left_over = beyond_gap snapshot.last_update_id s.buffer

  pub data Outcome : Type 0 where
    raised : (e : Error) → (install_snapshot snapshot s).0 ≡ err e → Outcome
    bridged :
        validate (loaded snapshot) ≡ ok tt
        → Validates contributed (loaded snapshot)
        → install_snapshot snapshot s ≡ (
          ok (install_result (dropped snapshot s) (verdict left_over) contributed),
          record s {
            book = apply_all contributed (loaded snapshot);
            buffer = left_over;
            state = state_after left_over;
          },
        )
        → Outcome
    awaiting :
        install_snapshot snapshot s ≡ (
          ok (install_result (dropped snapshot s) SnapshotResult.awaiting_bridge []),
          record s { book = loaded snapshot; buffer = []; state = SyncState.awaiting_snapshot },
        )
        → Outcome
    too_old :
        install_snapshot snapshot s ≡ (
          ok (install_result (dropped snapshot s) SnapshotResult.snapshot_too_old []),
          record s { buffer = left_over },
        )
        → Outcome

  bridge-Raises :
      (p : List DepthUpdate × ℕ) (e : Error)
      → Drops snapshot.last_update_id s.buffer p
      → validate (loaded snapshot) ≡ err e
      → left_over ≡ [] ⊎ contributed ≢ []
      → Raises (bridge snapshot p.1 p.0 (record s { buffer = p.0 })).0
  unfolding bridge take_snapshot install_book
  bridge-Raises ([], stale) e d v some_event = (e, ground (arith, v))
  bridge-Raises (first ∷ rest, stale) e d v some_event =
      elim (Bool-cases (ltb (snapshot.last_update_id + 1) first.first_update_id)) [
        | inr joined ↦ (e, ground (arith, v, d.fresh, joined))
        | inl broken ↦ elim some_event [
          | inl none_left ↦ absurd (
              cons_ne
                (sym (beyond_gap_broken first rest _ d.fresh broken) ∙ d.same_tail ∙ none_left))
          | inr some_done ↦
              absurd (some_done (sym d.same_accepted ∙ accepted_broken first rest _ d.fresh broken))
        ]
      ]

  replay-Raises :
      (p : List DepthUpdate × ℕ)
      → Drops snapshot.last_update_id s.buffer p
      → contributed ≢ []
      → validate (loaded snapshot) ≡ ok tt
      → Validates contributed (loaded snapshot)
        ⊎ Raises (bridge snapshot p.1 p.0 (record s { buffer = p.0 })).0
  unfolding bridge take_snapshot install_book loaded accepted
  replay-Raises ([], stale) d some_done v = absurd (some_done (sym d.same_accepted))
  replay-Raises (first ∷ rest, stale) d some_done v =
      elim (Bool-cases (ltb (snapshot.last_update_id + 1) first.first_update_id)) [
        | inl broken ↦
            absurd (some_done (sym d.same_accepted ∙ accepted_broken first rest _ d.fresh broken))
        | inr joined ↦
            elim (replay_valid (first ∷ rest) []
              (record s { book = loaded snapshot; state = SyncState.live; buffer = [] })) [
                | inl w ↦ inl (subst (λ us. Validates us (loaded snapshot)) d.same_accepted w)
                | inr (e, r) ↦ inr (e, ground (arith, v, d.fresh, joined, r))
              ]
      ]

  pub install_snapshot_cases : 0 < s.maximum_buffered_events → Outcome
  unfolding install_snapshot
  install_snapshot_cases m =
      let d = drop_stale-Drops snapshot.last_update_id s.buffer in
      elim (nil_cases contributed) [
        | inr some_done ↦ elim (Result-cases (validate (loaded snapshot))) [
          | inr (e, bad) ↦
              let (x, r) = bridge-Raises _ e d bad (inr some_done) in Outcome.raised x r
          | inl (tt, fine) ↦ elim (replay-Raises _ d some_done fine) [
            | inr (x, r) ↦ Outcome.raised x r
            | inl v ↦
                Outcome.bridged fine v (install_snapshot_bridged snapshot s m fine v some_done)
          ]
        ]
        | inl none_done ↦ elim (nil_cases left_over) [
          | inr some_left ↦
              Outcome.too_old (install_snapshot_too_old snapshot s none_done some_left)
          | inl none_left ↦ elim (Result-cases (validate (loaded snapshot))) [
            | inr (e, bad) ↦
                let (x, r) = bridge-Raises _ e d bad (inl none_left) in Outcome.raised x r
            | inl (tt, fine) ↦
                Outcome.awaiting (install_snapshot_awaiting snapshot s fine none_done none_left)
          ]
        ]
      ]
