-- ===== src/Sync/Bridge.antt =====
-- `DepthSynchronizer.install_snapshot` (market_engine/market_data/l2_order_book.py) against the
-- continuity of Sync/Chain.
use market_systems_workstati.Base.{
  ◌+◌, ◌<◌, ◌≡◌, refl, subst, ◌∙◌, true, false, List, [], ◌∷◌, ◌++◌, arith, ltb, leb, Bool-cases,
  inl, inr, ok, err, Error, if◌then◌else◌,
}
use mathlib.Core.List.{append_assoc, append-nil}
use market_systems_workstati.Book.Types.{DepthUpdate}
use market_systems_workstati.Book.{updated, validate, is_empty}
use market_systems_workstati.Sync.{DepthSynchronizer, SyncState, SnapshotResult, replay_pending}
use market_systems_workstati.Sync.Chain.{
  accepted, beyond_gap, apply_all, Validates, accepted_stale, accepted_broken, accepted_joined,
  beyond_gap_stale, beyond_gap_broken, beyond_gap_joined,
}
use market_systems_workstati.Sync.Live.{
  apply_live_stale, apply_live_gap, apply_live_applied, apply_live_crossed,
}

-- What the loop over the pending events leaves, in terms of the stream alone.
abbrev pub verdict : List DepthUpdate → SnapshotResult
verdict tail = if is_empty tail then SnapshotResult.synchronized else SnapshotResult.gap_detected

abbrev pub state_after : List DepthUpdate → SyncState
state_after tail = if is_empty tail then SyncState.live else SyncState.gap

abbrev pub replayed : List DepthUpdate → DepthSynchronizer → DepthSynchronizer
replayed us s = record s {
  book = apply_all (accepted s.book.last_update_id us) s.book;
  buffer = beyond_gap s.book.last_update_id us;
  state = state_after (beyond_gap s.book.last_update_id us);
}

replay_none :
    (done : List DepthUpdate) (s : DepthSynchronizer)
    → s.state ≡ SyncState.live
    → s.buffer ≡ []
    → replay_pending [] done s ≡ (
      ok (verdict (beyond_gap s.book.last_update_id []), done ++ accepted s.book.last_update_id []),
      replayed [] s,
    )
unfolding replay_pending accepted beyond_gap apply_all
replay_none done s l e = ground (arith, append-nil done)

module _ (u : DepthUpdate) (us done : List DepthUpdate) (s : DepthSynchronizer) where
  pub replay_stale :
      leb u.final_update_id s.book.last_update_id ≡ true
      → replay_pending (u ∷ us) done s ≡ replay_pending us done s
  unfolding replay_pending
  replay_stale h = rw (apply_live_stale u s h, replay_pending, apply_live_stale u s h)

  module _ (fresh : leb u.final_update_id s.book.last_update_id ≡ false) where
    pub replay_broken :
        ltb (s.book.last_update_id + 1) u.first_update_id ≡ true
        → s.buffer ≡ []
        → 0 < s.maximum_buffered_events
        → replay_pending (u ∷ us) done s ≡ (
          ok (SnapshotResult.gap_detected, done),
          record s { state = SyncState.gap; buffer = u ∷ us },
        )
    unfolding replay_pending
    replay_broken h e m =
        rw (apply_live_gap u s fresh h e m, replay_pending, apply_live_gap u s fresh h e m)

    pub replay_joined :
        ltb (s.book.last_update_id + 1) u.first_update_id ≡ false
        → validate (updated u s.book) ≡ ok tt
        → replay_pending (u ∷ us) done s
          ≡ replay_pending us
              (done ++ u ∷ [])
              (record s { book = updated u s.book; state = SyncState.live })
    unfolding replay_pending
    replay_joined h v =
        rw (apply_live_applied u s fresh h v, replay_pending, apply_live_applied u s fresh h v)

  pub replay_crossed :
      {e : Error}
      → leb u.final_update_id s.book.last_update_id ≡ false
      → ltb (s.book.last_update_id + 1) u.first_update_id ≡ false
      → validate (updated u s.book) ≡ err e
      → replay_pending (u ∷ us) done s ≡ (err e, record s { book = updated u s.book })
  unfolding replay_pending
  replay_crossed fresh h v =
      rw (apply_live_crossed u s fresh h v, replay_pending, apply_live_crossed u s fresh h v)

replay_next :
    (u : DepthUpdate) (us done : List DepthUpdate) (s : DepthSynchronizer)
    → leb u.final_update_id s.book.last_update_id ≡ false
    → ltb (s.book.last_update_id + 1) u.first_update_id ≡ false
    → validate (updated u s.book) ≡ ok tt
    → let s' = record s { book = updated u s.book; state = SyncState.live } in
      replay_pending us (done ++ u ∷ []) s' ≡ (
        ok (
          verdict (beyond_gap u.final_update_id us),
          (done ++ u ∷ []) ++ accepted u.final_update_id us,
        ),
        replayed us s',
      )
      → replay_pending (u ∷ us) done s ≡ (
        ok (
          verdict (beyond_gap s.book.last_update_id (u ∷ us)),
          done ++ accepted s.book.last_update_id (u ∷ us),
        ),
        replayed (u ∷ us) s,
      )
unfolding apply_all updated
replay_next u us done s fresh joined v ih =
    replay_joined u us done s fresh joined v
    ∙ ih
    ∙ rw (
      accepted_joined u us s.book.last_update_id fresh joined,
      beyond_gap_joined u us s.book.last_update_id fresh joined,
      append_assoc done (u ∷ []) (accepted u.final_update_id us),
    )

-- From a live state with an empty buffer, the loop applies the accepted events and keeps the rest.
pub replay_pending_lem :
    (us done : List DepthUpdate) (s : DepthSynchronizer)
    → s.state ≡ SyncState.live
    → s.buffer ≡ []
    → 0 < s.maximum_buffered_events
    → Validates (accepted s.book.last_update_id us) s.book
    → replay_pending us done s ≡ (
      ok (verdict (beyond_gap s.book.last_update_id us), done ++ accepted s.book.last_update_id us),
      replayed us s,
    )
unfolding updated apply_all
replay_pending_lem [] done s l e m v = replay_none done s l e
replay_pending_lem (u ∷ us) done s l e m v =
    elim (Bool-cases (leb u.final_update_id s.book.last_update_id)) [
      | inl stale ↦ rw (
        replay_stale u us done s stale,
        replay_pending_lem us done s l e m
            (subst (λ w. Validates w s.book) (accepted_stale u us _ stale) v),
        accepted_stale u us s.book.last_update_id stale,
        beyond_gap_stale u us s.book.last_update_id stale,
      )
      | inr fresh ↦ elim (Bool-cases (ltb (s.book.last_update_id + 1) u.first_update_id)) [
        | inl broken ↦ rw (
          replay_broken u us done s fresh broken e m,
          accepted_broken u us s.book.last_update_id fresh broken,
          beyond_gap_broken u us s.book.last_update_id fresh broken,
          append-nil done,
        )
        | inr joined ↦
            replay_next u us done s fresh joined
              (subst (λ w. Validates w s.book) (accepted_joined u us _ fresh joined) v).0
              (replay_pending_lem us (done ++ u ∷ [])
                (record s { book = updated u s.book; state = SyncState.live }) refl e m
                (subst (λ w. Validates w s.book) (accepted_joined u us _ fresh joined) v).1)
      ]
    ]
