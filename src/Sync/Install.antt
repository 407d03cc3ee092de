-- ===== src/Sync/Install.antt =====
-- The branches of `DepthSynchronizer.install_snapshot` (market_engine/market_data/l2_order_book.py),
-- each in terms of the buffered stream: what it contributes after the snapshot, and where it breaks.
use market_systems_workstati.Base.{
  ℕ, ◌+◌, ◌<◌, ◌≡◌, ◌≢◌, refl, sym, subst, ◌∙◌, true, false, List, [], ◌∷◌, arith, ltb, leb,
  Bool-cases, inl, inr, ok, length,
}
use market_systems_workstati.Book.Types.{DepthUpdate, Snapshot}
use market_systems_workstati.Book.{validate, loaded, install_snapshot as install_book}
use market_systems_workstati.Sync.{
  DepthSynchronizer, SyncState, SnapshotResult, drop_stale, bridge, install_result, take_snapshot,
  install_snapshot,
}
use market_systems_workstati.Sync.Chain.{
  accepted, beyond_gap, apply_all, Validates, accepted_stale, accepted_broken, accepted_joined,
  beyond_gap_stale, beyond_gap_broken,
}
use market_systems_workstati.Sync.Bridge.{verdict, state_after, replay_pending_lem}

-- What the `while` loop leaves begins with an event beyond the snapshot, if it is not empty.
abbrev pub StartsFresh : ℕ → List DepthUpdate → Type 0
StartsFresh last [] = Unit
StartsFresh last (u ∷ us) = leb u.final_update_id last ≡ false

-- The loop drops only events that the stream would skip, and counts them.
pub record Drops (last : ℕ) (us : List DepthUpdate) (p : List DepthUpdate × ℕ) : Type 0 where
  pub same_accepted : accepted last p.0 ≡ accepted last us
  pub same_tail : beyond_gap last p.0 ≡ beyond_gap last us
  pub counted : p.1 + length p.0 ≡ length us
  pub fresh : StartsFresh last p.0

pub drop_stale-Drops : (last : ℕ) (us : List DepthUpdate) → Drops last us (drop_stale last us)
unfolding drop_stale
drop_stale-Drops last [] = record {
  same_accepted = refl;
  same_tail = refl;
  counted = omega arith;
  fresh = tt;
}
drop_stale-Drops last (u ∷ us) = elim (Bool-cases (leb u.final_update_id last)) [
  | inl stale ↦
      let d = drop_stale-Drops last us in
      rw (stale, drop_stale)
        (record {
          same_accepted = d.same_accepted ∙ sym (accepted_stale u us last stale);
          same_tail = d.same_tail ∙ sym (beyond_gap_stale u us last stale);
          counted = omega (arith, d.counted);
          fresh = d.fresh;
        })
  | inr new ↦
      rw (new, drop_stale)
        (record { same_accepted = refl; same_tail = refl; counted = omega arith; fresh = new })
]

module _ (snapshot : Snapshot) (stale : ℕ) (first : DepthUpdate) (rest : List DepthUpdate)
    (s : DepthSynchronizer) where
  bridge_too_old :
      ltb (snapshot.last_update_id + 1) first.first_update_id ≡ true
      → bridge snapshot stale (first ∷ rest) s
        ≡ (ok (install_result stale SnapshotResult.snapshot_too_old []), s)
  unfolding bridge
  bridge_too_old h = ground arith

  bridge_joined :
      leb first.final_update_id snapshot.last_update_id ≡ false
      → ltb (snapshot.last_update_id + 1) first.first_update_id ≡ false
      → 0 < s.maximum_buffered_events
      → validate (loaded snapshot) ≡ ok tt
      → Validates (accepted snapshot.last_update_id (first ∷ rest)) (loaded snapshot)
      → let tail = beyond_gap snapshot.last_update_id (first ∷ rest) in
        let done = accepted snapshot.last_update_id (first ∷ rest) in
        bridge snapshot stale (first ∷ rest) s ≡ (
          ok (install_result stale (verdict tail) done),
          record s {
            book = apply_all done (loaded snapshot);
            buffer = tail;
            state = state_after tail;
          },
        )
  unfolding bridge take_snapshot install_book loaded
  bridge_joined fresh joined m v w = ground (
    arith,
    replay_pending_lem (first ∷ rest) []
        (record s { book = loaded snapshot; state = SyncState.live; buffer = [] }) refl refl m w,
  )

cons_ne : {u : DepthUpdate} {us : List DepthUpdate} → ◌≢◌ {A = List DepthUpdate} (u ∷ us) []
cons_ne e = cc

abbrev pub dropped : Snapshot → DepthSynchronizer → ℕ
dropped snapshot s = (drop_stale snapshot.last_update_id s.buffer).1

module _ (snapshot : Snapshot) (s : DepthSynchronizer) where
  synchronizes :
      (p : List DepthUpdate × ℕ)
      → Drops snapshot.last_update_id s.buffer p
      → 0 < s.maximum_buffered_events
      → validate (loaded snapshot) ≡ ok tt
      → Validates (accepted snapshot.last_update_id s.buffer) (loaded snapshot)
      → accepted snapshot.last_update_id s.buffer ≢ []
      → let tail = beyond_gap snapshot.last_update_id s.buffer in
        let done = accepted snapshot.last_update_id s.buffer in
        bridge snapshot p.1 p.0 (record s { buffer = p.0 }) ≡ (
          ok (install_result p.1 (verdict tail) done),
          record s {
            book = apply_all done (loaded snapshot);
            buffer = tail;
            state = state_after tail;
          },
        )
  unfolding accepted
  synchronizes ([], stale) d m v w some_event = absurd (some_event (sym d.same_accepted))
  synchronizes (first ∷ rest, stale) d m v w some_event =
      elim (Bool-cases (ltb (snapshot.last_update_id + 1) first.first_update_id)) [
        | inl broken ↦
            absurd (some_event (sym d.same_accepted ∙ accepted_broken first rest _ d.fresh broken))
        | inr joined ↦
            subst
              (λ done. bridge snapshot stale (first ∷ rest) (record s { buffer = first ∷ rest }) ≡ (
                ok (
                    install_result stale (verdict (beyond_gap snapshot.last_update_id s.buffer))
                      done),
                record s {
                  book = apply_all done (loaded snapshot);
                  buffer = beyond_gap snapshot.last_update_id s.buffer;
                  state = state_after (beyond_gap snapshot.last_update_id s.buffer);
                },
              ))
              d.same_accepted
              (rw (← d.same_tail) (
                bridge_joined snapshot stale first rest (record s { buffer = first ∷ rest }) d.fresh
                  joined m v
                  (subst (λ us. Validates us (loaded snapshot)) (sym d.same_accepted) w)))
      ]

  awaits :
      (p : List DepthUpdate × ℕ)
      → Drops snapshot.last_update_id s.buffer p
      → validate (loaded snapshot) ≡ ok tt
      → accepted snapshot.last_update_id s.buffer ≡ []
      → beyond_gap snapshot.last_update_id s.buffer ≡ []
      → bridge snapshot p.1 p.0 (record s { buffer = p.0 }) ≡ (
        ok (install_result p.1 SnapshotResult.awaiting_bridge []),
        record s { book = loaded snapshot; buffer = []; state = SyncState.awaiting_snapshot },
      )
  unfolding bridge take_snapshot install_book
  awaits ([], stale) d v a t = ground arith
  awaits (first ∷ rest, stale) d v a t = ground (
    arith,
    d.same_accepted,
    d.same_tail,
    beyond_gap_broken first rest snapshot.last_update_id d.fresh,
    accepted_joined first rest snapshot.last_update_id d.fresh,
  )

  refuses :
      (p : List DepthUpdate × ℕ)
      → Drops snapshot.last_update_id s.buffer p
      → accepted snapshot.last_update_id s.buffer ≡ []
      → beyond_gap snapshot.last_update_id s.buffer ≢ []
      → bridge snapshot p.1 p.0 (record s { buffer = p.0 }) ≡ (
        ok (install_result p.1 SnapshotResult.snapshot_too_old []),
        record s { buffer = beyond_gap snapshot.last_update_id s.buffer },
      )
  unfolding bridge beyond_gap
  refuses ([], stale) d a t = absurd (t (sym d.same_tail))
  refuses (first ∷ rest, stale) d a t =
      elim (Bool-cases (ltb (snapshot.last_update_id + 1) first.first_update_id)) [
        | inl broken ↦
            rw (← d.same_tail, beyond_gap_broken first rest snapshot.last_update_id d.fresh broken)
              (bridge_too_old snapshot stale first rest (record s { buffer = first ∷ rest }) broken)
        | inr joined ↦
            absurd
              (cons_ne (sym (accepted_joined first rest _ d.fresh joined) ∙ d.same_accepted ∙ a))
      ]

  -- If the buffer has room for an event, some buffered events bridge to the snapshot, and the book passes its
  -- validation with the snapshot and again after each of those events, then the book is the snapshot with
  -- exactly the accepted events applied, the events from the first gap on stay buffered, and the result and the
  -- state say whether there was a gap.
  pub install_snapshot_bridged :
      0 < s.maximum_buffered_events
      → validate (loaded snapshot) ≡ ok tt
      → Validates (accepted snapshot.last_update_id s.buffer) (loaded snapshot)
      → accepted snapshot.last_update_id s.buffer ≢ []
      → let tail = beyond_gap snapshot.last_update_id s.buffer in
        let done = accepted snapshot.last_update_id s.buffer in
        install_snapshot snapshot s ≡ (
          ok (install_result (dropped snapshot s) (verdict tail) done),
          record s {
            book = apply_all done (loaded snapshot);
            buffer = tail;
            state = state_after tail;
          },
        )
  unfolding install_snapshot
  install_snapshot_bridged = synchronizes _ (drop_stale-Drops snapshot.last_update_id s.buffer)

  -- If nothing buffered goes beyond the snapshot, and the book that it loads passes its validation, then the
  -- snapshot is installed, the buffer is empty and the synchronizer awaits the bridge.
  pub install_snapshot_awaiting :
      validate (loaded snapshot) ≡ ok tt
      → accepted snapshot.last_update_id s.buffer ≡ []
      → beyond_gap snapshot.last_update_id s.buffer ≡ []
      → install_snapshot snapshot s ≡ (
        ok (install_result (dropped snapshot s) SnapshotResult.awaiting_bridge []),
        record s { book = loaded snapshot; buffer = []; state = SyncState.awaiting_snapshot },
      )
  unfolding install_snapshot
  install_snapshot_awaiting = awaits _ (drop_stale-Drops snapshot.last_update_id s.buffer)

  -- The stream breaks off before the snapshot's next ID: the book and the state stay as they were, and
  -- only stale events leave the buffer.
  pub install_snapshot_too_old :
      accepted snapshot.last_update_id s.buffer ≡ []
      → beyond_gap snapshot.last_update_id s.buffer ≢ []
      → install_snapshot snapshot s ≡ (
        ok (install_result (dropped snapshot s) SnapshotResult.snapshot_too_old []),
        record s { buffer = beyond_gap snapshot.last_update_id s.buffer },
      )
  unfolding install_snapshot
  install_snapshot_too_old = refuses _ (drop_stale-Drops snapshot.last_update_id s.buffer)
