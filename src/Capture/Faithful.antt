-- ===== src/Capture/Faithful.antt =====
-- Every history of a `SymbolCapture` (market_engine/market_data/l2_capture.py), read back by
-- `iter_events` (market_engine/recording/l2.py) and replayed (market_engine/cli/verify_l2_replay.py).
use market_systems_workstati.Base.{
  ℕ, ◌+◌, ◌≡◌, ◌≢◌, ◌⊎◌, refl, ap, sym, subst, ◌∙◌, Bool, true, false, none, List, ok, err, Result,
  Post, then_do, then_do-Post, Post-weaker, Result-cases, Bool-cases, inl, inr, ltb, leb,
}
use market_systems_workstati.Base.Int.{ℤ, pos}
use market_systems_workstati.Book.Types.{DepthUpdate, Snapshot, Trade}
use market_systems_workstati.Book.{Book, empty_book, updated, validate}
use market_systems_workstati.Recording.Event.{L2Event, BoundaryReason}
use market_systems_workstati.Sync.{
  DepthSynchronizer, SyncState, ApplyResult, reset, ingest, buffer_event,
}
use market_systems_workstati.Sync.Live.{
  apply_live_stale, apply_live_gap, apply_live_applied, apply_live_crossed, ingest_live,
  ingest_waiting,
}
use market_systems_workstati.Sync.Soundness.{ingest-IsSound, buffer_event-kept}
use market_systems_workstati.Sync.Session.{reset-IsSound}
use market_systems_workstati.Replay.Steps.{trade-Rebuilds}
use market_systems_workstati.Capture.{
  SymbolCapture, write_event, write_boundary, synchronize, ignore, record_applied, after_ingest,
  ingest_update, on_depth, on_trade_in, connection_boundary, connection_reason,
}
use market_systems_workstati.Capture.Contract.{
  IsConstructed, Recorded, Wrote, write_event-Wrote, write_boundary-Wrote,
}
use market_systems_workstati.Capture.Applied.{Received, Fetched, record_applied-Wrote}
use market_systems_workstati.Capture.Synchronizing.{synchronize-Faithful}
use market_systems_workstati.Capture.Installing.{
  IsFaithful, IsPending, Sound, idle-IsFaithful, reset_idle,
}

live_cases : (st : SyncState) → (st ≡ SyncState.live) ⊎ (st ≢ SyncState.live)
live_cases SyncState.live = inl refl
live_cases SyncState.awaiting_snapshot = inr (λ h. cc)
live_cases SyncState.gap = inr (λ h. cc)

-- `on_depth` once the synchronizer has its answer.
on_depth_after :
    (crc32 : List ℕ → ℕ) (monotonic_ns : ℕ → ℤ) (fetcher : ℕ → Result Snapshot) (u : DepthUpdate)
    (c : SymbolCapture) (m : Result ApplyResult × DepthSynchronizer)
    → ingest u c.synchronizer ≡ m
    → on_depth crc32 monotonic_ns fetcher u c
      ≡ then_do (m.0, record c { synchronizer = m.1 }) (after_ingest crc32 monotonic_ns fetcher u)
unfolding on_depth ingest_update
on_depth_after crc32 monotonic_ns fetcher u c m h =
    ap
      (λ m.
        then_do (m.0, record c { synchronizer = m.1 }) (after_ingest crc32 monotonic_ns fetcher u))
      h

module _ (crc32 : List ℕ → ℕ) where
  done_Faithful :
      (m : Result Bool × SymbolCapture)
      → Post (λ a c. IsFaithful crc32 c) m
      → Post (λ a c. IsFaithful crc32 c) (ignore m)
  done_Faithful (ok a, c) h = h
  done_Faithful (err e, c) h = tt

  pub connection_boundary-Faithful :
      (receipt : ℤ) (connected : Bool) (c : SymbolCapture)
      → IsFaithful crc32 c
      → Post (λ a d. IsFaithful crc32 d) (connection_boundary crc32 receipt connected c)
  unfolding connection_boundary
  connection_boundary-Faithful receipt connected c f =
      then_do-Post (λ n d. Wrote crc32 empty_book c d) (λ a d. IsFaithful crc32 d)
        (write_boundary crc32 receipt (connection_reason connected) c) _
        (write_boundary-Wrote crc32 receipt (connection_reason connected) c f.book f.recorded)
        (λ n d w.
          idle-IsFaithful crc32
            (record d { synchronizer = reset false d.synchronizer; pending_snapshot = none })
            empty_book
            (reset-IsSound Received Fetched false d.synchronizer
              (subst Sound (sym w.same_synchronizer) f.sound))
            tt (reset_idle crc32 false d.synchronizer) w.recorded)

  -- A capture that wrote something that leaves the book as it is.
  Wrote-IsFaithful :
      (c d : SymbolCapture) → (f : IsFaithful crc32 c) → Wrote crc32 f.book c d → IsFaithful crc32 d
  Wrote-IsFaithful c d f w = record {
    sound = subst Sound (sym w.same_synchronizer) f.sound;
    pending = subst IsPending (sym w.same_pending) f.pending;
    book = f.book;
    recorded = w.recorded;
    in_step = λ l.
        f.in_step (sym (ap (λ z. z.state) w.same_synchronizer) ∙ l)
        ∙ sym (ap (λ z. z.book) w.same_synchronizer);
  }

  discarded-IsFaithful :
      (c : SymbolCapture)
      → IsFaithful crc32 c
      → IsFaithful crc32
          (record c { discarded_pre_snapshot_trades = c.discarded_pre_snapshot_trades + 1 })
  discarded-IsFaithful c f = record {
    sound = f.sound;
    pending = f.pending;
    book = f.book;
    recorded = f.recorded;
    in_step = f.in_step;
  }

  pub on_trade_in-Faithful :
      (st : SyncState) (t : Trade) (c : SymbolCapture)
      → IsConstructed (L2Event.trade t)
      → IsFaithful crc32 c
      → Post (λ a d. IsFaithful crc32 d) (on_trade_in crc32 st t c)
  unfolding on_trade_in
  on_trade_in-Faithful SyncState.live t c q f =
      then_do-Post (λ n d. Wrote crc32 f.book c d) (λ a d. IsFaithful crc32 d)
        (write_event crc32 (L2Event.trade t) c) _
        (write_event-Wrote crc32 (L2Event.trade t) c f.book f.book q f.recorded
          (λ es h. trade-Rebuilds es f.book h t))
        (λ n d w. Wrote-IsFaithful c d f w)
  on_trade_in-Faithful SyncState.awaiting_snapshot t c q f = discarded-IsFaithful c f
  on_trade_in-Faithful SyncState.gap t c q f = discarded-IsFaithful c f

  module _ (monotonic_ns : ℕ → ℤ) (fetcher : ℕ → Result Snapshot)
      (constructed : (n : ℕ) (s : Snapshot) → fetcher n ≡ ok s → Fetched s) where
    synchronized-Faithful :
        (c : SymbolCapture)
        → IsFaithful crc32 c
        → c.synchronizer.state ≢ SyncState.live
        → Post (λ a d. IsFaithful crc32 d) (ignore (synchronize crc32 monotonic_ns fetcher c))
    synchronized-Faithful c f n =
        done_Faithful _ (synchronize-Faithful crc32 monotonic_ns fetcher constructed c f n)

    after_gap-Faithful :
        (u : DepthUpdate) (c : SymbolCapture) (b : Book)
        → Sound c.synchronizer
        → Recorded crc32 c.writer.stream b
        → Post
            (λ a d. IsFaithful crc32 d)
            (after_ingest crc32 monotonic_ns fetcher u ApplyResult.gap_detected c)
    unfolding after_ingest
    after_gap-Faithful u c b s r =
        then_do-Post (λ n d. Wrote crc32 empty_book c' d) (λ a d. IsFaithful crc32 d)
          (write_boundary crc32 (pos u.receipt_timestamp_ns) BoundaryReason.sequence_gap c') _
          (write_boundary-Wrote crc32 (pos u.receipt_timestamp_ns) BoundaryReason.sequence_gap c' b
            r)
          (λ n d w.
            synchronized-Faithful (restarted d)
              (idle-IsFaithful crc32 (restarted d) empty_book
                (reset-IsSound Received Fetched true d.synchronizer
                  (subst Sound (sym w.same_synchronizer) s))
                tt (reset_idle crc32 true d.synchronizer) w.recorded)
              (reset_idle crc32 true d.synchronizer))
      where
        c' : SymbolCapture
        c' = record c { sequence_gaps = c.sequence_gaps + 1 }

        restarted : SymbolCapture → SymbolCapture
        restarted d = record d { synchronizer = reset true d.synchronizer; pending_snapshot = none }

    applied-Faithful :
        (u : DepthUpdate) (c : SymbolCapture) (s : DepthSynchronizer) (b : Book)
        → Received u
        → Sound s
        → s.book ≡ updated u b
        → IsPending c.pending_snapshot
        → Recorded crc32 c.writer.stream b
        → leb u.final_update_id b.last_update_id ≡ false
        → ltb (b.last_update_id + 1) u.first_update_id ≡ false
        → validate (updated u b) ≡ ok tt
        → Post
            (λ a d. IsFaithful crc32 d)
            (after_ingest crc32 monotonic_ns fetcher u ApplyResult.applied
              (record c { synchronizer = s }))
    unfolding after_ingest
    applied-Faithful u c s b q i same p r fresh joined v =
        Post-weaker (λ n d. Wrote crc32 (updated u b) (record c { synchronizer = s }) d)
          (λ a d. IsFaithful crc32 d) (record_applied crc32 u (record c { synchronizer = s }))
          (λ n d w. record {
            sound = subst Sound (sym w.same_synchronizer) i;
            pending = subst IsPending (sym w.same_pending) p;
            book = updated u b;
            recorded = w.recorded;
            in_step = λ l. sym (ap (λ z. z.book) w.same_synchronizer ∙ same);
          })
          (record_applied-Wrote crc32 u (record c { synchronizer = s }) b q r fresh joined v)

    on_depth_live :
        (u : DepthUpdate) (c : SymbolCapture)
        → Received u
        → IsFaithful crc32 c
        → c.synchronizer.state ≡ SyncState.live
        → Post (λ a d. IsFaithful crc32 d) (on_depth crc32 monotonic_ns fetcher u c)
    unfolding after_ingest
    on_depth_live u c q f l =
        let s = c.synchronizer in
        let live = ingest_live u s l in
        let sound = ingest-IsSound Received Fetched u s q f.sound in
        elim (Bool-cases (leb u.final_update_id s.book.last_update_id)) [
          | inl stale ↦ by_result _ (live ∙ apply_live_stale u s stale) f
          | inr fresh ↦ elim (Bool-cases (ltb (s.book.last_update_id + 1) u.first_update_id)) [
            | inl broken ↦
                let answer =
                  live ∙ apply_live_gap u s fresh broken (f.sound.drained l) f.sound.capacity in
                by_result _ answer (
                  after_gap-Faithful u (record c { synchronizer = _ }) f.book
                    (subst (λ m. Sound m.1) answer sound) f.recorded)
            | inr joined ↦ elim (Result-cases (validate (updated u s.book))) [
              | inr (e, crossed) ↦
                  by_result _ (live ∙ apply_live_crossed u s fresh joined crossed) tt
              | inl (tt, fine) ↦
                  let answer = live ∙ apply_live_applied u s fresh joined fine in
                  by_result _ answer (
                    applied-Faithful u c _ s.book q (subst (λ m. Sound m.1) answer sound) refl
                      f.pending (subst (Recorded crc32 c.writer.stream) (f.in_step l) f.recorded)
                      fresh joined fine)
            ]
          ]
        ]
      where
        by_result :
            (m : Result ApplyResult × DepthSynchronizer)
            → ingest u c.synchronizer ≡ m
            → Post
                (λ a d. IsFaithful crc32 d)
                (then_do
                  (m.0, record c { synchronizer = m.1 })
                  (after_ingest crc32 monotonic_ns fetcher u))
            → Post (λ a d. IsFaithful crc32 d) (on_depth crc32 monotonic_ns fetcher u c)
        by_result m answer h =
            subst (Post (λ a d. IsFaithful crc32 d))
              (sym (on_depth_after crc32 monotonic_ns fetcher u c m answer)) h

    on_depth_waiting :
        (u : DepthUpdate) (c : SymbolCapture)
        → Received u
        → IsFaithful crc32 c
        → c.synchronizer.state ≢ SyncState.live
        → Post (λ a d. IsFaithful crc32 d) (on_depth crc32 monotonic_ns fetcher u c)
    unfolding after_ingest
    on_depth_waiting u c q f n =
        subst (Post (λ a d. IsFaithful crc32 d))
          (sym (on_depth_after crc32 monotonic_ns fetcher u c _ waiting))
          (buffered (buffer_event u c.synchronizer) still (
            subst (λ m. Sound m.1) waiting
              (ingest-IsSound Received Fetched u c.synchronizer q f.sound)))
      where
        waiting :
            ingest u c.synchronizer
            ≡ then_do (buffer_event u c.synchronizer) (λ _ s'. (ok ApplyResult.buffered, s'))
        waiting = ingest_waiting u c.synchronizer n

        still : (buffer_event u c.synchronizer).1.state ≢ SyncState.live
        still l = n ((buffer_event-kept u c.synchronizer).2 l)

        buffered :
            (m : Result (Unit {0}) × DepthSynchronizer)
            → m.1.state ≢ SyncState.live
            → Sound (then_do m (λ _ s'. (ok ApplyResult.buffered, s'))).1
            → let r = then_do m (λ _ s'. (ok ApplyResult.buffered, s')) in
              Post
                (λ a d. IsFaithful crc32 d)
                (then_do
                  (r.0, record c { synchronizer = r.1 })
                  (after_ingest crc32 monotonic_ns fetcher u))
        buffered (err e, s) k i = tt
        buffered (ok a, s) k i =
            synchronized-Faithful (record c { synchronizer = s })
              (idle-IsFaithful crc32 (record c { synchronizer = s }) f.book i f.pending k
                f.recorded)
              k

    pub on_depth-Faithful :
        (u : DepthUpdate) (c : SymbolCapture)
        → Received u
        → IsFaithful crc32 c
        → Post (λ a d. IsFaithful crc32 d) (on_depth crc32 monotonic_ns fetcher u c)
    on_depth-Faithful u c q f = elim (live_cases c.synchronizer.state) [
      | inl live ↦ on_depth_live u c q f live
      | inr waiting ↦ on_depth_waiting u c q f waiting
    ]
