-- ===== src/Capture.antt =====
-- market_engine/market_data/l2_capture.py: `class SymbolCapture`, and what `capture` does with the items
-- of its queue and at its end.
pub mod Contract
pub mod Applied
pub mod Installing
pub mod Synchronizing
pub mod Faithful
pub mod Session
pub mod Stopping
pub mod Finalizing
pub mod Queue
pub mod Backoff
pub mod Ending
pub mod Running
use market_systems_workstati.Base.{
  ℕ, zero, suc, ◌+◌, Bool, true, false, Option, none, some, List, [], ◌∷◌, ltb, leb, ◌==◌, nat_eq,
  if◌then◌else◌, Result, ok, err, Error, Action, then_do,
}
use market_systems_workstati.Base.Int.{ℤ, pos, pos_part, leb_ℤ}
use market_systems_workstati.Book.Types.{Snapshot, DepthUpdate, Trade}
use market_systems_workstati.Book.{state_hash, is_empty}
use market_systems_workstati.Sync.{
  DepthSynchronizer, SyncState, ApplyResult, SnapshotResult, SnapshotInstallResult, reset, ingest,
  install_snapshot,
}
use market_systems_workstati.Recording.Event.{L2Event, Boundary, BoundaryReason, make_boundary}
use market_systems_workstati.Recording.Writer.{Writer, write, write_checkpoint}

-- A `SymbolCapture`, with the number of its calls of the clock and of the fetcher so far.
pub record SymbolCapture : Type 0 where
  pub symbol : List ℕ
  pub writer : Writer
  pub synchronizer : DepthSynchronizer
  pub sequence_gaps : ℕ
  pub snapshot_retries : ℕ
  pub discarded_pre_snapshot_trades : ℕ
  pub depth_since_checkpoint : ℕ
  pub pending_snapshot : Option Snapshot
  pub snapshot_attempt_limit : ℕ
  pub clock_calls : ℕ
  pub fetch_calls : ℕ

-- `SymbolCapture(symbol, writer, ...)`; the symbol is given in upper case.
unfoldable pub make_capture : List ℕ → Writer → DepthSynchronizer → ℤ → Result SymbolCapture
make_capture symbol writer synchronizer limit =
    if is_empty symbol
    then err Error.empty_symbol
    else if leb_ℤ limit (pos 0)
    then err Error.bad_attempt_limit
    else ok (record {
      symbol = symbol;
      writer = writer;
      synchronizer = synchronizer;
      sequence_gaps = 0;
      snapshot_retries = 0;
      discarded_pre_snapshot_trades = 0;
      depth_since_checkpoint = 0;
      pending_snapshot = none;
      snapshot_attempt_limit = pos_part limit;
      clock_calls = 0;
      fetch_calls = 0;
    })

abbrev pub Step : Type 0 → Type 0
Step A = Action SymbolCapture A

abbrev pub connection_reason : Bool → BoundaryReason
connection_reason connected =
    if connected then BoundaryReason.connection_start else BoundaryReason.connection_end

-- `self.writer.write_checkpoint(book.last_update_id, book.state_hash())`
unfoldable pub write_state : Step (Unit {0})
unfolding write_checkpoint
write_state c =
    let (r, w) =
      write_checkpoint (pos c.synchronizer.book.last_update_id)
        (pos (state_hash c.synchronizer.book)) c.writer in
    (r, record c { writer = w })

-- The end of `_record_applied`.
unfoldable pub write_due_checkpoint : Step (Unit {0})
unfolding write_state
write_due_checkpoint c =
    if leb c.writer.checkpoint_interval c.depth_since_checkpoint
    then then_do (write_state c) (λ _ c'. (ok tt, record c' { depth_since_checkpoint = 0 }))
    else (ok tt, c)

-- `self.synchronizer.install_snapshot(snapshot)`
unfoldable pub install_synchronizer : Snapshot → Step SnapshotInstallResult
unfolding install_snapshot
install_synchronizer snapshot c =
    let (r, s) = install_snapshot snapshot c.synchronizer in (r, record c { synchronizer = s })

-- `self.synchronizer.ingest(update)`
unfoldable pub ingest_update : DepthUpdate → Step ApplyResult
unfolding ingest
ingest_update u c = let (r, s) = ingest u c.synchronizer in (r, record c { synchronizer = s })

-- What `synchronize` does with the result of `_install_snapshot`.
abbrev pub unless_settled : Step Bool → SnapshotResult → Step Bool
unless_settled others SnapshotResult.synchronized c = (ok true, c)
unless_settled others SnapshotResult.awaiting_bridge c = (ok false, c)
unless_settled others SnapshotResult.snapshot_too_old c = others c
unless_settled others SnapshotResult.gap_detected c = others c

abbrev pub ignore : Result Bool × SymbolCapture → Result (Unit {0}) × SymbolCapture
ignore m = then_do m (λ _ c. (ok tt, c))

unfoldable pub write_last_state : Step (ℕ × ℕ)
unfolding write_state
write_last_state c =
    let id = c.synchronizer.book.last_update_id in
    if ltb 0 id
    then then_do (write_state c) (λ _ c'. (ok (id, state_hash c.synchronizer.book), c'))
    else (ok (id, 0), c)

-- `crc32` stands for `zlib.crc32`.
module _ (crc32 : List ℕ → ℕ) where
  -- `self.writer.write(event)`
  unfoldable pub write_event : L2Event → Step ℕ
  unfolding write
  write_event e c = let (r, w) = write crc32 e c.writer in (r, record c { writer = w })

  -- `self.writer.write(Boundary(receipt_timestamp_ns, reason))`
  unfoldable pub write_boundary : ℤ → BoundaryReason → Step ℕ
  unfolding make_boundary write_event
  write_boundary receipt reason c = elim (make_boundary receipt reason) [
    | err x ↦ (err x, c)
    | ok b ↦ write_event (L2Event.boundary b) c
  ]

  unfoldable pub connection_boundary : ℤ → Bool → Step (Unit {0})
  unfolding write_boundary reset
  connection_boundary receipt connected c =
      then_do (write_boundary receipt (connection_reason connected) c) λ _ c'.
        (ok tt, record c' { synchronizer = reset false c'.synchronizer; pending_snapshot = none })

  -- `_record_applied`
  unfoldable pub record_applied : DepthUpdate → Step (Unit {0})
  unfolding write_event write_due_checkpoint
  record_applied u c = then_do (write_event (L2Event.depth u) c) λ _ c'.
      write_due_checkpoint (record c' { depth_since_checkpoint = c'.depth_since_checkpoint + 1 })

  unfoldable pub record_all_applied : List DepthUpdate → Step (Unit {0})
  unfolding record_applied
  record_all_applied [] c = (ok tt, c)
  record_all_applied (u ∷ us) c = then_do (record_applied u c) (λ _ c'. record_all_applied us c')

  unfoldable pub on_trade_in : SyncState → Trade → Step (Unit {0})
  unfolding write_event
  on_trade_in SyncState.live t c = then_do (write_event (L2Event.trade t) c) (λ _ c'. (ok tt, c'))
  on_trade_in SyncState.awaiting_snapshot t c =
      (ok tt, record c { discarded_pre_snapshot_trades = c.discarded_pre_snapshot_trades + 1 })
  on_trade_in SyncState.gap t c =
      (ok tt, record c { discarded_pre_snapshot_trades = c.discarded_pre_snapshot_trades + 1 })

  unfoldable pub on_trade : Trade → Step (Unit {0})
  unfolding on_trade_in
  on_trade t c = on_trade_in c.synchronizer.state t c

  -- `monotonic_ns()`, by the number of the call.
  module _ (monotonic_ns : ℕ → ℤ) where
    -- The same, at the time that `monotonic_ns()` gives.
    unfoldable pub write_boundary_now : BoundaryReason → Step ℕ
    unfolding write_boundary
    write_boundary_now reason c =
        write_boundary (monotonic_ns c.clock_calls) reason
          (record c { clock_calls = c.clock_calls + 1 })

    -- `_install_snapshot` past the call of the synchronizer, by its result.
    unfoldable pub after_install :
        Snapshot → List DepthUpdate → SnapshotResult → Step SnapshotResult
    unfolding write_boundary_now write_event record_all_applied reset
    after_install snapshot applied SnapshotResult.snapshot_too_old c =
        then_do
          (write_boundary_now BoundaryReason.snapshot_retry
            (record c { snapshot_retries = c.snapshot_retries + 1 }))
          (λ _ c'. (ok SnapshotResult.snapshot_too_old, record c' { pending_snapshot = none }))
    after_install snapshot applied SnapshotResult.gap_detected c =
        then_do
          (write_boundary_now BoundaryReason.sequence_gap
            (record c { sequence_gaps = c.sequence_gaps + 1 }))
          (λ _ c'. (
            ok SnapshotResult.gap_detected,
            record c' { synchronizer = reset true c'.synchronizer; pending_snapshot = none },
          ))
    after_install snapshot applied SnapshotResult.awaiting_bridge c =
        (ok SnapshotResult.awaiting_bridge, record c { pending_snapshot = some snapshot })
    after_install snapshot applied SnapshotResult.synchronized c =
        then_do (write_event (L2Event.snapshot snapshot) c) λ _ c'.
          then_do (record_all_applied applied (record c' { pending_snapshot = none }))
            λ _ c''. (ok SnapshotResult.synchronized, c'')

    -- `_install_snapshot`
    unfoldable pub install : Snapshot → Step SnapshotResult
    unfolding install_synchronizer after_install
    install snapshot c =
        then_do (install_synchronizer snapshot c)
          (λ r c'. after_install snapshot r.applied_events r.result c')

    -- The first lines of what `capture` does once its loop is over.
    unfoldable pub write_overflow : ℕ → Step (Unit {0})
    unfolding write_boundary_now
    write_overflow queue_drops c =
        if ltb 0 queue_drops
        then then_do (write_boundary_now BoundaryReason.queue_overflow c) (λ _ c'. (ok tt, c'))
        else (ok tt, c)

    -- `capture` once its loop is over, as far as the last checkpoint: the final update ID and state
    -- hash that go to the metadata.
    unfoldable pub stop : ℕ → Step (ℕ × ℕ)
    unfolding write_overflow write_boundary_now write_last_state
    stop queue_drops c = then_do (write_overflow queue_drops c) λ _ c'.
        then_do (write_boundary_now BoundaryReason.user_stop c') λ _ c''. write_last_state c''

    -- `snapshot_fetcher(symbol)`, by the number of the call.
    module _ (fetcher : ℕ → Result Snapshot) where
      -- `self.snapshot_fetcher(self.symbol)`
      unfoldable pub fetch : Step Snapshot
      fetch c = (fetcher c.fetch_calls, record c { fetch_calls = c.fetch_calls + 1 })

      -- The loop of `synchronize`, with the attempts left.
      unfoldable pub attempt : ℕ → Step Bool
      unfolding fetch install
      attempt zero c = (err Error.no_synchronization, c)
      attempt (suc n) c =
          then_do (fetch c)
            λ snapshot c'. then_do (install snapshot c') (unless_settled (attempt n))

      unfoldable pub synchronize : Step Bool
      unfolding install attempt
      synchronize c =
          if is_empty c.synchronizer.buffer then (ok false, c) else elim c.pending_snapshot [
            | none ↦ attempt c.snapshot_attempt_limit c
            | some snapshot ↦
                then_do (install snapshot c) (unless_settled (attempt c.snapshot_attempt_limit))
          ]

      -- `on_depth` past the call of the synchronizer, by its result.
      unfoldable pub after_ingest : DepthUpdate → ApplyResult → Step (Unit {0})
      unfolding record_applied write_boundary synchronize reset
      after_ingest u ApplyResult.applied c = record_applied u c
      after_ingest u ApplyResult.gap_detected c =
          then_do
            (write_boundary (pos u.receipt_timestamp_ns) BoundaryReason.sequence_gap
              (record c { sequence_gaps = c.sequence_gaps + 1 }))
            (λ _ c'. ignore (
              synchronize
                (record c' { synchronizer = reset true c'.synchronizer; pending_snapshot = none })))
      after_ingest u ApplyResult.buffered c = ignore (synchronize c)
      after_ingest u ApplyResult.ignored_stale c = (ok tt, c)

      unfoldable pub on_depth : DepthUpdate → Step (Unit {0})
      unfolding ingest_update after_ingest
      on_depth u c = then_do (ingest_update u c) (after_ingest u)
