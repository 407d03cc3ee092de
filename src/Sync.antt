-- ===== src/Sync.antt =====
-- market_engine/market_data/l2_order_book.py: `class DepthSynchronizer`, the snapshot and diff-depth
-- procedure.
pub mod Chain
pub mod Buffer
pub mod Soundness
pub mod Session
pub mod Bridge
pub mod Live
pub mod Install
pub mod Outcome
use market_systems_workstati.Base.{
  ℕ, ◌+◌, ◌≡◌, Bool, true, false, Option, none, some, List, [], ◌∷◌, ◌++◌, ltb, leb, if◌then◌else◌,
  Result, ok, err, Error, Action, then_do, last?, length,
}
use market_systems_workstati.Base.Int.{ℤ, pos, pos_part, leb_ℤ}
use market_systems_workstati.Book.Types.{Snapshot, DepthUpdate}
use market_systems_workstati.Book.{Book, empty_book, clear, install_snapshot as install_book, apply}

pub data SyncState : Type 0 where
  awaiting_snapshot live gap : SyncState

pub data ApplyResult : Type 0 where
  applied ignored_stale buffered gap_detected : ApplyResult

pub data SnapshotResult : Type 0 where
  synchronized awaiting_bridge snapshot_too_old gap_detected : SnapshotResult

pub record SnapshotInstallResult : Type 0 where
  pub result : SnapshotResult
  pub stale_events : ℕ
  pub applied_events : List DepthUpdate
  pub first_applied_buffer_index : ℕ

pub record DepthSynchronizer : Type 0 where
  pub maximum_buffered_events : ℕ
  pub book : Book
  pub state : SyncState
  pub buffer : List DepthUpdate
  pub reset_count : ℕ

-- `DepthSynchronizer(maximum_buffered_events)`
unfoldable pub make_synchronizer : ℤ → Result DepthSynchronizer
make_synchronizer maximum =
    if leb_ℤ maximum (pos 0)
    then err Error.bad_maximum
    else ok (record {
      maximum_buffered_events = pos_part maximum;
      book = empty_book;
      state = SyncState.awaiting_snapshot;
      buffer = [];
      reset_count = 0;
    })

unfoldable pub reset : Bool → DepthSynchronizer → DepthSynchronizer
unfolding clear
reset preserve_buffer s = record s {
  book = clear s.book;
  buffer = if preserve_buffer then s.buffer else [];
  state = SyncState.awaiting_snapshot;
  reset_count = s.reset_count + 1;
}

-- `self._buffer and update.final_update_id < self._buffer[-1].final_update_id`
abbrev pub is_late : DepthUpdate → List DepthUpdate → Bool
is_late u buffer = elim (last? buffer) [
  | none ↦ false
  | some previous ↦ ltb u.final_update_id previous.final_update_id
]

-- `_buffer_event`: both refusals have already set the state.
unfoldable pub buffer_event : DepthUpdate → Action DepthSynchronizer (Unit {0})
buffer_event u s =
    if leb s.maximum_buffered_events (length s.buffer)
    then (err Error.capacity_exceeded, record s { state = SyncState.gap })
    else if is_late u s.buffer
    then (err Error.out_of_order, record s { state = SyncState.gap })
    else (ok tt, record s { buffer = s.buffer ++ u ∷ [] })

-- The end of `_apply_live`: the book raises after its change, and before the state is set.
abbrev pub settle :
    DepthSynchronizer → Result (Unit {0}) × Book → Result ApplyResult × DepthSynchronizer
settle s (ok _, b) = (ok ApplyResult.applied, record s { book = b; state = SyncState.live })
settle s (err e, b) = (err e, record s { book = b })

-- `_apply_live`
unfoldable pub apply_live : DepthUpdate → Action DepthSynchronizer ApplyResult
apply_live u s =
    if leb u.final_update_id s.book.last_update_id
    then (ok ApplyResult.ignored_stale, s)
    else if ltb (s.book.last_update_id + 1) u.first_update_id
    then then_do (buffer_event u (record s { state = SyncState.gap }))
        (λ _ s'. (ok ApplyResult.gap_detected, s'))
    else settle s (apply u s.book)

abbrev buffer_only : DepthUpdate → Action DepthSynchronizer ApplyResult
buffer_only u s = then_do (buffer_event u s) (λ _ s'. (ok ApplyResult.buffered, s'))

ingest_in : SyncState → DepthUpdate → Action DepthSynchronizer ApplyResult
ingest_in SyncState.live u s = apply_live u s
ingest_in SyncState.awaiting_snapshot u s = buffer_only u s
ingest_in SyncState.gap u s = buffer_only u s

unfoldable pub ingest : DepthUpdate → Action DepthSynchronizer ApplyResult
unfolding ingest_in
ingest u s = ingest_in s.state u s

-- The `while` loop of `install_snapshot`: what is left of the buffer, and the number dropped.
unfoldable pub drop_stale : ℕ → List DepthUpdate → List DepthUpdate × ℕ
drop_stale last [] = ([], 0)
drop_stale last (u ∷ us) =
    let (rest, stale) = drop_stale last us in
    if leb u.final_update_id last then (rest, stale + 1) else (u ∷ us, 0)

-- The `for` loop of `install_snapshot` over the pending events.
unfoldable pub replay_pending :
    List DepthUpdate
    → List DepthUpdate
    → Action DepthSynchronizer (SnapshotResult × List DepthUpdate)
replay_pending [] done s = (ok (SnapshotResult.synchronized, done), s)
replay_pending (u ∷ rest) done s =
    let (r, s') = apply_live u s in
    elim r [
      | err e ↦ (err e, s')
      | ok ApplyResult.gap_detected ↦
          (ok (SnapshotResult.gap_detected, done), record s' { buffer = s'.buffer ++ rest })
      | ok ApplyResult.applied ↦ replay_pending rest (done ++ u ∷ []) s'
      | ok ApplyResult.ignored_stale ↦ replay_pending rest done s'
      | ok ApplyResult.buffered ↦ replay_pending rest done s'
    ]

abbrev pub install_result : ℕ → SnapshotResult → List DepthUpdate → SnapshotInstallResult
install_result stale r done = record {
  result = r;
  stale_events = stale;
  applied_events = done;
  first_applied_buffer_index = stale;
}

-- The book takes the snapshot; if it raises, it keeps what it took.
unfoldable pub take_snapshot : Snapshot → Action DepthSynchronizer (Unit {0})
unfolding install_book
take_snapshot snapshot s = let (r, b) = install_book snapshot s.book in (r, record s { book = b })

-- `install_snapshot` after the stale events are gone.
unfoldable pub bridge :
    Snapshot → ℕ → List DepthUpdate → Action DepthSynchronizer SnapshotInstallResult
unfolding take_snapshot
bridge snapshot stale [] s = then_do (take_snapshot snapshot s) (λ _ s'. (
  ok (install_result stale SnapshotResult.awaiting_bridge []),
  record s' { state = SyncState.awaiting_snapshot },
))
bridge snapshot stale (first ∷ rest) s =
    if ltb (snapshot.last_update_id + 1) first.first_update_id
    then (ok (install_result stale SnapshotResult.snapshot_too_old []), s)
    else if ltb first.final_update_id (snapshot.last_update_id + 1)
    then (err Error.stale_remained, s)
    else then_do (take_snapshot snapshot s) (λ _ s'.
      then_do (replay_pending (first ∷ rest) [] (record s' { state = SyncState.live; buffer = [] }))
        (λ (r, done) s''. (ok (install_result stale r done), s'')))

unfoldable pub install_snapshot : Snapshot → Action DepthSynchronizer SnapshotInstallResult
install_snapshot snapshot s =
    let (pending, stale) = drop_stale snapshot.last_update_id s.buffer in
    bridge snapshot stale pending (record s { buffer = pending })
