-- ===== src/Tests/Streams.antt =====
-- market_engine/market_data/l2_order_book.py: `DepthSynchronizer` on short streams.
use market_systems_workstati.Base.{◌≡◌, ◌⊎◌, inl, inr, ◌≢◌, refl, List, [], ◌∷◌, ok, arith}
use market_systems_workstati.Base.Int.{pos}
use market_systems_workstati.Book.Types.{Snapshot, DepthUpdate}
use market_systems_workstati.Book.{
  validate, loaded, updated, set_levels, set_level, load_levels, apply,
  install_snapshot as install_book,
}
use market_systems_workstati.Sync.{
  DepthSynchronizer, SyncState, SnapshotResult, make_synchronizer, ingest, buffer_event, apply_live,
  install_snapshot, install_result, drop_stale, bridge, replay_pending, take_snapshot,
}
use market_systems_workstati.Sync.Chain.{accepted, beyond_gap, apply_all, Validates}
use market_systems_workstati.Sync.Bridge.{verdict, state_after}
use market_systems_workstati.Sync.Install.{
  install_snapshot_bridged, install_snapshot_awaiting, install_snapshot_too_old, dropped,
}
use market_systems_workstati.Sync.Session.{Reachable, Reachable-IsSound}
use market_systems_workstati.Sync.Soundness.{IsSound}
use market_systems_workstati.Tests.Books.{snapshot, update, level}

-- `DepthSynchronizer(4)`
abbrev pub started : DepthSynchronizer
started = record {
  maximum_buffered_events = 4;
  book = record { bids = []; asks = []; last_update_id = 0 };
  state = SyncState.awaiting_snapshot;
  buffer = [];
  reset_count = 0;
}

abbrev stale_update : DepthUpdate
stale_update = record update { first_update_id = 90; final_update_id = 98 }

-- Joins on after `update`.
abbrev next_update : DepthUpdate
next_update = record update { first_update_id = 104; final_update_id = 105; bids = level 8 3 ∷ [] }

-- Begins beyond what `update` reaches.
abbrev far_update : DepthUpdate
far_update = record update { first_update_id = 107; final_update_id = 108 }

abbrev with_buffer : List DepthUpdate → DepthSynchronizer
with_buffer us = record started { buffer = us }

-- Buffered events, a snapshot between them, and one more event.
abbrev session : DepthSynchronizer
session =
    (ingest next_update
      (install_snapshot snapshot (ingest update (ingest stale_update started).1).1).1).1

pub start_created : make_synchronizer (pos 4) ≡ ok started
unfolding make_synchronizer
start_created = refl

-- What arrived in the session, and what was fetched.
abbrev Received : DepthUpdate → Type 0
Received u = (u ≡ stale_update) ⊎ ((u ≡ update) ⊎ (u ≡ next_update))

abbrev Fetched : Snapshot → Type 0
Fetched sn = sn ≡ snapshot

session-Reachable : Reachable Received Fetched session
session-Reachable = Reachable.ingested next_update (inr (inr refl)) (
    Reachable.installed snapshot refl (
      Reachable.ingested update (inr (inl refl))
        (Reachable.ingested stale_update (inl refl) (Reachable.created (pos 4) start_created))))

session_live : (session.state ≡ SyncState.live) × (session.book.last_update_id ≡ 105)
unfolding ingest buffer_event apply_live install_snapshot drop_stale bridge replay_pending
    take_snapshot install_book loaded load_levels apply updated set_levels set_level validate
session_live = (refl, refl)

Reachable-IsSound_example : IsSound Received Fetched session
Reachable-IsSound_example = Reachable-IsSound Received Fetched session-Reachable

validate_snapshot : validate (loaded snapshot) ≡ ok tt
unfolding validate loaded load_levels set_level
validate_snapshot = refl

abbrev broken_stream : List DepthUpdate
broken_stream = stale_update ∷ update ∷ next_update ∷ far_update ∷ []

broken_stream_parts :
    (accepted 100 broken_stream ≡ update ∷ next_update ∷ [])
    × (beyond_gap 100 broken_stream ≡ far_update ∷ [])
unfolding accepted beyond_gap
broken_stream_parts = (refl, refl)

broken_stream-Validates : Validates (accepted 100 broken_stream) (loaded snapshot)
unfolding accepted loaded load_levels updated set_levels set_level validate
broken_stream-Validates = (refl, (refl, tt))

broken_stream_joins : accepted 100 broken_stream ≢ []
unfolding accepted
broken_stream_joins e = cc

install_snapshot_bridged_example :
    let tail = beyond_gap 100 broken_stream in
    let done = accepted 100 broken_stream in
    install_snapshot snapshot (with_buffer broken_stream) ≡ (
      ok (install_result (dropped snapshot (with_buffer broken_stream)) (verdict tail) done),
      record (with_buffer broken_stream) {
        book = apply_all done (loaded snapshot);
        buffer = tail;
        state = state_after tail;
      },
    )
install_snapshot_bridged_example =
    install_snapshot_bridged snapshot (with_buffer broken_stream) (omega arith) validate_snapshot
      broken_stream-Validates broken_stream_joins

only_stale : (accepted 100 (stale_update ∷ []) ≡ []) × (beyond_gap 100 (stale_update ∷ []) ≡ [])
unfolding accepted beyond_gap
only_stale = (refl, refl)

install_snapshot_awaiting_example : install_snapshot snapshot (with_buffer (stale_update ∷ [])) ≡ (
  ok (
      install_result
        (dropped snapshot (with_buffer (stale_update ∷ [])))
        SnapshotResult.awaiting_bridge
        []),
  record (with_buffer (stale_update ∷ [])) {
    book = loaded snapshot;
    buffer = [];
    state = SyncState.awaiting_snapshot;
  },
)
install_snapshot_awaiting_example =
    install_snapshot_awaiting snapshot (with_buffer (stale_update ∷ [])) validate_snapshot
      only_stale.0 only_stale.1

too_far : accepted 100 (stale_update ∷ far_update ∷ []) ≡ []
unfolding accepted
too_far = refl

too_far_left : beyond_gap 100 (stale_update ∷ far_update ∷ []) ≢ []
unfolding beyond_gap
too_far_left e = cc

install_snapshot_too_old_example :
    let s = with_buffer (stale_update ∷ far_update ∷ []) in
    install_snapshot snapshot s ≡ (
      ok (install_result (dropped snapshot s) SnapshotResult.snapshot_too_old []),
      record s { buffer = beyond_gap 100 s.buffer },
    )
install_snapshot_too_old_example =
    install_snapshot_too_old snapshot (with_buffer (stale_update ∷ far_update ∷ [])) too_far
      too_far_left
