-- ===== src/Tests/Captures.antt =====
-- A short capture (market_engine/market_data/l2_capture.py), its recording read back and replayed.
use market_systems_workstati.Base.{
  ℕ, ◌≡◌, ◌≢◌, refl, subst, arith, true, none, some, List, [], ◌∷◌, ◌++◌, ok, err, Error, Result,
  nat_eq,
}
use market_systems_workstati.Base.Int.{ℤ, pos}
use market_systems_workstati.Book.Types.{Snapshot, check_u64, make_snapshot}
use market_systems_workstati.Book.{
  Book, validate, loaded, updated, set_levels, set_level, load_levels, apply, clear, state_hash,
  install_snapshot as install_book, bid_levels, ask_levels,
}
use market_systems_workstati.Book.Hash.{hash_views, mix, mix_levels}
use market_systems_workstati.Recording.Event.{L2Event, make_boundary}
use market_systems_workstati.Recording.Codec.{pack_event, pack_fields, level_payload}
use market_systems_workstati.Recording.HeaderTrip.{file_header}
use market_systems_workstati.Recording.File.{
  iter_events, records, iter_events-records, iter_events-truncated,
}
use market_systems_workstati.Recording.Writer.{
  write, write_checkpoint, append_checkpoint, make_checkpoint,
}
use market_systems_workstati.Sync.{
  SyncState, ingest, buffer_event, apply_live, reset, install_snapshot, drop_stale, bridge,
  replay_pending, take_snapshot,
}
use market_systems_workstati.Replay.{Replay, Claimed, Trial, start, replay, replay_events}
use market_systems_workstati.Base.Bytes.{le_bytes}
use market_systems_workstati.Recording.Writer.{Checkpoint}
use market_systems_workstati.Capture.{
  SymbolCapture, make_capture, connection_boundary, write_boundary, write_event, on_depth,
  ingest_update, after_ingest, synchronize, attempt, fetch, install, install_synchronizer,
  after_install, record_all_applied, record_applied, write_due_checkpoint, stop, write_overflow,
  write_boundary_now, write_last_state, write_state,
}
use market_systems_workstati.Capture.Applied.{Fetched, Received}
use market_systems_workstati.Capture.Session.{Captured, Captured-replays}
use market_systems_workstati.Recording.Metadata.{Totals}
use market_systems_workstati.Recording.Metadata.Finalize.{
  Closing, closing_totals, check_final_checkpoint,
}
use market_systems_workstati.Base.Dict.{Dict, lookup}
use market_systems_workstati.Recording.Writer.{Writer, open_writer}
use market_systems_workstati.Recording.Header.{encode_symbol}
use market_systems_workstati.Base.{list_eq}
use market_systems_workstati.Capture.Queue.{
  Captures, QueueItem, StreamEvent, handle_items, handle_item, boundary_all, dispatch, on_event,
}
use market_systems_workstati.Capture.Running.{handle_items-replays}
use market_systems_workstati.Capture.Stopping.{stop-replay}
use market_systems_workstati.Capture.Finalizing.{stop-finalize}
use market_systems_workstati.Tests.Books.{snapshot, update}
use market_systems_workstati.Tests.Records.{
  sum_bytes, btc, opened, opened_writer, update-IsRecordable,
}
use market_systems_workstati.Tests.Streams.{started, start_created}

-- The clock stands still, and the fetcher always gives the same snapshot.
abbrev pub clock : ℕ → ℤ
clock n = pos 7

abbrev fetcher : ℕ → Result Snapshot
fetcher n = ok snapshot

abbrev pub idle : SymbolCapture
idle = record {
  symbol = btc;
  writer = opened;
  synchronizer = started;
  sequence_gaps = 0;
  snapshot_retries = 0;
  discarded_pre_snapshot_trades = 0;
  depth_since_checkpoint = 0;
  pending_snapshot = none;
  snapshot_attempt_limit = 20;
  clock_calls = 0;
  fetch_calls = 0;
}

snapshot-IsConstructed : Fetched snapshot
unfolding make_snapshot check_u64
snapshot-IsConstructed = record {
  accepted = refl;
  bid_levels = (ground arith, (ground arith, tt));
  ask_levels = (ground arith, (ground arith, tt));
}

fetched-IsConstructed : (n : ℕ) (s : Snapshot) → fetcher n ≡ ok s → Fetched s
fetched-IsConstructed n s h = subst Fetched (same h) snapshot-IsConstructed
  where
    same : ◌≡◌ {A = Result Snapshot} (ok snapshot) (ok s) → snapshot ≡ s
    same h = cc

update-IsConstructed : Received update
update-IsConstructed = record {
  accepted = update-IsRecordable.accepted;
  bid_levels = update-IsRecordable.bid_levels;
  ask_levels = update-IsRecordable.ask_levels;
}

idle_made : make_capture btc opened started (pos 20) ≡ ok idle
unfolding make_capture
idle_made = refl

-- The transport opens, and an update arrives that the snapshot bridges.
abbrev connected : SymbolCapture
connected = (connection_boundary sum_bytes (pos 5) true idle).1

connected_ok : connection_boundary sum_bytes (pos 5) true idle ≡ (ok tt, connected)
unfolding connection_boundary write_boundary write_event write make_boundary pack_event pack_fields
    level_payload
connected_ok = refl

abbrev running : SymbolCapture
running = (on_depth sum_bytes clock fetcher update connected).1

running_ok : on_depth sum_bytes clock fetcher update connected ≡ (ok tt, running)
unfolding connection_boundary write_boundary write_event write make_boundary pack_event pack_fields
    level_payload on_depth ingest_update ingest buffer_event after_ingest synchronize attempt fetch
    install install_synchronizer install_snapshot drop_stale bridge take_snapshot replay_pending
    apply_live apply install_book after_install record_all_applied record_applied
    write_due_checkpoint reset clear validate loaded updated load_levels set_levels set_level
running_ok = refl

running_live :
    (running.synchronizer.state ≡ SyncState.live) × (running.synchronizer.book.last_update_id ≡ 103)
unfolding connection_boundary write_boundary write_event write make_boundary pack_event pack_fields
    level_payload on_depth ingest_update ingest buffer_event after_ingest synchronize attempt fetch
    install install_synchronizer install_snapshot drop_stale bridge take_snapshot replay_pending
    apply_live apply install_book after_install record_all_applied record_applied
    write_due_checkpoint reset clear validate loaded updated load_levels set_levels set_level
running_live = (refl, refl)

running-Captured : Captured sum_bytes clock fetcher btc running
running-Captured =
    Captured.depth update update-IsConstructed
      (Captured.connection (pos 5) true
        (Captured.opened (pos 10) (pos 4) (pos 20) opened_writer start_created idle_made)
        connected_ok)
      running_ok

Captured-replays_example :
    (es : List L2Event) × (r : Replay) × (iter_events sum_bytes
        (file_header btc 9 ++ running.writer.stream)
      ≡ (es, ok tt))
    × (replay_events [] es start ≡ ok r)
    × (r.book ≡ running.synchronizer.book)
Captured-replays_example =
    Captured-replays sum_bytes clock fetcher fetched-IsConstructed 9 running-Captured (omega arith)
      (omega arith) running_live.0

abbrev stopped : SymbolCapture
stopped = (stop sum_bytes clock 0 running).1

-- The hash of the last state, which the capture claims.
abbrev last_hash : ℕ
last_hash = state_hash running.synchronizer.book

stopped_ok : stop sum_bytes clock 0 running ≡ (ok (103, last_hash), stopped)
unfolding connection_boundary write_boundary write_event write make_boundary pack_event pack_fields
    level_payload on_depth ingest_update ingest buffer_event after_ingest synchronize attempt fetch
    install install_synchronizer install_snapshot drop_stale bridge take_snapshot replay_pending
    apply_live apply install_book after_install record_all_applied record_applied
    write_due_checkpoint reset clear validate loaded updated load_levels set_levels set_level stop
    write_overflow write_boundary_now write_last_state write_state write_checkpoint
    append_checkpoint make_checkpoint state_hash bid_levels ask_levels hash_views mix mix_levels
stopped_ok = refl

abbrev claimed : Claimed
claimed = record {
  checkpoint_file = none;
  created_unix_ns = 9;
  final_update_id = some 103;
  final_state_hash = none;
}

abbrev trial : Trial
trial = record {
  events = 4;
  depth_events = 1;
  trades = 0;
  checkpoints_verified = 0;
  final_update_id = 103;
  final_state_hash = 0;
  state_sequence_sha256 = [];
}

stop-replay_example :
    replay sum_bytes (λ bs. bs) claimed (file_header btc 9 ++ stopped.writer.stream) ≢ ok trial
stop-replay_example =
    stop-replay sum_bytes (λ bs. bs) clock fetcher fetched-IsConstructed 0 9 (103, last_hash)
      stopped claimed trial running-Captured (omega (arith, running_live.1)) stopped_ok
      (omega arith) (omega arith) refl

iter_events-records_example :
    iter_events sum_bytes (file_header btc 9 ++ records sum_bytes (L2Event.depth update ∷ []))
    ≡ (L2Event.depth update ∷ [], ok tt)
iter_events-records_example =
    iter_events-records sum_bytes btc 9 (L2Event.depth update ∷ []) refl (omega arith) (omega arith)
      (update-IsRecordable, tt)

iter_events-truncated_example :
    iter_events sum_bytes
      (file_header btc 9 ++ (records sum_bytes (L2Event.depth update ∷ []) ++ (2 ∷ 0 ∷ [])))
    ≡ (L2Event.depth update ∷ [], err Error.truncated_header)
iter_events-truncated_example =
    iter_events-truncated sum_bytes btc 9 (L2Event.depth update ∷ []) refl (omega arith)
      (omega arith) (update-IsRecordable, tt) (2 ∷ 0 ∷ []) (omega arith) (omega arith)

abbrev session_events : List L2Event
session_events = L2Event.snapshot snapshot ∷ L2Event.depth update ∷ []

abbrev session_book : Book
session_book = updated update (loaded snapshot)

-- The checkpoint that stands at the second event.
abbrev second_checkpoint : Checkpoint
second_checkpoint = record {
  event_index = 2;
  update_id = 103;
  state_hash = state_hash session_book;
}

abbrev second_only : Dict ℕ Checkpoint
second_only = (2, second_checkpoint) ∷ []

abbrev session_replayed : Replay
session_replayed = record {
  book = session_book;
  event_count = 2;
  depth_count = 1;
  trade_count = 0;
  checkpoint_matches = 1;
  digest = le_bytes 8 (state_hash session_book);
}

abbrev closing : Closing
closing = record {
  clean_shutdown = true;
  final_update_id = pos 103;
  final_state_hash = pos last_hash;
  sequence_gaps = pos 0;
  snapshot_retries = pos 0;
  queue_drops = pos 0;
  malformed_messages = pos 0;
  extra = ok tt;
}

abbrev totals : Totals
totals = record {
  clean_shutdown = true;
  data_complete = true;
  final_update_id = 103;
  final_state_hash = last_hash;
  sequence_gaps = 0;
  snapshot_retries = 0;
  queue_drops = 0;
  malformed_messages = 0;
}

totals_derived : closing_totals stopped.writer closing ≡ ok totals
unfolding connection_boundary write_boundary write_event write make_boundary pack_event pack_fields
    level_payload on_depth ingest_update ingest buffer_event after_ingest synchronize attempt fetch
    install install_synchronizer install_snapshot drop_stale bridge take_snapshot replay_pending
    apply_live apply install_book after_install record_all_applied record_applied
    write_due_checkpoint reset clear validate loaded updated load_levels set_levels set_level stop
    write_overflow write_boundary_now write_last_state write_state write_checkpoint
    append_checkpoint make_checkpoint state_hash bid_levels ask_levels hash_views mix mix_levels
    closing_totals
totals_derived = refl

stop-finalize_example : check_final_checkpoint stopped.writer totals ≡ ok tt
stop-finalize_example =
    stop-finalize sum_bytes clock 0 running stopped (103, last_hash) closing totals stopped_ok refl
      refl totals_derived

-- "ETH", captured beside the other.
abbrev eth : List ℕ
eth = 69 ∷ 84 ∷ 72 ∷ []

abbrev eth_writer : Writer
eth_writer = record opened { symbol = eth }

abbrev eth_idle : SymbolCapture
eth_idle = record idle { symbol = eth; writer = eth_writer }

eth_opened : open_writer eth (pos 10) ≡ ok eth_writer
unfolding open_writer encode_symbol
eth_opened = refl

eth_made : make_capture eth eth_writer started (pos 20) ≡ ok eth_idle
unfolding make_capture
eth_made = refl

abbrev captures : Captures
captures = (btc, idle) ∷ (eth, eth_idle) ∷ []

abbrev items : List QueueItem
items =
    record { symbol = none; event = StreamEvent.connection (pos 5) true }
    ∷ record { symbol = some btc; event = StreamEvent.depth update }
    ∷ []

abbrev captures_left : Captures
captures_left = (handle_items sum_bytes clock (λ name. fetcher) items captures).1

items_handled :
    (handle_items sum_bytes clock (λ name. fetcher) items captures ≡ (ok tt, captures_left))
    × (lookup btc captures_left ≡ some running)
unfolding connection_boundary write_boundary write_event write make_boundary pack_event pack_fields
    level_payload on_depth ingest_update ingest buffer_event after_ingest synchronize attempt fetch
    install install_synchronizer install_snapshot drop_stale bridge take_snapshot replay_pending
    apply_live apply install_book after_install record_all_applied record_applied
    write_due_checkpoint reset clear validate loaded updated load_levels set_levels set_level
    handle_items handle_item boundary_all dispatch on_event
items_handled = (refl, refl)

handle_items-replays_example :
    (es : List L2Event) × (r : Replay) × (iter_events sum_bytes
        (file_header btc 9 ++ running.writer.stream)
      ≡ (es, ok tt))
    × (replay_events [] es start ≡ ok r)
    × (r.book ≡ running.synchronizer.book)
handle_items-replays_example =
    handle_items-replays sum_bytes clock (λ name. fetcher) items captures captures_left btc running
      9 (λ name. fetched-IsConstructed)
      (
        Captured.opened (pos 10) (pos 4) (pos 20) opened_writer start_created idle_made,
        (Captured.opened (pos 10) (pos 4) (pos 20) eth_opened start_created eth_made, tt),
      )
      (tt, (update-IsConstructed, tt)) items_handled.0 items_handled.1 (omega arith) (omega arith)
      running_live.0
