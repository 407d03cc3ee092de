-- ===== src/Tests/Endings.antt =====
-- The end of a capture without events (market_engine/market_data/l2_capture.py).
use market_systems_workstati.Base.{
  ◌+◌, ◌≡◌, refl, ap, ◌∙◌, arith, true, false, none, [], ◌∷◌, length, ok, Option, Error, Result,
  All,
}
use market_systems_workstati.Base.Int.{pos}
use market_systems_workstati.Recording.Event.{L2Event, make_boundary, BoundaryReason}
use market_systems_workstati.Recording.Codec.{pack_event, pack_fields, level_payload}
use market_systems_workstati.Recording.Header.{pack_file_header, encode_symbol}
use market_systems_workstati.Recording.RoundTrip.{IsRecordable}
use market_systems_workstati.Recording.Writer.{Writer, write}
use market_systems_workstati.Recording.Metadata.{Totals}
use market_systems_workstati.Recording.Metadata.Reading.{Metadata}
use market_systems_workstati.Recording.Metadata.Finalize.{
  closing_totals, check_final_checkpoint, pack_checkpoint_header, Artifact,
}
use market_systems_workstati.Recording.Metadata.Publish.{IsOpened, folder_left, metadata_left}
use market_systems_workstati.Recording.Metadata.History.{Holding, Holding-finalize}
use market_systems_workstati.Capture.{
  SymbolCapture, stop, write_overflow, write_boundary_now, write_last_state, write_boundary,
  write_event,
}
use market_systems_workstati.Capture.Ending.{
  Stored, closing_of, stored_after, unless_raised, finish_stopped, finish_one, finish_all,
  capture_end,
}
use market_systems_workstati.Capture.Ending.Closed.{
  IsClosed, finish_all-IsClosed, capture_end-finish_all,
}
use market_systems_workstati.Tests.Records.{sum_bytes, btc, opened, opened_writer}
use market_systems_workstati.Tests.Captures.{clock, idle}
use market_systems_workstati.Tests.Artifacts.{digest, last_part, identity, empty_folder}

abbrev unused : Stored
unused = record { capture = idle; identity = identity; folder = empty_folder }

abbrev idle_stopped : SymbolCapture
idle_stopped = (stop sum_bytes clock 0 idle).1

idle_stopped_ok : stop sum_bytes clock 0 idle ≡ (ok (0, 0), idle_stopped)
unfolding stop write_overflow write_boundary_now write_last_state write_boundary write_event write
    make_boundary pack_event pack_fields level_payload
idle_stopped_ok = refl

abbrev stop_event : L2Event
stop_event =
    L2Event.boundary (record { receipt_timestamp_ns = 7; reason = BoundaryReason.user_stop })

abbrev with_stop : Writer
with_stop = (write sum_bytes stop_event opened).1

stop_written : write sum_bytes stop_event opened ≡ (ok 0, with_stop)
unfolding write pack_event pack_fields level_payload
stop_written = refl

finish_all-IsClosed_example :
    All IsClosed
      (finish_all sum_bytes digest last_part clock 0 0 true (ok tt) (unused ∷ unused ∷ [])).stored
    × (length
            (finish_all sum_bytes digest last_part clock 0 0 true
              (ok tt)
              (unused ∷ unused ∷ [])).finished
          + length
              (finish_all sum_bytes digest last_part clock 0 0 true
                (ok tt)
                (unused ∷ unused ∷ [])).errors
        ≡ 2)
finish_all-IsClosed_example =
    finish_all-IsClosed sum_bytes digest last_part clock 0 0 true (ok tt) (unused ∷ unused ∷ [])

abbrev no_totals : Totals
no_totals = record {
  clean_shutdown = true;
  data_complete = false;
  final_update_id = 0;
  final_state_hash = 0;
  sequence_gaps = 0;
  snapshot_retries = 0;
  queue_drops = 0;
  malformed_messages = 0;
}

abbrev metadata : Metadata
metadata = metadata_left digest identity with_stop no_totals (stop_event ∷ [])

stop_event-IsRecordable : IsRecordable stop_event
unfolding make_boundary
stop_event-IsRecordable = record {
  accepted = refl;
  bid_levels = tt;
  ask_levels = tt;
  bid_room = omega arith;
  ask_room = omega arith;
}

with_stop-Holding : Holding sum_bytes (stop_event ∷ []) with_stop
with_stop-Holding =
    Holding.event stop_event 0 stop_event-IsRecordable (Holding.opened btc (pos 10) opened_writer)
      stop_written

with_stop-IsOpened : IsOpened digest last_part identity with_stop
unfolding pack_file_header encode_symbol pack_fields pack_checkpoint_header write pack_event
    level_payload
with_stop-IsOpened = record {
  header = refl;
  checkpoint_header = refl;
  positive = omega arith;
  small = omega arith;
  named = refl;
  digests = λ bs. refl;
  plain = refl;
}

still_open : with_stop.closed ≡ false
unfolding write pack_event pack_fields level_payload
still_open = refl

derived : closing_totals with_stop (closing_of idle (0, 0) 0 0 true (ok tt)) ≡ ok no_totals
unfolding write pack_event pack_fields level_payload closing_totals
derived = refl

unchecked : check_final_checkpoint with_stop no_totals ≡ ok tt
unfolding check_final_checkpoint
unchecked = refl

stopped_writer : idle_stopped ≡ record idle { writer = with_stop; clock_calls = 1 }
unfolding stop write_overflow write_boundary_now write_last_state write_boundary write_event
    make_boundary
stopped_writer = refl

abbrev finished_unused : Stored
finished_unused = record {
  capture = record idle { writer = record with_stop { closed = true }; clock_calls = 1 };
  identity = identity;
  folder = folder_left digest identity with_stop no_totals empty_folder;
}

finish_unused :
    finish_one sum_bytes digest last_part clock 0 0 true (ok tt) unused
    ≡ (ok metadata, finished_unused)
unfolding finish_one
finish_unused =
    ap
      (λ x.
        unless_raised (finish_stopped sum_bytes digest last_part clock 0 0 true (ok tt) unused x))
      (idle_stopped_ok ∙ ap (λ c. (ok (0, 0), c)) stopped_writer)
    ∙ ap after (
        Holding-finalize sum_bytes digest last_part identity
          (closing_of idle (0, 0) 0 0 true (ok tt)) no_totals empty_folder with_stop-Holding
          with_stop-IsOpened still_open derived unchecked)
  where
    after : Result Metadata × Artifact → Result Metadata × Stored
    after (r, a) =
        unless_raised
          (r, stored_after unused (record idle { writer = with_stop; clock_calls = 1 }) a)

both_finished :
    capture_end none
      (finish_all sum_bytes digest last_part clock 0 0 true (ok tt) (unused ∷ unused ∷ []))
    ≡ ok (metadata ∷ metadata ∷ [])
unfolding capture_end finish_all
both_finished = rw finish_unused refl

capture_end-finish_all_example :
    (◌≡◌ {A = Option Error} none none) × (length (metadata ∷ metadata ∷ []) ≡ 2)
capture_end-finish_all_example =
    capture_end-finish_all sum_bytes digest last_part clock 0 0 true (ok tt) none
      (unused ∷ unused ∷ []) (metadata ∷ metadata ∷ []) both_finished
