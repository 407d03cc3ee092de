-- ===== src/Tests/Artifacts.antt =====
-- A short recording finalized (market_engine/recording/l2.py). Every digest is 64 zeros, and a path is its
-- own last part.
use market_systems_workstati.Base.{
  ℕ, zero, suc, ◌≡◌, refl, arith, true, false, none, List, [], ◌∷◌, ok,
}
use market_systems_workstati.Base.Int.{pos}
use market_systems_workstati.Book.Types.{make_snapshot, check_u64}
use market_systems_workstati.Recording.Event.{L2Event}
use market_systems_workstati.Recording.Codec.{pack_event, pack_fields, level_payload}
use market_systems_workstati.Recording.Header.{pack_file_header, encode_symbol}
use market_systems_workstati.Recording.HeaderTrip.{file_header}
use market_systems_workstati.Recording.RoundTrip.{IsRecordable}
use market_systems_workstati.Recording.Writer.{
  Writer, write, write_checkpoint, append_checkpoint, make_checkpoint,
}
use market_systems_workstati.Recording.Metadata.{Totals, Folder}
use market_systems_workstati.Recording.Metadata.Finalize.{
  Identity, Closing, closing_totals, check_final_checkpoint, finalize, pack_checkpoint_header,
}
use market_systems_workstati.Recording.Metadata.Trip.{checkpoint_header_bytes}
use market_systems_workstati.Recording.Metadata.Publish.{IsOpened, folder_left, metadata_left}
use market_systems_workstati.Recording.Metadata.History.{Holding, Holding-finalize}
use market_systems_workstati.Tests.Books.{snapshot, update}
use market_systems_workstati.Tests.Records.{
  sum_bytes, btc, opened, opened_writer, update-IsRecordable,
}

abbrev zero_digits : ℕ → List ℕ
zero_digits zero = []
zero_digits (suc n) = 48 ∷ zero_digits n

abbrev pub digest : List ℕ → List ℕ
digest bs = zero_digits 64

abbrev pub last_part : List ℕ → List ℕ
last_part path = path

snapshot-IsRecordable : IsRecordable (L2Event.snapshot snapshot)
unfolding make_snapshot check_u64
snapshot-IsRecordable = record {
  accepted = refl;
  bid_levels = (ground arith, (ground arith, tt));
  ask_levels = (ground arith, (ground arith, tt));
  bid_room = omega arith;
  ask_room = omega arith;
}

abbrev with_snapshot : Writer
with_snapshot = (write sum_bytes (L2Event.snapshot snapshot) opened).1

abbrev with_update : Writer
with_update = (write sum_bytes (L2Event.depth update) with_snapshot).1

abbrev ended : Writer
ended = (write_checkpoint (pos 103) (pos 7) with_update).1

snapshot_written : write sum_bytes (L2Event.snapshot snapshot) opened ≡ (ok 0, with_snapshot)
unfolding write pack_event pack_fields level_payload
snapshot_written = refl

update_written : write sum_bytes (L2Event.depth update) with_snapshot ≡ (ok 1, with_update)
unfolding write pack_event pack_fields level_payload
update_written = refl

ended-Holding : Holding sum_bytes (L2Event.snapshot snapshot ∷ L2Event.depth update ∷ []) ended
ended-Holding = Holding.checkpoint (pos 103) (pos 7) (
    Holding.event (L2Event.depth update) 1 update-IsRecordable
      (Holding.event (L2Event.snapshot snapshot) 0 snapshot-IsRecordable
        (Holding.opened btc (pos 10) opened_writer) snapshot_written)
      update_written)

-- The recording is called "a".
abbrev pub identity : Identity
identity = record {
  name = 97 ∷ [];
  created_unix_ns = 9;
  header = file_header btc 9;
  checkpoint_header = checkpoint_header_bytes 9;
}

ended-IsOpened : IsOpened digest last_part identity ended
unfolding pack_file_header encode_symbol pack_fields pack_checkpoint_header write pack_event
    level_payload write_checkpoint append_checkpoint make_checkpoint
ended-IsOpened = record {
  header = refl;
  checkpoint_header = refl;
  positive = omega arith;
  small = omega arith;
  named = refl;
  digests = λ bs. refl;
  plain = refl;
}

abbrev closing : Closing
closing = record {
  clean_shutdown = true;
  final_update_id = pos 103;
  final_state_hash = pos 7;
  sequence_gaps = pos 1;
  snapshot_retries = pos 0;
  queue_drops = pos 0;
  malformed_messages = pos 0;
  extra = ok tt;
}

abbrev totals : Totals
totals = record {
  clean_shutdown = true;
  data_complete = true;
  final_update_id = 103;
  final_state_hash = 7;
  sequence_gaps = 1;
  snapshot_retries = 0;
  queue_drops = 0;
  malformed_messages = 0;
}

abbrev pub empty_folder : Folder
empty_folder = record { recording = none; companion = λ name. none; sidecar = none }

still_open : ended.closed ≡ false
unfolding write pack_event pack_fields level_payload write_checkpoint append_checkpoint
    make_checkpoint
still_open = refl

totals_derived : closing_totals ended closing ≡ ok totals
unfolding write pack_event pack_fields level_payload write_checkpoint append_checkpoint
    make_checkpoint closing_totals
totals_derived = refl

last_matches : check_final_checkpoint ended totals ≡ ok tt
unfolding write pack_event pack_fields level_payload write_checkpoint append_checkpoint
    make_checkpoint check_final_checkpoint
last_matches = refl

Holding-finalize_example :
    finalize sum_bytes digest last_part identity closing
      (record { writer = ended; folder = empty_folder })
    ≡ (
      ok (
          metadata_left digest identity ended totals
            (L2Event.snapshot snapshot ∷ L2Event.depth update ∷ [])),
      record {
        writer = record ended { closed = true };
        folder = folder_left digest identity ended totals empty_folder;
      },
    )
Holding-finalize_example =
    Holding-finalize sum_bytes digest last_part identity closing totals empty_folder ended-Holding
      ended-IsOpened still_open totals_derived last_matches
