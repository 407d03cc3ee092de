-- ===== src/Tests/Records.antt =====
-- market_engine/recording/l2.py: records written and read back. The checksum adds up the bytes.
use market_systems_workstati.Base.{
  ℕ, ◌+◌, ◌++◌, ◌≡◌, refl, arith, List, [], ◌∷◌, some, ok, err, Error, and_then,
}
use market_systems_workstati.Book.Types.{check_u64, make_level, make_depth_update}
use market_systems_workstati.Recording.Event.{L2Event, BoundaryReason, make_boundary}
use market_systems_workstati.Recording.Codec.{
  pack_event, pack_fields, unpack_fields, level_payload, unpack_header, unpack_levels, read_levels,
  read_record, read_body, check_sizes, check_payload, event_of, depth_of, boundary_of, reason_of,
}
use market_systems_workstati.Base.Int.{pos}
use market_systems_workstati.Base.{length}
use market_systems_workstati.Recording.Writer.{
  Checkpoint, Writer, open_writer, write, write_checkpoint, append_checkpoint, make_checkpoint,
}
use market_systems_workstati.Recording.Header.{encode_symbol}
use market_systems_workstati.Base.{false, none}
use market_systems_workstati.Recording.Checkpoints.{Written}
use market_systems_workstati.Recording.Metadata.Finalize.{pack_checkpoint_header}
use market_systems_workstati.Recording.Metadata.CheckpointFile.{Written-read_checkpoints}
use market_systems_workstati.Recording.Writer.{read_checkpoints}
use market_systems_workstati.Base.{last?, some}
use market_systems_workstati.Recording.RoundTrip.{IsRecordable, read_record-pack_event}
use market_systems_workstati.Tests.Books.{update}

abbrev pub sum_bytes : List ℕ → ℕ
sum_bytes [] = 0
sum_bytes (b ∷ bs) = b + sum_bytes bs

depth_round_trip :
    and_then (pack_event sum_bytes (L2Event.depth update)) (λ raw. read_record sum_bytes raw)
    ≡ ok (some (L2Event.depth update, []))
unfolding pack_event pack_fields unpack_fields level_payload unpack_header unpack_levels read_levels
    read_record read_body check_sizes check_payload event_of depth_of make_depth_update make_level
    check_u64
depth_round_trip = refl

abbrev stop : L2Event
stop = L2Event.boundary (record { receipt_timestamp_ns = 5; reason = BoundaryReason.user_stop })

boundary_round_trip :
    and_then (pack_event sum_bytes stop) (λ raw. read_record sum_bytes raw) ≡ ok (some (stop, []))
unfolding pack_event pack_fields unpack_fields level_payload unpack_header unpack_levels read_levels
    read_record read_body check_sizes check_payload event_of boundary_of make_boundary reason_of
boundary_round_trip = refl

unknown_record : read_record sum_bytes (1 ∷ []) ≡ err Error.truncated_header
unfolding read_record
unknown_record = refl

pub update-IsRecordable : IsRecordable (L2Event.depth update)
unfolding make_depth_update check_u64
update-IsRecordable = record {
  accepted = refl;
  bid_levels = (ground arith, tt);
  ask_levels = (ground arith, tt);
  bid_room = omega arith;
  ask_room = omega arith;
}

read_record-pack_event_example :
    (raw : List ℕ) × (pack_event sum_bytes (L2Event.depth update) ≡ ok raw)
    × (read_record sum_bytes (raw ++ (7 ∷ [])) ≡ ok (some (L2Event.depth update, 7 ∷ [])))
read_record-pack_event_example =
    read_record-pack_event sum_bytes (L2Event.depth update) (7 ∷ []) update-IsRecordable

-- "BTC"
abbrev pub btc : List ℕ
btc = 66 ∷ 84 ∷ 67 ∷ []

abbrev pub opened : Writer
opened = record {
  symbol = btc;
  checkpoint_interval = 10;
  closed = false;
  stream = [];
  checkpoint_stream = [];
  event_count = 0;
  snapshot_count = 0;
  depth_count = 0;
  trade_count = 0;
  boundary_count = 0;
  checkpoint_count = 0;
  last_checkpoint = none;
}

pub opened_writer : open_writer btc (pos 10) ≡ ok opened
unfolding open_writer encode_symbol
opened_writer = refl

-- An event, a checkpoint, and a checkpoint that is refused since no event lies between.
abbrev logged : Writer
logged =
    (write_checkpoint (pos 103) (pos 8)
      (write_checkpoint (pos 103) (pos 7) (write sum_bytes (L2Event.depth update) opened).1).1).1

logged-Written : Written sum_bytes logged
logged-Written = Written.checkpoint (pos 103) (pos 8) (
    Written.checkpoint (pos 103) (pos 7)
      (Written.event (L2Event.depth update) (Written.opened btc (pos 10) opened_writer)))

logged_counts : (logged.event_count ≡ 1) × (logged.checkpoint_count ≡ 1)
unfolding write write_checkpoint append_checkpoint make_checkpoint pack_event pack_fields
    level_payload
logged_counts = (refl, refl)

Written-read_checkpoints_example :
    (header : List ℕ) × (cs : List Checkpoint) × (pack_checkpoint_header 9 ≡ ok header)
    × (read_checkpoints (some 9) (header ++ logged.checkpoint_stream) ≡ ok cs)
    × (length cs ≡ logged.checkpoint_count)
    × (last? cs ≡ logged.last_checkpoint)
    × (logged.event_count
        ≡ logged.snapshot_count + logged.depth_count + logged.trade_count + logged.boundary_count)
Written-read_checkpoints_example = Written-read_checkpoints sum_bytes 9 (omega arith) logged-Written
