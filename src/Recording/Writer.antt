-- ===== src/Recording/Writer.antt =====
-- market_engine/recording/l2.py: `Checkpoint`, `L2Writer.write`, `L2Writer.write_checkpoint` and
-- `read_checkpoints`. A stream is the list of the bytes written after the header of its file; writing
-- to it does not fail.
use market_systems_workstati.Base.{
  ℕ, zero, suc, ◌+◌, ◌/◌, ◌%◌, Bool, false, not, ◌||◌, Option, none, some, List, [], ◌∷◌, ◌++◌, ltb,
  leb, ◌==◌, nat_eq, list_eq, if◌then◌else◌, length, take, drop, Result, ok, err, Error, and_then,
  Action,
}
use market_systems_workstati.Base.Int.{ℤ, pos, pos_part, leb_ℤ, ltb_ℤ}
use market_systems_workstati.Book.Types.{uint64_max}
use market_systems_workstati.Recording.Event.{L2Event}
use market_systems_workstati.Recording.Header.{encode_symbol}
use market_systems_workstati.Recording.Codec.{
  pack_event, pack_fields, unpack_fields, field, uint32_max,
}

pub record Checkpoint : Type 0 where
  pub event_index : ℕ
  pub update_id : ℕ
  pub state_hash : ℕ

abbrev not_positive_64 : ℤ → Bool
not_positive_64 v = leb_ℤ v (pos 0) || ltb_ℤ (pos uint64_max) v

-- `Checkpoint(event_index, update_id, state_hash)`
unfoldable pub make_checkpoint : ℤ → ℤ → ℤ → Result Checkpoint
make_checkpoint index id hash =
    if not_positive_64 index || not_positive_64 id || not_positive_64 hash
    then err Error.bad_checkpoint
    else ok (record {
      event_index = pos_part index;
      update_id = pos_part id;
      state_hash = pos_part hash;
    })

-- The state of an `L2Writer`; `symbol` is its list of code points.
pub record Writer : Type 0 where
  pub symbol : List ℕ
  pub checkpoint_interval : ℕ
  pub closed : Bool
  pub stream : List ℕ
  pub checkpoint_stream : List ℕ
  pub event_count : ℕ
  pub snapshot_count : ℕ
  pub depth_count : ℕ
  pub trade_count : ℕ
  pub boundary_count : ℕ
  pub checkpoint_count : ℕ
  pub last_checkpoint : Option Checkpoint

-- The count of the event's type.
abbrev pub counted : L2Event → Writer → Writer
counted (L2Event.snapshot e) w = record w { snapshot_count = w.snapshot_count + 1 }
counted (L2Event.depth e) w = record w { depth_count = w.depth_count + 1 }
counted (L2Event.trade e) w = record w { trade_count = w.trade_count + 1 }
counted (L2Event.boundary e) w = record w { boundary_count = w.boundary_count + 1 }

-- `write`
unfoldable pub write : (List ℕ → ℕ) → L2Event → Action Writer ℕ
unfolding pack_event
write crc32 e w = if w.closed then (err Error.closed_writer, w) else elim (pack_event crc32 e) [
  | err x ↦ (err x, w)
  | ok raw ↦ (
    ok w.event_count,
    counted e (record w { stream = w.stream ++ raw; event_count = w.event_count + 1 }),
  )
]

-- `CHECKPOINT_RECORD_STRUCT`
abbrev pub checkpoint_format : List (ℕ × ℕ)
checkpoint_format = (8, uint64_max) ∷ (8, uint64_max) ∷ (8, uint64_max) ∷ []

abbrev pub checkpoint_size : ℕ
checkpoint_size = 24

abbrev pub checkpoint_values : Checkpoint → List ℕ
checkpoint_values c = c.event_index ∷ c.update_id ∷ c.state_hash ∷ []

abbrev pub is_not_later : Checkpoint → Option Checkpoint → Bool
is_not_later c none = false
is_not_later c (some last) = leb c.event_index last.event_index

-- The end of `write_checkpoint`, past its guards.
unfoldable pub append_checkpoint : Checkpoint → Action Writer (Unit {0})
unfolding pack_fields
append_checkpoint c w = elim (pack_fields checkpoint_format (checkpoint_values c)) [
  | err x ↦ (err x, w)
  | ok raw ↦ (
    ok tt,
    record w {
      checkpoint_stream = w.checkpoint_stream ++ raw;
      last_checkpoint = some c;
      checkpoint_count = w.checkpoint_count + 1;
    },
  )
]

-- `write_checkpoint`
unfoldable pub write_checkpoint : ℤ → ℤ → Action Writer (Unit {0})
unfolding make_checkpoint append_checkpoint
write_checkpoint id hash w =
    if w.closed
    then (err Error.closed_writer, w)
    else elim (make_checkpoint (pos w.event_count) id hash) [
      | err x ↦ (err x, w)
      | ok c ↦
          if is_not_later c w.last_checkpoint
          then (err Error.checkpoint_order, w)
          else append_checkpoint c w
    ]

abbrev pub checkpoint_header_size : ℕ
checkpoint_header_size = 32

-- `b"QL2CHK1\0"`
abbrev pub checkpoint_magic : List ℕ
checkpoint_magic = 81 ∷ 76 ∷ 50 ∷ 67 ∷ 72 ∷ 75 ∷ 49 ∷ 0 ∷ []

-- `<IIIIQ`, what follows the magic in `CHECKPOINT_HEADER_STRUCT`: version, header size, record size,
-- flags and creation time.
abbrev pub checkpoint_header_format : List (ℕ × ℕ)
checkpoint_header_format =
    (4, uint32_max) ∷ (4, uint32_max) ∷ (4, uint32_max) ∷ (4, uint32_max) ∷ (8, uint64_max) ∷ []

-- The checks of `read_checkpoints` on the header.
unfoldable pub check_checkpoint_header : Option ℕ → List ℕ → Result (Unit {0})
unfolding unpack_fields
check_checkpoint_header expected raw =
    let vs = unpack_fields checkpoint_header_format (drop 8 raw) in
    if ltb (length raw) checkpoint_header_size
    then err Error.truncated_header
    else if not (take 8 raw == checkpoint_magic)
        || not (field 0 vs == 1)
        || not (field 1 vs == checkpoint_header_size)
        || not (field 2 vs == checkpoint_size)
        || not (field 3 vs == 0)
    then err Error.bad_checkpoint_header
    else elim expected [
      | none ↦ ok tt
      | some created ↦ if field 4 vs == created then ok tt else err Error.other_recording
    ]

-- The checkpoints of a payload of that many whole records.
unfoldable pub unpack_checkpoints : ℕ → List ℕ → Result (List Checkpoint)
unfolding make_checkpoint unpack_fields
unpack_checkpoints zero raw = ok []
unpack_checkpoints (suc n) raw =
    let rest = unpack_checkpoints n (drop 24 raw) in
    let vs = unpack_fields checkpoint_format raw in
    and_then (make_checkpoint (pos (field 0 vs)) (pos (field 1 vs)) (pos (field 2 vs)))
      λ c. and_then rest λ cs. ok (c ∷ cs)

-- `any(current.event_index <= previous.event_index ...)` over the neighbours.
abbrev pub is_unordered : List Checkpoint → Bool
is_unordered [] = false
is_unordered (c ∷ []) = false
is_unordered (c ∷ d ∷ cs) = leb d.event_index c.event_index || is_unordered (d ∷ cs)

-- `read_checkpoints` past the header.
unfoldable pub read_checkpoint_payload : List ℕ → Result (List Checkpoint)
unfolding unpack_checkpoints
read_checkpoint_payload payload =
    if not (length payload % checkpoint_size == 0)
    then err Error.partial_record
    else and_then (unpack_checkpoints (length payload / checkpoint_size) payload)
        λ cs. if is_unordered cs then err Error.checkpoint_order else ok cs

unfoldable pub read_checkpoints : Option ℕ → List ℕ → Result (List Checkpoint)
unfolding check_checkpoint_header read_checkpoint_payload
read_checkpoints expected raw =
    and_then (check_checkpoint_header expected raw)
      λ _. read_checkpoint_payload (drop checkpoint_header_size raw)

-- `L2Writer(path, symbol, checkpoint_interval)` with new files, on the symbol stripped and in upper
-- case.
unfoldable pub open_writer : List ℕ → ℤ → Result Writer
unfolding encode_symbol
open_writer symbol interval =
    if leb_ℤ interval (pos 0)
    then err Error.bad_checkpoint_interval
    else and_then (encode_symbol symbol) λ _. ok (record {
      symbol = symbol;
      checkpoint_interval = pos_part interval;
      closed = false;
      stream = [];
      checkpoint_stream = [];
      event_count = 0;
      snapshot_count = 0;
      depth_count = 0;
      trade_count = 0;
      boundary_count = 0;
      checkpoint_count = 0;
      last_checkpoint = none;
    })
