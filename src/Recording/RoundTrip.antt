-- ===== src/Recording/RoundTrip.antt =====
-- `_pack_event` and a round of `iter_events` (market_engine/recording/l2.py) against each other.
use market_systems_workstati.Base.{
  ℕ, ◌+◌, ◌-◌, ◌*◌, ◌≤◌, ◌<◌, ◌≡◌, refl, ap, ◌∙◌, List, [], ◌∷◌, ◌++◌, arith, ltb, length,
  length-append, take, drop, false, Result, ok, err, Error, and_then, some, if◌then◌else◌, All,
  All-append, all, true, nat_eq,
}
use market_systems_workstati.Base.Int.{pos}
use market_systems_workstati.Base.Dict.{beq_refl}
use market_systems_workstati.Base.Bytes.{le_bytes, length-le_bytes}
use market_systems_workstati.Book.Types.{
  Level, make_level, make_snapshot, make_depth_update, make_trade, check_u64, int64_max, uint64_max,
}
use market_systems_workstati.Recording.Event.{L2Event, BoundaryReason, make_boundary, receipt_of}
use market_systems_workstati.Recording.Codec.{
  EventHeader, header_of, header_format, header_values, unpack_header, pack_levels, level_payload,
  is_packable, event_bids, event_asks, plain_header, full_header, pack_event, signed_64,
  unpack_levels, read_levels, event_of, snapshot_of, depth_of, trade_of, boundary_of, check_sizes,
  check_payload, read_record, read_body, event_header_size, level_size, max_levels_per_event,
  reason_code, reason_of,
}
use market_systems_workstati.Recording.Fields.{
  le_value-le_bytes, take-le_bytes, take-append, drop-append, append_assoc, HasRoom, Allowed,
  field_bytes, pack_fields-Allowed, unpack_fields-field_bytes,
}

-- A level that `Level(price, quantity)` accepts.
abbrev pub IsLevel : Level → Type 0
IsLevel l = (0 < l.price) × (l.price ≤ int64_max) × (l.quantity ≤ uint64_max)

make_level-IsLevel :
    (l : Level) → IsLevel l → make_level (signed_64 l.price) (pos l.quantity) ≡ ok l
unfolding make_level
make_level-IsLevel l h = ground (arith, h.0, h.1, h.2)

length-pack_levels : (ls : List Level) → length (pack_levels ls) ≡ length ls * level_size
length-pack_levels [] = refl
length-pack_levels (l ∷ ls) =
    length-append (le_bytes 8 l.price) (le_bytes 8 l.quantity ++ pack_levels ls)
    ∙ omega (
      arith,
      length-le_bytes 8 l.price,
      length-append (le_bytes 8 l.quantity) (pack_levels ls),
      length-le_bytes 8 l.quantity,
      length-pack_levels ls,
    )

take_price :
    (l : Level) (ys : List ℕ)
    → take 8 (le_bytes 8 l.price ++ (le_bytes 8 l.quantity ++ ys)) ≡ le_bytes 8 l.price
take_price l ys = take-le_bytes 8 l.price (le_bytes 8 l.quantity ++ ys)

unpack_levels-pack_levels :
    (ls : List Level) → All IsLevel ls → unpack_levels (length ls) (pack_levels ls) ≡ ok ls
unfolding unpack_levels
unpack_levels-pack_levels [] h = refl
unpack_levels-pack_levels (l ∷ ls) h =
    rw
      (
        le_value-le_bytes 8 l.price (omega (arith, h.0)),
        le_value-le_bytes 8 l.quantity (omega (arith, h.0)),
        make_level-IsLevel l h.0,
        unpack_levels-pack_levels ls h.1,
      )
      refl

-- An event, constructed again from its fields.
abbrev pub rebuilt : L2Event → Result L2Event
rebuilt (L2Event.snapshot e) =
    and_then (make_snapshot (pos e.receipt_timestamp_ns) (pos e.last_update_id) e.bids e.asks)
      (λ x. ok (L2Event.snapshot x))
rebuilt (L2Event.depth e) =
    and_then
      (make_depth_update (pos e.receipt_timestamp_ns) (pos e.event_time_ms) (pos e.first_update_id)
        (pos e.final_update_id) e.bids e.asks)
      (λ x. ok (L2Event.depth x))
rebuilt (L2Event.trade e) =
    and_then
      (make_trade (pos e.receipt_timestamp_ns) (pos e.event_time_ms) (pos e.aggregate_trade_id)
        (pos e.price) (pos e.quantity) e.buyer_is_maker)
      (λ x. ok (L2Event.trade x))
rebuilt (L2Event.boundary e) =
    and_then (make_boundary (pos e.receipt_timestamp_ns) e.reason) (λ x. ok (L2Event.boundary x))

-- An event that its constructor accepts, with at most the levels of a record.
pub record IsRecordable (e : L2Event) : Type 0 where
  pub accepted : rebuilt e ≡ ok e
  pub bid_levels : All IsLevel (event_bids e)
  pub ask_levels : All IsLevel (event_asks e)
  pub bid_room : length (event_bids e) ≤ max_levels_per_event
  pub ask_room : length (event_asks e) ≤ max_levels_per_event

read_levels-pack_levels :
    (bids asks : List Level)
    → All IsLevel bids
    → All IsLevel asks
    → read_levels (pack_levels (bids ++ asks)) (length bids) (length asks) ≡ ok (bids, asks)
unfolding read_levels
read_levels-pack_levels bids asks h k =
    rw
      (
        length-pack_levels (bids ++ asks),
        ← length-append bids asks,
        unpack_levels-pack_levels (bids ++ asks) (All-append IsLevel bids asks h k),
        beq_refl ⦃e = nat_eq⦄ (length (bids ++ asks) * level_size),
        take-append bids asks,
        drop-append bids asks,
      )
      refl

reason_of-reason_code : (r : BoundaryReason) → reason_of (reason_code r) ≡ some r
unfolding reason_of
reason_of-reason_code BoundaryReason.connection_start = refl
reason_of-reason_code BoundaryReason.sequence_gap = refl
reason_of-reason_code BoundaryReason.snapshot_retry = refl
reason_of-reason_code BoundaryReason.user_stop = refl
reason_of-reason_code BoundaryReason.queue_overflow = refl
reason_of-reason_code BoundaryReason.connection_end = refl

reason_code_small : (r : BoundaryReason) → reason_code r ≤ 6
reason_code_small r = ground arith

header_format-HasRoom : HasRoom header_format
header_format-HasRoom = ground arith

-- What the constructors' checks say of the fields of a header.
abbrev IsBounded : EventHeader → Type 0
IsBounded h =
    (h.raw_type ≤ 4)
    × (h.flags ≤ 6)
    × (h.receipt ≤ uint64_max)
    × (h.exchange_time ≤ uint64_max)
    × (h.first_id ≤ uint64_max)
    × (h.final_id ≤ uint64_max)
    × (h.trade_price ≤ int64_max)
    × (h.trade_quantity ≤ uint64_max)
    × (0 < h.receipt)

plain_header-IsBounded : (e : L2Event) → rebuilt e ≡ ok e → IsBounded (plain_header e)
unfolding make_snapshot make_depth_update make_trade make_boundary check_u64 make_level
plain_header-IsBounded (L2Event.snapshot e) h = ground (arith, h)
plain_header-IsBounded (L2Event.depth e) h = ground (arith, h)
plain_header-IsBounded (L2Event.trade e) h = ground (arith, h)
plain_header-IsBounded (L2Event.boundary e) h = ground (arith, h, reason_code_small e.reason)

module _ (crc32 : List ℕ → ℕ) where
  event_of-full_header :
      (e : L2Event) (payload : List ℕ)
      → rebuilt e ≡ ok e
      → event_of (full_header crc32 e payload) (event_bids e) (event_asks e) ≡ ok e
  unfolding event_of snapshot_of depth_of trade_of boundary_of make_snapshot make_trade check_u64
      make_level
  event_of-full_header (L2Event.snapshot e) payload h = ground (arith, h)
  event_of-full_header (L2Event.depth e) payload h = h
  event_of-full_header (L2Event.trade e) payload h = ground (arith, h)
  event_of-full_header (L2Event.boundary e) payload h = rw (reason_of-reason_code e.reason) h

  full_header-Allowed :
      (e : L2Event)
      → IsRecordable e
      → let payload = pack_levels (event_bids e ++ event_asks e) in
        Allowed header_format (header_values (full_header crc32 e payload))
  full_header-Allowed e r =
      let b = plain_header-IsBounded e r.accepted in
      let size = length-pack_levels (event_bids e ++ event_asks e) in
      let both = length-append (event_bids e) (event_asks e) in
      ground (arith, b, size, both, r.bid_room, r.ask_room)

  unpack_header-field_bytes :
      (h : EventHeader) (ys : List ℕ)
      → Allowed header_format (header_values h)
      → unpack_header (field_bytes header_format (header_values h) ++ ys) ≡ h
  unfolding unpack_header
  unpack_header-field_bytes h ys a =
      ap header_of
        (unpack_fields-field_bytes header_format (header_values h) ys refl header_format-HasRoom a)

  -- The payload of an event, and its whole record.
  abbrev pub payload_of : L2Event → List ℕ
  payload_of e = pack_levels (event_bids e ++ event_asks e)

  abbrev pub record_of : L2Event → List ℕ
  record_of e =
      field_bytes header_format (header_values (full_header crc32 e (payload_of e))) ++ payload_of e

  reserved_plain_header : (e : L2Event) → (plain_header e).reserved ≡ 0
  reserved_plain_header (L2Event.snapshot e) = refl
  reserved_plain_header (L2Event.depth e) = refl
  reserved_plain_header (L2Event.trade e) = refl
  reserved_plain_header (L2Event.boundary e) = refl

  receipt_plain_header : (e : L2Event) → receipt_of e ≡ (plain_header e).receipt
  receipt_plain_header (L2Event.snapshot e) = refl
  receipt_plain_header (L2Event.depth e) = refl
  receipt_plain_header (L2Event.trade e) = refl
  receipt_plain_header (L2Event.boundary e) = refl

  all_packable : (ls : List Level) → All IsLevel ls → all is_packable ls ≡ true
  all_packable [] h = refl
  all_packable (l ∷ ls) h = ground (arith, h.0, all_packable ls h.1)

  pub pack_event-record_of : (e : L2Event) → IsRecordable e → pack_event crc32 e ≡ ok (record_of e)
  unfolding pack_event level_payload
  pack_event-record_of e r =
      let packed =
        pack_fields-Allowed header_format (header_values (full_header crc32 e (payload_of e))) refl
          (full_header-Allowed e r) in
      ground (
        arith,
        receipt_plain_header e,
        plain_header-IsBounded e r.accepted,
        r.bid_room,
        r.ask_room,
        all_packable (event_bids e ++ event_asks e)
            (All-append IsLevel (event_bids e) (event_asks e) r.bid_levels r.ask_levels),
        packed,
      )

  check_sizes-full_header :
      (e : L2Event)
      → IsRecordable e
      → check_sizes crc32 (full_header crc32 e (payload_of e)) ≡ ok tt
  unfolding check_sizes
  check_sizes-full_header e r = ground (
    arith,
    r.bid_room,
    r.ask_room,
    length-pack_levels (event_bids e ++ event_asks e),
    length-append (event_bids e) (event_asks e),
    reserved_plain_header e,
  )

  check_payload-full_header :
      (e : L2Event)
      → check_payload crc32 (full_header crc32 e (payload_of e)) (payload_of e) ≡ ok tt
  unfolding check_payload
  check_payload-full_header e = ground arith

  regained : (n : ℕ) → event_header_size + n - event_header_size ≡ n
  regained n = omega arith

  length-record_of :
      (e : L2Event) → event_header_size + length (payload_of e) ≡ length (record_of e)
  length-record_of e = omega arith

  payload_part :
      (e : L2Event) (rest : List ℕ)
      → let h = full_header crc32 e (payload_of e) in
        take (h.record_size - event_header_size) (drop event_header_size (record_of e ++ rest))
        ≡ payload_of e
  payload_part e rest =
      ap (λ n. take n (payload_of e ++ rest)) (regained (length (payload_of e)))
      ∙ take-append (payload_of e) rest

  rest_part :
      (e : L2Event) (rest : List ℕ)
      → drop (full_header crc32 e (payload_of e)).record_size (record_of e ++ rest) ≡ rest
  rest_part e rest =
      ap (λ n. drop n (record_of e ++ rest)) (length-record_of e) ∙ drop-append (record_of e) rest

  read_body-record_of :
      (e : L2Event) (rest : List ℕ)
      → IsRecordable e
      → read_body crc32 (full_header crc32 e (payload_of e)) (record_of e ++ rest)
        ≡ ok (some (e, rest))
  unfolding read_body
  read_body-record_of e rest r =
      rw
        (
          payload_part e rest,
          rest_part e rest,
          check_sizes-full_header e r,
          check_payload-full_header e,
          read_levels-pack_levels (event_bids e) (event_asks e) r.bid_levels r.ask_levels,
          event_of-full_header e (payload_of e) r.accepted,
        )
        refl

  unpack_header-record_of :
      (e : L2Event) (rest : List ℕ)
      → IsRecordable e
      → unpack_header (record_of e ++ rest) ≡ full_header crc32 e (payload_of e)
  unpack_header-record_of e rest r =
      ap unpack_header (
        append_assoc
          (field_bytes header_format (header_values (full_header crc32 e (payload_of e))))
          (payload_of e) rest)
      ∙ unpack_header-field_bytes (full_header crc32 e (payload_of e)) (payload_of e ++ rest)
          (full_header-Allowed e r)

  long_enough :
      (e : L2Event) (rest : List ℕ) → ltb (length (record_of e ++ rest)) event_header_size ≡ false
  long_enough e rest = ground arith

  pub read_record-record_of :
      (e : L2Event) (rest : List ℕ)
      → IsRecordable e
      → read_record crc32 (record_of e ++ rest) ≡ ok (some (e, rest))
  unfolding read_record
  read_record-record_of e rest r =
      past_checks (long_enough e rest)
      ∙ ap (λ h. read_body crc32 h (record_of e ++ rest)) (unpack_header-record_of e rest r)
      ∙ read_body-record_of e rest r
    where
      past_checks :
          ltb (length (record_of e ++ rest)) event_header_size ≡ false
          → read_record crc32 (record_of e ++ rest)
            ≡ read_body crc32 (unpack_header (record_of e ++ rest)) (record_of e ++ rest)
      past_checks h =
          ap
            (λ b.
              if b
              then err Error.truncated_header
              else read_body crc32 (unpack_header (record_of e ++ rest)) (record_of e ++ rest))
            h

  -- An event that its constructor accepts, with at most the levels of a record, is packed without a
  -- raise, and reading what was packed, whatever follows it, gives the event back and what follows.
  -- This includes a snapshot with levels of quantity zero, which the format document forbids.
  pub read_record-pack_event :
      (e : L2Event) (rest : List ℕ)
      → IsRecordable e
      → (raw : List ℕ) × (pack_event crc32 e ≡ ok raw)
        × (read_record crc32 (raw ++ rest) ≡ ok (some (e, rest)))
  read_record-pack_event e rest r =
      (record_of e, pack_event-record_of e r, read_record-record_of e rest r)
