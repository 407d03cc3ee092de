-- ===== src/Recording/Codec.antt =====
-- market_engine/recording/l2.py: the binary records of a recording, `_level_payload`, `_pack_event`,
-- `_read_levels` and one round of `iter_events`. `zlib.crc32` is a parameter.
use market_systems_workstati.Base.{
  ℕ, all, ◌&&◌, zero, suc, ◌+◌, ◌-◌, ◌*◌, ◌/◌, ◌%◌, ◌^◌, Bool, not, ◌||◌, Option, none, some, List,
  [], ◌∷◌, ◌++◌, ltb, leb, ◌==◌, nat_eq, if◌then◌else◌, length, take, drop, Result, ok, err, Error,
  and_then,
}
use market_systems_workstati.Base.Int.{ℤ, pos, ◌-ℤ◌}
use market_systems_workstati.Base.Bytes.{le_bytes, le_value}
use market_systems_workstati.Book.Types.{
  Level, make_level, make_snapshot, make_depth_update, make_trade, int64_max, uint64_max,
}
use market_systems_workstati.Book.{is_empty}
use market_systems_workstati.Recording.Event.{L2Event, BoundaryReason, make_boundary, receipt_of}

abbrev pub uint32_max : ℕ
uint32_max = 4294967295

abbrev pub event_header_size : ℕ
event_header_size = 80

abbrev pub level_size : ℕ
level_size = 16

abbrev pub max_levels_per_event : ℕ
max_levels_per_event = 20000

-- The fields of `EVENT_HEADER_STRUCT`, in their order; `trade_price` as the 64 bits stored.
pub record EventHeader : Type 0 where
  pub raw_type : ℕ
  pub flags : ℕ
  pub receipt : ℕ
  pub exchange_time : ℕ
  pub first_id : ℕ
  pub final_id : ℕ
  pub bid_count : ℕ
  pub ask_count : ℕ
  pub trade_price : ℕ
  pub trade_quantity : ℕ
  pub payload_crc : ℕ
  pub record_size : ℕ
  pub reserved : ℕ

-- `<IIQQQQIIqQIIQ`: the bytes of each field, and its largest value (prices are not negative).
abbrev pub header_format : List (ℕ × ℕ)
header_format =
    (4, uint32_max)
    ∷ (4, uint32_max)
    ∷ (8, uint64_max)
    ∷ (8, uint64_max)
    ∷ (8, uint64_max)
    ∷ (8, uint64_max)
    ∷ (4, uint32_max)
    ∷ (4, uint32_max)
    ∷ (8, int64_max)
    ∷ (8, uint64_max)
    ∷ (4, uint32_max)
    ∷ (4, uint32_max)
    ∷ (8, uint64_max)
    ∷ []

abbrev pub header_values : EventHeader → List ℕ
header_values h =
    h.raw_type ∷ h.flags ∷ h.receipt ∷ h.exchange_time ∷ h.first_id ∷ h.final_id ∷ h.bid_count
    ∷ h.ask_count ∷ h.trade_price ∷ h.trade_quantity ∷ h.payload_crc ∷ h.record_size ∷ h.reserved
    ∷ []

-- `Struct.pack`: raises `struct.error` for a value out of range.
unfoldable pub pack_fields : List (ℕ × ℕ) → List ℕ → Result (List ℕ)
pack_fields [] [] = ok []
pack_fields [] (v ∷ vs) = err Error.unpackable
pack_fields (f ∷ fs) [] = err Error.unpackable
pack_fields ((size, most) ∷ fs) (v ∷ vs) =
    let rest = pack_fields fs vs in
    if ltb most v then err Error.unpackable else and_then rest (λ raw. ok (le_bytes size v ++ raw))

-- `Struct.unpack` of as many bytes as the format has.
unfoldable pub unpack_fields : List (ℕ × ℕ) → List ℕ → List ℕ
unpack_fields [] raw = []
unpack_fields ((size, most) ∷ fs) raw = le_value (take size raw) ∷ unpack_fields fs (drop size raw)

-- Field `i`; the index is always one of the format's.
abbrev pub field : ℕ → List ℕ → ℕ
field i [] = 0
field zero (v ∷ vs) = v
field (suc i) (v ∷ vs) = field i vs

abbrev pub header_of : List ℕ → EventHeader
header_of vs = record {
  raw_type = field 0 vs;
  flags = field 1 vs;
  receipt = field 2 vs;
  exchange_time = field 3 vs;
  first_id = field 4 vs;
  final_id = field 5 vs;
  bid_count = field 6 vs;
  ask_count = field 7 vs;
  trade_price = field 8 vs;
  trade_quantity = field 9 vs;
  payload_crc = field 10 vs;
  record_size = field 11 vs;
  reserved = field 12 vs;
}

unfoldable pub unpack_header : List ℕ → EventHeader
unfolding unpack_fields
unpack_header raw = header_of (unpack_fields header_format raw)

abbrev pub pack_levels : List Level → List ℕ
pack_levels [] = []
pack_levels (l ∷ ls) = le_bytes 8 l.price ++ (le_bytes 8 l.quantity ++ pack_levels ls)

-- `LEVEL_STRUCT.pack_into` does not raise: a price of 63 bits and a quantity of 64 bits.
abbrev pub is_packable : Level → Bool
is_packable l = leb l.price int64_max && leb l.quantity uint64_max

-- `_level_payload`
unfoldable pub level_payload : List Level → List Level → Result (List ℕ)
level_payload bids asks =
    if ltb max_levels_per_event (length bids) || ltb max_levels_per_event (length asks)
    then err Error.too_many_levels
    else if all is_packable (bids ++ asks)
    then ok (pack_levels (bids ++ asks))
    else err Error.unpackable

abbrev pub reason_code : BoundaryReason → ℕ
reason_code BoundaryReason.connection_start = 1
reason_code BoundaryReason.sequence_gap = 2
reason_code BoundaryReason.snapshot_retry = 3
reason_code BoundaryReason.user_stop = 4
reason_code BoundaryReason.queue_overflow = 5
reason_code BoundaryReason.connection_end = 6

-- `BoundaryReason(flags)`
unfoldable pub reason_of : ℕ → Option BoundaryReason
reason_of n =
    if n == 1
    then some BoundaryReason.connection_start
    else if n == 2
    then some BoundaryReason.sequence_gap
    else if n == 3
    then some BoundaryReason.snapshot_retry
    else if n == 4
    then some BoundaryReason.user_stop
    else if n == 5
    then some BoundaryReason.queue_overflow
    else if n == 6
    then some BoundaryReason.connection_end
    else none

abbrev pub event_bids : L2Event → List Level
event_bids (L2Event.snapshot e) = e.bids
event_bids (L2Event.depth e) = e.bids
event_bids (L2Event.trade e) = []
event_bids (L2Event.boundary e) = []

abbrev pub event_asks : L2Event → List Level
event_asks (L2Event.snapshot e) = e.asks
event_asks (L2Event.depth e) = e.asks
event_asks (L2Event.trade e) = []
event_asks (L2Event.boundary e) = []

-- The branches of `_pack_event`, without what depends on the levels.
abbrev pub plain_header : L2Event → EventHeader
plain_header (L2Event.snapshot e) = record {
  raw_type = 1;
  flags = 0;
  receipt = e.receipt_timestamp_ns;
  exchange_time = 0;
  first_id = e.last_update_id;
  final_id = e.last_update_id;
  bid_count = 0;
  ask_count = 0;
  trade_price = 0;
  trade_quantity = 0;
  payload_crc = 0;
  record_size = 0;
  reserved = 0;
}
plain_header (L2Event.depth e) = record {
  raw_type = 2;
  flags = 0;
  receipt = e.receipt_timestamp_ns;
  exchange_time = e.event_time_ms;
  first_id = e.first_update_id;
  final_id = e.final_update_id;
  bid_count = 0;
  ask_count = 0;
  trade_price = 0;
  trade_quantity = 0;
  payload_crc = 0;
  record_size = 0;
  reserved = 0;
}
plain_header (L2Event.trade e) = record {
  raw_type = 3;
  flags = if e.buyer_is_maker then 1 else 0;
  receipt = e.receipt_timestamp_ns;
  exchange_time = e.event_time_ms;
  first_id = e.aggregate_trade_id;
  final_id = 0;
  bid_count = 0;
  ask_count = 0;
  trade_price = e.price;
  trade_quantity = e.quantity;
  payload_crc = 0;
  record_size = 0;
  reserved = 0;
}
plain_header (L2Event.boundary e) = record {
  raw_type = 4;
  flags = reason_code e.reason;
  receipt = e.receipt_timestamp_ns;
  exchange_time = 0;
  first_id = 0;
  final_id = 0;
  bid_count = 0;
  ask_count = 0;
  trade_price = 0;
  trade_quantity = 0;
  payload_crc = 0;
  record_size = 0;
  reserved = 0;
}

module _ (crc32 : List ℕ → ℕ) where
  abbrev pub full_header : L2Event → List ℕ → EventHeader
  full_header e payload = record (plain_header e) {
    bid_count = length (event_bids e);
    ask_count = length (event_asks e);
    payload_crc = crc32 payload % 2 ^ 32;
    record_size = event_header_size + length payload;
  }

  -- `_pack_event`
  unfoldable pub pack_event : L2Event → Result (List ℕ)
  unfolding level_payload pack_fields
  pack_event e =
      if receipt_of e == 0
      then err Error.bad_receipt
      else and_then (level_payload (event_bids e) (event_asks e)) λ payload.
        and_then (pack_fields header_format (header_values (full_header e payload)))
          λ header. ok (header ++ payload)

-- The two's complement of the `q` fields.
abbrev pub signed_64 : ℕ → ℤ
signed_64 raw = if leb raw int64_max then pos raw else pos raw -ℤ pos (2 ^ 64)

-- The loop of `_read_levels`, for as many levels as the payload was checked to have.
unfoldable pub unpack_levels : ℕ → List ℕ → Result (List Level)
unfolding make_level
unpack_levels zero raw = ok []
unpack_levels (suc n) raw =
    let rest = unpack_levels n (drop 16 raw) in
    and_then (make_level (signed_64 (le_value (take 8 raw))) (pos (le_value (take 8 (drop 8 raw)))))
      λ l. and_then rest λ ls. ok (l ∷ ls)

-- `_read_levels`
unfoldable pub read_levels : List ℕ → ℕ → ℕ → Result (List Level × List Level)
unfolding unpack_levels
read_levels payload bid_count ask_count =
    if not (length payload == (bid_count + ask_count) * level_size)
    then err Error.size_disagrees
    else and_then (unpack_levels (bid_count + ask_count) payload)
        λ ls. ok (take bid_count ls, drop bid_count ls)

abbrev some_set : ℕ → Bool
some_set v = ltb 0 v

-- The branches of `iter_events`: the event of a header and its levels.
unfoldable pub snapshot_of : EventHeader → List Level → List Level → Result L2Event
unfolding make_snapshot
snapshot_of h bids asks =
    if some_set h.flags
      || not (h.first_id == h.final_id)
      || h.first_id == 0
      || some_set h.exchange_time
      || some_set h.trade_price
      || some_set h.trade_quantity
    then err Error.bad_snapshot_header
    else and_then (make_snapshot (pos h.receipt) (pos h.first_id) bids asks)
        (λ e. ok (L2Event.snapshot e))

unfoldable pub depth_of : EventHeader → List Level → List Level → Result L2Event
unfolding make_depth_update
depth_of h bids asks =
    if some_set h.flags || some_set h.trade_price || some_set h.trade_quantity
    then err Error.bad_depth_header
    else and_then
        (make_depth_update (pos h.receipt) (pos h.exchange_time) (pos h.first_id) (pos h.final_id)
          bids asks)
        (λ e. ok (L2Event.depth e))

unfoldable pub trade_of : EventHeader → List Level → List Level → Result L2Event
unfolding make_trade
trade_of h bids asks =
    if some_set (h.flags / 2)
      || not (is_empty bids)
      || not (is_empty asks)
      || some_set h.final_id
      || h.first_id == 0
      || h.trade_price == 0
      || ltb int64_max h.trade_price
      || h.trade_quantity == 0
    then err Error.bad_trade_header
    else and_then
        (make_trade (pos h.receipt) (pos h.exchange_time) (pos h.first_id) (pos h.trade_price)
          (pos h.trade_quantity) (h.flags % 2 == 1))
        (λ e. ok (L2Event.trade e))

unfoldable pub boundary_of : EventHeader → List Level → List Level → Result L2Event
unfolding make_boundary
boundary_of h bids asks =
    if some_set h.exchange_time
      || not (is_empty bids)
      || not (is_empty asks)
      || some_set h.first_id
      || some_set h.final_id
      || some_set h.trade_price
      || some_set h.trade_quantity
    then err Error.bad_boundary_header
    else elim (reason_of h.flags) [
      | none ↦ err Error.bad_reason
      | some reason ↦ and_then (make_boundary (pos h.receipt) reason) (λ e. ok (L2Event.boundary e))
    ]

unfoldable pub event_of : EventHeader → List Level → List Level → Result L2Event
unfolding snapshot_of depth_of trade_of boundary_of
event_of h bids asks =
    if h.raw_type == 1
    then snapshot_of h bids asks
    else if h.raw_type == 2
    then depth_of h bids asks
    else if h.raw_type == 3
    then trade_of h bids asks
    else if h.raw_type == 4
    then boundary_of h bids asks
    else err Error.bad_event_type

module _ (crc32 : List ℕ → ℕ) where
  -- The checks of `iter_events` on the sizes that a header declares.
  unfoldable pub check_sizes : EventHeader → Result (Unit {0})
  check_sizes h =
      if some_set h.reserved
      then err Error.bad_reserved
      else if ltb h.record_size event_header_size
          || ltb (event_header_size + max_levels_per_event * level_size * 2) h.record_size
      then err Error.bad_record_size
      else if ltb max_levels_per_event h.bid_count || ltb max_levels_per_event h.ask_count
      then err Error.too_many_levels
      else if not (h.record_size == event_header_size + (h.bid_count + h.ask_count) * level_size)
      then err Error.size_disagrees
      else ok tt

  -- The payload of a record: whole, and with the CRC that the header has.
  unfoldable pub check_payload : EventHeader → List ℕ → Result (Unit {0})
  check_payload h payload =
      if not (length payload + event_header_size == h.record_size)
      then err Error.truncated_payload
      else if not (crc32 payload % 2 ^ 32 == h.payload_crc)
      then err Error.crc_mismatch
      else ok tt

  -- The rest of a round of the loop of `iter_events`, with the header of what is left of the file.
  unfoldable pub read_body : EventHeader → List ℕ → Result (Option (L2Event × List ℕ))
  unfolding check_sizes check_payload read_levels event_of
  read_body h raw =
      let payload = take (h.record_size - event_header_size) (drop event_header_size raw) in
      and_then (check_sizes h) λ _. and_then (check_payload h payload) λ _.
        and_then (read_levels payload h.bid_count h.ask_count)
          λ (bids, asks). and_then (event_of h bids asks) λ e. ok (some (e, drop h.record_size raw))

  -- One round of the loop on what is left of the file: no event at its end, else an event and what is
  -- left after it.
  unfoldable pub read_record : List ℕ → Result (Option (L2Event × List ℕ))
  unfolding unpack_header read_body
  read_record raw =
      if is_empty raw
      then ok none
      else if ltb (length raw) event_header_size
      then err Error.truncated_header
      else read_body (unpack_header raw) raw
