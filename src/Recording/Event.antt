-- ===== src/Recording/Event.antt =====
-- market_engine/recording/l2.py: the events of a recording.
use market_systems_workstati.Base.{ℕ, Result, ok, err, Error, if◌then◌else◌, ◌||◌}
use market_systems_workstati.Base.Int.{ℤ, pos, pos_part, leb_ℤ, ltb_ℤ}
use market_systems_workstati.Book.Types.{Snapshot, DepthUpdate, Trade, uint64_max}

pub data BoundaryReason : Type 0 where
  connection_start sequence_gap snapshot_retry user_stop queue_overflow connection_end :
      BoundaryReason

pub record Boundary : Type 0 where
  pub receipt_timestamp_ns : ℕ
  pub reason : BoundaryReason

-- `Boundary(receipt_timestamp_ns, reason)`
unfoldable pub make_boundary : ℤ → BoundaryReason → Result Boundary
make_boundary receipt reason =
    if leb_ℤ receipt (pos 0) || ltb_ℤ (pos uint64_max) receipt
    then err Error.bad_receipt
    else ok (record { receipt_timestamp_ns = pos_part receipt; reason = reason })

pub data L2Event : Type 0 where
  snapshot : Snapshot → L2Event
  depth : DepthUpdate → L2Event
  trade : Trade → L2Event
  boundary : Boundary → L2Event

-- `event.receipt_timestamp_ns`
abbrev pub receipt_of : L2Event → ℕ
receipt_of (L2Event.snapshot e) = e.receipt_timestamp_ns
receipt_of (L2Event.depth e) = e.receipt_timestamp_ns
receipt_of (L2Event.trade e) = e.receipt_timestamp_ns
receipt_of (L2Event.boundary e) = e.receipt_timestamp_ns
