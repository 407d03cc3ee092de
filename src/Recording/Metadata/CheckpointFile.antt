-- ===== src/Recording/Metadata/CheckpointFile.antt =====
-- The checkpoint file of an `L2Writer` (market_engine/recording/l2.py): its header, which the constructor
-- writes, and the records, against `read_checkpoints`.
use market_systems_workstati.Base.{ℕ, ◌+◌, ◌≤◌, ◌≡◌, sym, some, List, ◌++◌, length, last?, ok}
use market_systems_workstati.Book.Types.{uint64_max}
use market_systems_workstati.Recording.Writer.{Checkpoint, Writer, read_checkpoints}
use market_systems_workstati.Recording.Checkpoints.{Written, Written-HasLog}
use market_systems_workstati.Recording.Metadata.Finalize.{pack_checkpoint_header}
use market_systems_workstati.Recording.Metadata.Trip.{
  checkpoint_header_bytes, pack_checkpoint_header_lem, read_checkpoints-logged,
}

-- If the creation time fits 64 bits, the constructor packs the header of the checkpoint file. Whatever
-- events and checkpoints the writer was then given, raising calls included, read_checkpoints accepts the
-- whole file, header and creation time checked, and gives as many checkpoints as the writer counted, the
-- last of them the last that it wrote; and its event count is the sum of the counts of the four types.
pub Written-read_checkpoints :
    (crc32 : List ℕ → ℕ) (created : ℕ) {w : Writer}
    → created ≤ uint64_max
    → Written crc32 w
    → (header : List ℕ) × (cs : List Checkpoint) × (pack_checkpoint_header created ≡ ok header)
      × (read_checkpoints (some created) (header ++ w.checkpoint_stream) ≡ ok cs)
      × (length cs ≡ w.checkpoint_count)
      × (last? cs ≡ w.last_checkpoint)
      × (w.event_count ≡ w.snapshot_count + w.depth_count + w.trade_count + w.boundary_count)
Written-read_checkpoints crc32 created {w = w} small t =
    let (cs, l) = Written-HasLog crc32 t in
    (
      checkpoint_header_bytes created,
      cs,
      pack_checkpoint_header_lem created small,
      read_checkpoints-logged created cs w small l,
      sym l.number,
      sym l.last,
      l.events,
    )
