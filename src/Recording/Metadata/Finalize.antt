-- ===== src/Recording/Metadata/Finalize.antt =====
-- market_engine/recording/l2.py: `L2Writer.finalize` and `abort`.
use market_systems_workstati.Base.{
  ℕ, Bool, true, not, ◌&&◌, ◌||◌, Option, none, some, List, [], ◌∷◌, ◌++◌, ltb, ◌==◌, nat_eq,
  list_eq, if◌then◌else◌, Result, ok, err, Error, Action, and_then, raise_if,
}
use market_systems_workstati.Base.Int.{ℤ, pos, pos_part, ltb_ℤ}
use market_systems_workstati.Book.Types.{
  uint64_max, price_scale as unit_of_price, quantity_scale as unit_of_quantity,
}
use market_systems_workstati.Recording.Codec.{pack_fields}
use market_systems_workstati.Recording.Writer.{
  Checkpoint, Writer, checkpoint_magic, checkpoint_header_format, checkpoint_header_size,
  checkpoint_size,
}
use market_systems_workstati.Recording.Metadata.{
  Key, Json, Document, Sidecar, Folder, Totals, source_name, stream_name, checkpoint_suffix,
}
use market_systems_workstati.Recording.Metadata.Reading.{Metadata, read_metadata}

abbrev pub checkpoint_header_values : ℕ → List ℕ
checkpoint_header_values created = 1 ∷ checkpoint_header_size ∷ checkpoint_size ∷ 0 ∷ created ∷ []

-- The header of the checkpoint file that the constructor of `L2Writer` writes.
unfoldable pub pack_checkpoint_header : ℕ → Result (List ℕ)
unfolding pack_fields
pack_checkpoint_header created =
    and_then (pack_fields checkpoint_header_format (checkpoint_header_values created))
      (λ raw. ok (checkpoint_magic ++ raw))

-- The arguments of `finalize`; `extra` is how `json.dumps(extra)` ends.
pub record Closing : Type 0 where
  pub clean_shutdown : Bool
  pub final_update_id : ℤ
  pub final_state_hash : ℤ
  pub sequence_gaps : ℤ
  pub snapshot_retries : ℤ
  pub queue_drops : ℤ
  pub malformed_messages : ℤ
  pub extra : Result (Unit {0})

abbrev pub counter : ℤ → Result ℕ
counter z =
    if ltb_ℤ z (pos 0) || ltb_ℤ (pos uint64_max) z then err Error.bad_counter else ok (pos_part z)

-- `data_complete`, from the writer's counts.
abbrev pub is_complete : Writer → Bool → ℕ → ℕ → ℕ → ℕ → Bool
is_complete w clean id hash drops malformed =
    clean
    && drops == 0
    && malformed == 0
    && ltb 0 w.event_count
    && ltb 0 w.snapshot_count
    && ltb 0 w.depth_count
    && ltb 0 w.checkpoint_count
    && ltb 0 id
    && ltb 0 hash

-- The checks of `finalize` on its arguments, and the totals for the sidecar.
unfoldable pub closing_totals : Writer → Closing → Result Totals
closing_totals w a = and_then (counter a.final_update_id) λ id.
    and_then (counter a.final_state_hash) λ hash. and_then (counter a.sequence_gaps) λ gaps.
      and_then (counter a.snapshot_retries) λ retries. and_then (counter a.queue_drops) λ drops.
        and_then (counter a.malformed_messages) λ malformed. and_then a.extra λ _. ok (record {
          clean_shutdown = a.clean_shutdown;
          data_complete = is_complete w a.clean_shutdown id hash drops malformed;
          final_update_id = id;
          final_state_hash = hash;
          sequence_gaps = gaps;
          snapshot_retries = retries;
          queue_drops = drops;
          malformed_messages = malformed;
        })

abbrev pub final_checkpoint : Option Checkpoint → Writer → Totals → Result (Unit {0})
final_checkpoint none w t = err Error.no_final_checkpoint
final_checkpoint (some c) w t =
    raise_if
      (not (c.event_index == w.event_count)
        || not (c.update_id == t.final_update_id)
        || not (c.state_hash == t.final_state_hash))
      Error.final_checkpoint_differs

-- The checks on the last checkpoint of a complete recording.
unfoldable pub check_final_checkpoint : Writer → Totals → Result (Unit {0})
check_final_checkpoint w t =
    if t.data_complete then final_checkpoint w.last_checkpoint w t else ok tt

-- `payload`, without `extra`, with the name of the recording, its creation time and the two digests.
abbrev pub payload : List ℕ → ℕ → List ℕ → List ℕ → Writer → Totals → Sidecar
payload name created hash checkpoint_hash w t Key.schema_version = some (Json.integer (pos 1))
payload name created hash checkpoint_hash w t Key.binary_version = some (Json.integer (pos 1))
payload name created hash checkpoint_hash w t Key.source = some (Json.string source_name)
payload name created hash checkpoint_hash w t Key.symbol = some (Json.string w.symbol)
payload name created hash checkpoint_hash w t Key.stream = some (Json.string stream_name)
payload name created hash checkpoint_hash w t Key.recording_file = some (Json.string name)
payload name created hash checkpoint_hash w t Key.checkpoint_file =
    some (Json.string (name ++ checkpoint_suffix))
payload name created hash checkpoint_hash w t Key.created_unix_ns =
    some (Json.integer (pos created))
payload name created hash checkpoint_hash w t Key.price_scale =
    some (Json.integer (pos unit_of_price))
payload name created hash checkpoint_hash w t Key.quantity_scale =
    some (Json.integer (pos unit_of_quantity))
payload name created hash checkpoint_hash w t Key.clean_shutdown =
    some (Json.boolean t.clean_shutdown)
payload name created hash checkpoint_hash w t Key.data_complete =
    some (Json.boolean t.data_complete)
payload name created hash checkpoint_hash w t Key.event_count =
    some (Json.integer (pos w.event_count))
payload name created hash checkpoint_hash w t Key.snapshot_count =
    some (Json.integer (pos w.snapshot_count))
payload name created hash checkpoint_hash w t Key.depth_count =
    some (Json.integer (pos w.depth_count))
payload name created hash checkpoint_hash w t Key.trade_count =
    some (Json.integer (pos w.trade_count))
payload name created hash checkpoint_hash w t Key.boundary_count =
    some (Json.integer (pos w.boundary_count))
payload name created hash checkpoint_hash w t Key.checkpoint_count =
    some (Json.integer (pos w.checkpoint_count))
payload name created hash checkpoint_hash w t Key.final_update_id =
    some (Json.integer (pos t.final_update_id))
payload name created hash checkpoint_hash w t Key.final_state_hash =
    some (Json.integer (pos t.final_state_hash))
payload name created hash checkpoint_hash w t Key.sequence_gaps =
    some (Json.integer (pos t.sequence_gaps))
payload name created hash checkpoint_hash w t Key.snapshot_retries =
    some (Json.integer (pos t.snapshot_retries))
payload name created hash checkpoint_hash w t Key.queue_drops =
    some (Json.integer (pos t.queue_drops))
payload name created hash checkpoint_hash w t Key.malformed_messages =
    some (Json.integer (pos t.malformed_messages))
payload name created hash checkpoint_hash w t Key.sha256 = some (Json.string hash)
payload name created hash checkpoint_hash w t Key.checkpoint_sha256 =
    some (Json.string checkpoint_hash)

-- What the constructor of a writer fixed: its file's name and creation time, and the two headers.
pub record Identity : Type 0 where
  pub name : List ℕ
  pub created_unix_ns : ℕ
  pub header : List ℕ
  pub checkpoint_header : List ℕ

-- The bytes of the two files of a writer.
abbrev pub recording_bytes : Identity → Writer → List ℕ
recording_bytes i w = i.header ++ w.stream

abbrev pub checkpoint_file_bytes : Identity → Writer → List ℕ
checkpoint_file_bytes i w = i.checkpoint_header ++ w.checkpoint_stream

-- The directory once the streams are closed and the sidecar is published.
abbrev pub published : Identity → Writer → Sidecar → Folder → Folder
published i w s folder = record {
  recording = some (recording_bytes i w);
  companion = λ name.
      if name == i.name ++ checkpoint_suffix
      then some (checkpoint_file_bytes i w)
      else folder.companion name;
  sidecar = some (ok (Document.object s));
}

pub record Artifact : Type 0 where
  pub writer : Writer
  pub folder : Folder

module _ (crc32 : List ℕ → ℕ) (digest : List ℕ → List ℕ) (last_part : List ℕ → List ℕ) where
  -- The end of `finalize`: the streams are closed and the sidecar is written and read.
  unfoldable pub publish : Identity → Totals → Action Artifact Metadata
  unfolding read_metadata
  publish i t a =
      let w = a.writer in
      let s =
        payload i.name i.created_unix_ns (digest (recording_bytes i w))
          (digest (checkpoint_file_bytes i w)) w t in
      let folder = published i w s a.folder in
      (
        read_metadata crc32 digest last_part true folder i.name,
        record { writer = record w { closed = true }; folder = folder },
      )

  -- `finalize`
  unfoldable pub finalize : Identity → Closing → Action Artifact Metadata
  unfolding closing_totals check_final_checkpoint publish read_metadata
  finalize i closing a =
      if a.writer.closed
      then (read_metadata crc32 digest last_part true a.folder i.name, a)
      else elim (closing_totals a.writer closing) [
        | err e ↦ (err e, a)
        | ok t ↦ elim (check_final_checkpoint a.writer t) [
          | err e ↦ (err e, a)
          | ok _ ↦ publish i t a
        ]
      ]

-- `abort`
abbrev pub abort : Writer → Writer
abort w = if w.closed then w else record w { closed = true }
