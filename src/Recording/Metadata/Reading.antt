-- ===== src/Recording/Metadata/Reading.antt =====
-- market_engine/recording/l2.py: `read_metadata` on the directory of a recording.
use market_systems_workstati.Base.{
  ℕ, Bool, true, false, not, Option, none, some, List, [], ◌++◌, ◌==◌, nat_eq, list_eq,
  if◌then◌else◌, length, Result, ok, err, Error, and_then, raise_if,
}
use market_systems_workstati.Recording.Header.{read_file_header}
use market_systems_workstati.Recording.File.{iter_events}
use market_systems_workstati.Recording.Writer.{read_checkpoints}
use market_systems_workstati.Recording.Metadata.{
  Key, Document, Sidecar, Folder, Companion, EventCounts, string_value, expect_int, check_identity,
  checkpoint_suffix, check_counts, count_events, no_events, read_totals, check_complete,
}

-- `L2Metadata`; paths are file names in the directory of the recording.
pub record Metadata : Type 0 where
  pub name : List ℕ
  pub symbol : List ℕ
  pub created_unix_ns : ℕ
  pub counts : EventCounts
  pub checkpoint_file : Option (List ℕ)
  pub clean_shutdown : Option Bool
  pub data_complete : Option Bool
  pub final_update_id : Option ℕ
  pub final_state_hash : Option ℕ
  pub has_sidecar : Bool
  pub sha256 : Option (List ℕ)
  pub checkpoint_sha256 : Option (List ℕ)
  pub sequence_gaps : Option ℕ
  pub snapshot_retries : Option ℕ
  pub queue_drops : Option ℕ
  pub malformed_messages : Option ℕ

abbrev pub load_sidecar : Option (Result Document) → Result (Option Sidecar)
load_sidecar none = ok none
load_sidecar (some (err e)) = err Error.bad_sidecar
load_sidecar (some (ok (Document.object s))) = ok (some s)
load_sidecar (some (ok Document.not_object)) = err Error.bad_sidecar

abbrev pub name_of {ℓ} : {A : Type ℓ} → Option (List ℕ × A) → Option (List ℕ)
name_of none = none
name_of (some (name, raw)) = some name

-- `crc32` stands for `zlib.crc32`, `digest` for `sha256_file`, and `last_part` for `Path(...).name`.
module _ (crc32 : List ℕ → ℕ) (digest : List ℕ → List ℕ) (last_part : List ℕ → List ℕ) where
  -- The checkpoint file that a sidecar names, once the counts are checked.
  unfoldable pub named_companion : Folder → ℕ → EventCounts → Sidecar → Result Companion
  unfolding read_checkpoints
  named_companion folder created n s = and_then (check_counts n s) λ _.
      and_then (string_value (s Key.checkpoint_file)) λ name.
        and_then (raise_if (not (last_part name == name)) Error.outside_folder) λ _.
          elim (folder.companion name) [
            | none ↦ err Error.no_checkpoint_file
            | some raw ↦ and_then (read_checkpoints (some created) raw) λ cs.
                and_then (expect_int 0 (s Key.checkpoint_count) (length cs) Error.count_mismatch)
                  λ _. ok (some (name, raw), cs)
          ]

  -- Without a sidecar, a checkpoint file of the usual name is read if it is there.
  unfoldable pub usual_companion : Folder → List ℕ → ℕ → Result Companion
  unfolding read_checkpoints
  usual_companion folder name created = elim (folder.companion (name ++ checkpoint_suffix)) [
    | none ↦ ok (none, [])
    | some raw ↦
        and_then (read_checkpoints (some created) raw)
          λ cs. ok (some (name ++ checkpoint_suffix, raw), cs)
  ]

  -- The check of the digests at the end.
  unfoldable pub verify_digests :
      List ℕ → Option (List ℕ × List ℕ) → List ℕ → List ℕ → Result (Unit {0})
  verify_digests raw none hash checkpoint_hash = err Error.digest_mismatch
  verify_digests raw (some (name, checkpoint_raw)) hash checkpoint_hash =
      if not (digest raw == hash)
      then err Error.digest_mismatch
      else raise_if (not (digest checkpoint_raw == checkpoint_hash)) Error.digest_mismatch

  -- `read_metadata` past the events, with a sidecar.
  unfoldable pub metadata_with :
      Bool → Folder → List ℕ → List ℕ → List ℕ → ℕ → EventCounts → Sidecar → Result Metadata
  unfolding named_companion read_totals check_complete verify_digests
  metadata_with verify folder raw name symbol created n s =
      and_then (named_companion folder created n s) λ (companion, cs). and_then (read_totals s) λ t.
        and_then (check_complete n cs t) λ _. and_then (string_value (s Key.sha256)) λ hash.
          and_then (string_value (s Key.checkpoint_sha256)) λ checkpoint_hash.
            and_then (if verify then verify_digests raw companion hash checkpoint_hash else ok tt)
              λ _. ok (record {
                name = name;
                symbol = symbol;
                created_unix_ns = created;
                counts = n;
                checkpoint_file = name_of companion;
                clean_shutdown = some t.clean_shutdown;
                data_complete = some t.data_complete;
                final_update_id = some t.final_update_id;
                final_state_hash = some t.final_state_hash;
                has_sidecar = true;
                sha256 = some hash;
                checkpoint_sha256 = some checkpoint_hash;
                sequence_gaps = some t.sequence_gaps;
                snapshot_retries = some t.snapshot_retries;
                queue_drops = some t.queue_drops;
                malformed_messages = some t.malformed_messages;
              })

  -- The same without a sidecar: the recording is taken to be incomplete.
  unfoldable pub metadata_without : Folder → List ℕ → List ℕ → ℕ → EventCounts → Result Metadata
  unfolding usual_companion
  metadata_without folder name symbol created n =
      and_then (usual_companion folder name created) λ (companion, cs). ok (record {
        name = name;
        symbol = symbol;
        created_unix_ns = created;
        counts = n;
        checkpoint_file = name_of companion;
        clean_shutdown = some false;
        data_complete = some false;
        final_update_id = none;
        final_state_hash = none;
        has_sidecar = false;
        sha256 = none;
        checkpoint_sha256 = none;
        sequence_gaps = none;
        snapshot_retries = none;
        queue_drops = none;
        malformed_messages = none;
      })

  -- The events, counted, with or without a sidecar.
  unfoldable pub metadata_of :
      Bool → Folder → List ℕ → List ℕ → List ℕ → ℕ → Option Sidecar → Result Metadata
  unfolding iter_events metadata_with metadata_without check_identity
  metadata_of verify folder raw name symbol created none =
      let (es, end) = iter_events crc32 raw in
      and_then end (λ _. metadata_without folder name symbol created (count_events es no_events))
  metadata_of verify folder raw name symbol created (some s) =
      let (es, end) = iter_events crc32 raw in
      and_then (check_identity name symbol created s) λ _.
        and_then end
          (λ _. metadata_with verify folder raw name symbol created (count_events es no_events) s)

  -- `read_metadata`
  unfoldable pub read_metadata : Bool → Folder → List ℕ → Result Metadata
  unfolding read_file_header metadata_of
  read_metadata verify folder name = elim folder.recording [
    | none ↦ err Error.no_file
    | some raw ↦ and_then (read_file_header raw) λ ((symbol, created), rest).
        and_then (load_sidecar folder.sidecar)
          (λ side. metadata_of verify folder raw name symbol created side)
  ]
