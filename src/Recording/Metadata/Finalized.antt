-- ===== src/Recording/Metadata/Finalized.antt =====
-- `L2Writer.finalize` (market_engine/recording/l2.py) on a writer that is open: what it returns is what
-- `read_metadata` makes of the directory that it leaves.
use market_systems_workstati.Base.{
  ℕ, ◌≡◌, refl, ap, ap₂, ◌∙◌, true, false, not, some, List, [], ◌∷◌, ◌++◌, list_eq, if◌then◌else◌,
  Result, ok, err, Error, and_then, raise_if,
}
use market_systems_workstati.Base.Dict.{beq_refl}
use market_systems_workstati.Book.{is_empty}
use market_systems_workstati.Recording.Event.{L2Event}
use market_systems_workstati.Recording.Header.{is_symbol, read_file_header}
use market_systems_workstati.Recording.HeaderTrip.{file_header, read_file_header_lem}
use market_systems_workstati.Recording.File.{records, iter_events, iter_events-records, Yielded}
use market_systems_workstati.Recording.Writer.{Checkpoint, Writer}
use market_systems_workstati.Recording.Metadata.{
  Json, Sidecar, Folder, Totals, string_value, check_identity, read_totals, check_complete,
  count_events, no_events, checkpoint_suffix,
}
use market_systems_workstati.Recording.Metadata.Reading.{
  Metadata, read_metadata, metadata_of, metadata_with, verify_digests,
}
use market_systems_workstati.Recording.Metadata.Finalize.{
  Identity, Closing, recording_bytes, checkpoint_file_bytes, is_complete, check_final_checkpoint,
  closing_totals, publish, finalize,
}
use market_systems_workstati.Recording.Metadata.Trip.{
  string_value_self, some_digest, check_identity-payload, read_totals-payload,
}
use market_systems_workstati.Recording.Metadata.Publish.{
  then_ok, closing_totals_complete, IsHeld, IsOpened, check_complete-held, header_known,
  named_companion-published, side_left, folder_left, metadata_left,
}

module _ (crc32 : List ℕ → ℕ) (digest : List ℕ → List ℕ) (last_part : List ℕ → List ℕ)
    (i : Identity) (w : Writer) (es : List L2Event) (cs : List Checkpoint)
    (h : IsHeld crc32 es cs w) (o : IsOpened digest last_part i w) (t : Totals)
    (folder : Folder) where
  abbrev side : Sidecar
  side = side_left digest i w t

  abbrev left : Folder
  left = folder_left digest i w t folder

  abbrev held : Metadata
  held = metadata_left digest i w t es

  whole_bytes : recording_bytes i w ≡ file_header w.symbol i.created_unix_ns ++ records crc32 es
  whole_bytes =
      ap₂ (λ a b. a ++ b) (header_known crc32 digest last_part i w es cs h o t folder) h.written

  verify_digests-published :
      verify_digests crc32 digest last_part
        (recording_bytes i w)
        (some (i.name ++ checkpoint_suffix, checkpoint_file_bytes i w))
        (digest (recording_bytes i w))
        (digest (checkpoint_file_bytes i w))
      ≡ ok tt
  unfolding verify_digests
  verify_digests-published =
      ap₂
        (λ a b. if not a then err Error.digest_mismatch else raise_if (not b) Error.digest_mismatch)
        (beq_refl ⦃e = list_eq⦄ (digest (recording_bytes i w)))
        (beq_refl ⦃e = list_eq⦄ (digest (checkpoint_file_bytes i w)))

  some_symbol : (s : List ℕ) → is_symbol s ≡ true → is_empty s ≡ false
  some_symbol [] k = absurd (cc)
  some_symbol (c ∷ s) k = refl

  metadata_with-published :
      t.data_complete
        ≡ is_complete w t.clean_shutdown t.final_update_id t.final_state_hash t.queue_drops
            t.malformed_messages
      → check_final_checkpoint w t ≡ ok tt
      → metadata_with crc32 digest last_part true left
          (recording_bytes i w)
          i.name
          w.symbol
          i.created_unix_ns
          (count_events es no_events)
          side
        ≡ ok held
  unfolding metadata_with
  metadata_with-published c k =
      then_ok _ _ (some (i.name ++ checkpoint_suffix, checkpoint_file_bytes i w), cs) _
        (named_companion-published crc32 digest last_part i w es cs h o t folder)
        (then_ok (read_totals side) _ t _
          (read_totals-payload i.name (digest (recording_bytes i w))
            (digest (checkpoint_file_bytes i w)) i.created_unix_ns w t)
          (then_ok (check_complete (count_events es no_events) cs t) _ tt _
            (check_complete-held crc32 es cs w h t c k)
            (then_ok (string_value (some (Json.string (digest (recording_bytes i w))))) _
              (digest (recording_bytes i w)) _
              (string_value_self _ (some_digest _ (o.digests (recording_bytes i w))))
              (then_ok (string_value (some (Json.string (digest (checkpoint_file_bytes i w))))) _
                (digest (checkpoint_file_bytes i w)) _
                (string_value_self _ (some_digest _ (o.digests (checkpoint_file_bytes i w))))
                (then_ok _ _ tt _ verify_digests-published refl)))))

  metadata_of-published :
      t.data_complete
        ≡ is_complete w t.clean_shutdown t.final_update_id t.final_state_hash t.queue_drops
            t.malformed_messages
      → check_final_checkpoint w t ≡ ok tt
      → metadata_of crc32 digest last_part true left
          (recording_bytes i w)
          i.name
          w.symbol
          i.created_unix_ns
          (some side)
        ≡ ok held
  unfolding metadata_of
  metadata_of-published c k =
      then_ok (check_identity i.name w.symbol i.created_unix_ns side) _ tt _
        (check_identity-payload i.name (digest (recording_bytes i w))
          (digest (checkpoint_file_bytes i w)) i.created_unix_ns w t o.named
          (some_symbol w.symbol h.symbolic) o.positive (o.digests (recording_bytes i w))
          (o.digests (checkpoint_file_bytes i w)))
        (ap counted reads ∙ metadata_with-published c k)
    where
      counted : Yielded → Result Metadata
      counted y = and_then y.1 λ _.
          metadata_with crc32 digest last_part true left (recording_bytes i w) i.name w.symbol
            i.created_unix_ns (count_events y.0 no_events) side

      reads : iter_events crc32 (recording_bytes i w) ≡ (es, ok tt)
      reads =
          ap (iter_events crc32) whole_bytes
          ∙ iter_events-records crc32 w.symbol i.created_unix_ns es h.symbolic o.positive o.small
              h.recordable

  read_metadata-published :
      t.data_complete
        ≡ is_complete w t.clean_shutdown t.final_update_id t.final_state_hash t.queue_drops
            t.malformed_messages
      → check_final_checkpoint w t ≡ ok tt
      → read_metadata crc32 digest last_part true left i.name ≡ ok held
  unfolding read_metadata
  read_metadata-published c k =
      then_ok (read_file_header (recording_bytes i w)) _
        ((w.symbol, i.created_unix_ns), records crc32 es) _
        (ap read_file_header whole_bytes
          ∙ read_file_header_lem w.symbol i.created_unix_ns h.symbolic o.small (records crc32 es)
              o.positive)
        (metadata_of-published c k)

pub finalize-IsHeld :
    (crc32 : List ℕ → ℕ) (digest : List ℕ → List ℕ) (last_part : List ℕ → List ℕ) (i : Identity)
    (w : Writer) (es : List L2Event) (cs : List Checkpoint) (h : IsHeld crc32 es cs w)
    (o : IsOpened digest last_part i w) (closing : Closing) (t : Totals) (folder : Folder)
    → w.closed ≡ false
    → closing_totals w closing ≡ ok t
    → check_final_checkpoint w t ≡ ok tt
    → finalize crc32 digest last_part i closing (record { writer = w; folder = folder }) ≡ (
      ok (metadata_left digest i w t es),
      record { writer = record w { closed = true }; folder = folder_left digest i w t folder },
    )
unfolding finalize publish
finalize-IsHeld crc32 digest last_part i w es cs h o closing t folder open_writer totals last =
    rw
      (
        open_writer,
        totals,
        last,
        read_metadata-published crc32 digest last_part i w es cs h o t folder
            (closing_totals_complete w closing t totals).0 last,
      )
      refl
