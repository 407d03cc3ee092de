-- ===== src/Recording/Metadata/Publish.antt =====
-- `L2Writer.finalize` (market_engine/recording/l2.py): the directory that it leaves, read by
-- `read_metadata`.
use market_systems_workstati.Base.{
  ℕ, ◌≤◌, ◌<◌, ◌≡◌, refl, ap, ap₂, sym, subst, ◌∙◌, Bool, true, false, not, ◌&&◌, ◌||◌, Option,
  none, some, List, [], ◌∷◌, ◌++◌, arith, ltb, ◌==◌, nat_eq, list_eq, if◌then◌else◌, length, last?,
  Result, ok, err, Error, and_then, raise_if, All, Bool-cases, inl, inr,
}
use market_systems_workstati.Base.Int.{pos}
use market_systems_workstati.Base.Dict.{beq_refl}
use market_systems_workstati.Book.{is_empty}
use market_systems_workstati.Book.Types.{uint64_max}
use market_systems_workstati.Recording.Event.{L2Event}
use market_systems_workstati.Recording.RoundTrip.{IsRecordable}
use market_systems_workstati.Recording.Header.{is_symbol, pack_file_header}
use market_systems_workstati.Recording.HeaderTrip.{file_header, pack_file_header_lem}
use market_systems_workstati.Recording.File.{records}
use market_systems_workstati.Recording.Writer.{Checkpoint, Writer, read_checkpoints}
use market_systems_workstati.Recording.Checkpoints.{IsLogged}
use market_systems_workstati.Recording.Metadata.{
  Json, Sidecar, Folder, Companion, Totals, EventCounts, all_events, count_events, no_events,
  is_digest, string_value, expect_int, check_counts, expected_complete, check_complete, check_last,
  checkpoint_suffix,
}
use market_systems_workstati.Recording.Metadata.Reading.{Metadata, named_companion}
use market_systems_workstati.Recording.Metadata.Finalize.{
  Identity, Closing, payload, published, recording_bytes, checkpoint_file_bytes, is_complete,
  final_checkpoint, check_final_checkpoint, closing_totals, counter, pack_checkpoint_header,
}
use market_systems_workstati.Recording.Metadata.Trip.{
  string_value_self, expect_int_self, read_checkpoints-logged, checkpoint_header_bytes,
  pack_checkpoint_header_lem, check_counts-payload,
}

-- What comes after a part that does not raise.
pub then_ok {ℓ κ} :
    {A : Type ℓ} {B : Type κ} (m : Result A) (f : A → Result B) (a : A) (r : Result B)
    → m ≡ ok a
    → f a ≡ r
    → and_then m f ≡ r
then_ok m f a r p q = ap (λ x. and_then x f) p ∙ q

pub and_then_parts {ℓ κ} :
    {A : Type ℓ} {B : Type κ} (m : Result A) (f : A → Result B) (b : B)
    → and_then m f ≡ ok b
    → (a : A) × (m ≡ ok a) × (f a ≡ ok b)
and_then_parts (ok a) f b h = (a, refl, h)
and_then_parts (err e) f b h = absurd (cc)

-- The totals say what `is_complete` says, and hold the final state that was given.
pub closing_totals_complete :
    (w : Writer) (a : Closing) (t : Totals)
    → closing_totals w a ≡ ok t
    → (t.data_complete
        ≡ is_complete w t.clean_shutdown t.final_update_id t.final_state_hash t.queue_drops
            t.malformed_messages)
      × ((counter a.final_update_id ≡ ok t.final_update_id)
          × (counter a.final_state_hash ≡ ok t.final_state_hash))
unfolding closing_totals
closing_totals_complete w a t h =
    let (id, c1, h1) = and_then_parts (counter a.final_update_id) _ t h in
    let (hash, c2, h2) = and_then_parts (counter a.final_state_hash) _ t h1 in
    let (gaps, _, h3) = and_then_parts (counter a.sequence_gaps) _ t h2 in
    let (retries, _, h4) = and_then_parts (counter a.snapshot_retries) _ t h3 in
    let (drops, _, h5) = and_then_parts (counter a.queue_drops) _ t h4 in
    let (malformed, _, h6) = and_then_parts (counter a.malformed_messages) _ t h5 in
    let (dumped, _, h7) = and_then_parts a.extra _ t h6 in
    subst
      (λ u.
        (u.data_complete
          ≡ is_complete w u.clean_shutdown u.final_update_id u.final_state_hash u.queue_drops
              u.malformed_messages)
        × ((counter a.final_update_id ≡ ok u.final_update_id)
            × (counter a.final_state_hash ≡ ok u.final_state_hash)))
      (same_totals h7) (refl, (c1, c2))
  where
    same_totals : {u v : Totals} → ◌≡◌ {A = Result Totals} (ok u) (ok v) → u ≡ v
    same_totals h = cc

-- What a writer holds: the events that its stream has the records of, counted, and its checkpoints.
pub record IsHeld (crc32 : List ℕ → ℕ) (es : List L2Event) (cs : List Checkpoint) (w : Writer)
    : Type 0 where
  pub written : w.stream ≡ records crc32 es
  pub recordable : All IsRecordable es
  pub snapshots : w.snapshot_count ≡ (count_events es no_events).snapshots
  pub depths : w.depth_count ≡ (count_events es no_events).depths
  pub trades : w.trade_count ≡ (count_events es no_events).trades
  pub boundaries : w.boundary_count ≡ (count_events es no_events).boundaries
  pub log : IsLogged cs w
  pub symbolic : is_symbol w.symbol ≡ true

-- The completeness that the writer claims is the one that the reader expects.
module _ (crc32 : List ℕ → ℕ) (es : List L2Event) (cs : List Checkpoint) (w : Writer)
    (h : IsHeld crc32 es cs w) where
  abbrev n : EventCounts
  n = count_events es no_events

  all_counted : w.event_count ≡ all_events n
  all_counted = omega (arith, h.log.events, h.snapshots, h.depths, h.trades, h.boundaries)

  some_checkpoint : (ds : List Checkpoint) → ltb 0 (length ds) ≡ not (is_empty ds)
  some_checkpoint [] = refl
  some_checkpoint (d ∷ ds) = ground arith

  same_complete :
      (t : Totals)
      → t.data_complete
        ≡ is_complete w t.clean_shutdown t.final_update_id t.final_state_hash t.queue_drops
            t.malformed_messages
      → t.data_complete ≡ expected_complete n cs t
  same_complete t e =
      e ∙ rw (all_counted, h.snapshots, h.depths, h.log.number, some_checkpoint cs) refl

  pub check_complete-held :
      (t : Totals)
      → t.data_complete
        ≡ is_complete w t.clean_shutdown t.final_update_id t.final_state_hash t.queue_drops
            t.malformed_messages
      → check_final_checkpoint w t ≡ ok tt
      → check_complete n cs t ≡ ok tt
  unfolding check_complete check_final_checkpoint
  check_complete-held t e k = elim (Bool-cases t.data_complete) [
    | inl complete ↦
        ap₂ tested complete (sym (same_complete t e) ∙ complete)
        ∙ last_fine (last? cs) (
            ap (λ o. final_checkpoint o w t) (sym h.log.last)
            ∙ (sym (ap (λ b. if b then final_checkpoint w.last_checkpoint w t else ok tt) complete)
                ∙ k))
    | inr partial ↦ ap₂ tested partial (sym (same_complete t e) ∙ partial)
  ]
    where
      tested : Bool → Bool → Result (Unit {0})
      tested claimed expected =
          if (claimed && not expected) || (not claimed && expected)
          then err Error.inconsistent_complete
          else if claimed
          then check_last (last? cs) n t
          else ok tt

      last_fine :
          (o : Option Checkpoint) → final_checkpoint o w t ≡ ok tt → check_last o n t ≡ ok tt
      last_fine none h = absurd (cc)
      last_fine (some c) h = ground (arith, h, all_counted)

-- What the constructor of a writer did, and what the libraries do: a digest is 64 hexadecimal characters,
-- and the name of the checkpoint file is a file name.
pub record IsOpened (digest : List ℕ → List ℕ) (last_part : List ℕ → List ℕ) (i : Identity)
    (w : Writer) : Type 0 where
  pub header : pack_file_header w.symbol i.created_unix_ns ≡ ok i.header
  pub checkpoint_header : pack_checkpoint_header i.created_unix_ns ≡ ok i.checkpoint_header
  pub positive : 0 < i.created_unix_ns
  pub small : i.created_unix_ns ≤ uint64_max
  pub named : is_empty i.name ≡ false
  pub digests : (bs : List ℕ) → is_digest (digest bs) ≡ true
  pub plain : last_part (i.name ++ checkpoint_suffix) ≡ i.name ++ checkpoint_suffix

module _ (digest : List ℕ → List ℕ) (i : Identity) (w : Writer) (t : Totals) where
  -- The sidecar that `finalize` publishes, and the directory that it leaves.
  abbrev pub side_left : Sidecar
  side_left =
      payload i.name i.created_unix_ns (digest (recording_bytes i w))
        (digest (checkpoint_file_bytes i w)) w t

  abbrev pub folder_left : Folder → Folder
  folder_left folder = published i w side_left folder

  -- The metadata of the recording, which holds these events.
  abbrev pub metadata_left : List L2Event → Metadata
  metadata_left es = record {
    name = i.name;
    symbol = w.symbol;
    created_unix_ns = i.created_unix_ns;
    counts = count_events es no_events;
    checkpoint_file = some (i.name ++ checkpoint_suffix);
    clean_shutdown = some t.clean_shutdown;
    data_complete = some t.data_complete;
    final_update_id = some t.final_update_id;
    final_state_hash = some t.final_state_hash;
    has_sidecar = true;
    sha256 = some (digest (recording_bytes i w));
    checkpoint_sha256 = some (digest (checkpoint_file_bytes i w));
    sequence_gaps = some t.sequence_gaps;
    snapshot_retries = some t.snapshot_retries;
    queue_drops = some t.queue_drops;
    malformed_messages = some t.malformed_messages;
  }

module _ (crc32 : List ℕ → ℕ) (digest : List ℕ → List ℕ) (last_part : List ℕ → List ℕ)
    (i : Identity) (w : Writer) (es : List L2Event) (cs : List Checkpoint)
    (h : IsHeld crc32 es cs w) (o : IsOpened digest last_part i w) (t : Totals)
    (folder : Folder) where
  abbrev written_side : Sidecar
  written_side = side_left digest i w t

  abbrev after : Folder
  after = folder_left digest i w t folder

  abbrev counts : EventCounts
  counts = count_events es no_events

  abbrev companion_name : List ℕ
  companion_name = i.name ++ checkpoint_suffix

  same_bytes : {a b : List ℕ} → ◌≡◌ {A = Result (List ℕ)} (ok a) (ok b) → a ≡ b
  same_bytes e = cc

  pub header_known : i.header ≡ file_header w.symbol i.created_unix_ns
  header_known =
      same_bytes (sym o.header ∙ pack_file_header_lem w.symbol i.created_unix_ns h.symbolic o.small)

  checkpoint_header_known : i.checkpoint_header ≡ checkpoint_header_bytes i.created_unix_ns
  checkpoint_header_known =
      same_bytes (sym o.checkpoint_header ∙ pack_checkpoint_header_lem i.created_unix_ns o.small)

  companion_named : is_empty companion_name ≡ false
  companion_named = longer i.name
    where
      longer : (xs : List ℕ) → is_empty (xs ++ checkpoint_suffix) ≡ false
      longer [] = refl
      longer (x ∷ xs) = refl

  found : after.companion companion_name ≡ some (checkpoint_file_bytes i w)
  found =
      ap (λ b. if b then some (checkpoint_file_bytes i w) else folder.companion companion_name)
        (beq_refl ⦃e = list_eq⦄ companion_name)

  pub named_companion-published :
      named_companion crc32 digest last_part after i.created_unix_ns counts written_side
      ≡ ok (some (companion_name, checkpoint_file_bytes i w), cs)
  unfolding named_companion
  named_companion-published =
      then_ok (check_counts counts written_side) _ tt _
        (check_counts-payload i.name (digest (recording_bytes i w))
          (digest (checkpoint_file_bytes i w)) i.created_unix_ns w t counts
          (all_counted crc32 es cs w h) h.snapshots h.depths h.trades h.boundaries)
        (then_ok (string_value (some (Json.string companion_name))) _ companion_name _
          (string_value_self companion_name companion_named)
          (then_ok
            (raise_if (not (last_part companion_name == companion_name)) Error.outside_folder) _ tt
            _
            (ap (λ b. raise_if (not b) Error.outside_folder)
              (ap (λ n. n == companion_name) o.plain ∙ beq_refl ⦃e = list_eq⦄ companion_name))
            (ap opened found
              ∙ then_ok (read_checkpoints (some i.created_unix_ns) (checkpoint_file_bytes i w)) _ cs
                  _ reads
                  (then_ok
                    (expect_int 0 (some (Json.integer (pos w.checkpoint_count))) (length cs)
                      Error.count_mismatch)
                    _ tt _ counted refl))))
    where
      opened : Option (List ℕ) → Result Companion
      opened none = err Error.no_checkpoint_file
      opened (some raw) = and_then (read_checkpoints (some i.created_unix_ns) raw) λ ds.
          and_then
            (expect_int 0 (some (Json.integer (pos w.checkpoint_count))) (length ds)
              Error.count_mismatch)
            λ _. ok (some (companion_name, raw), ds)

      reads : read_checkpoints (some i.created_unix_ns) (checkpoint_file_bytes i w) ≡ ok cs
      reads =
          ap (λ bs. read_checkpoints (some i.created_unix_ns) (bs ++ w.checkpoint_stream))
            checkpoint_header_known
          ∙ read_checkpoints-logged i.created_unix_ns cs w o.small h.log

      counted :
          expect_int 0
            (some (Json.integer (pos w.checkpoint_count)))
            (length cs)
            Error.count_mismatch
          ≡ ok tt
      counted =
          ap (λ n. expect_int 0 (some (Json.integer (pos n))) (length cs) Error.count_mismatch)
            h.log.number
          ∙ expect_int_self 0 (length cs) Error.count_mismatch (omega arith)
