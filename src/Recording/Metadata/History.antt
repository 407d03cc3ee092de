-- ===== src/Recording/Metadata/History.antt =====
-- `L2Writer.finalize` (market_engine/recording/l2.py) at the end of every history of a writer.
use market_systems_workstati.Base.{
  ℕ, ◌+◌, ◌≡◌, refl, ap, ap₂, sym, subst, ◌∙◌, Bool, true, false, List, [], ◌∷◌, ◌++◌, arith,
  Bool-cases, inl, inr, Result, ok, err, if◌then◌else◌, Error, All, All-append,
}
use market_systems_workstati.Base.Int.{ℤ}
use market_systems_workstati.Recording.Event.{L2Event}
use market_systems_workstati.Recording.RoundTrip.{IsRecordable, record_of, pack_event-record_of}
use market_systems_workstati.Recording.Header.{is_symbol, encode_symbol}
use market_systems_workstati.Recording.File.{records, records-append}
use market_systems_workstati.Recording.Writer.{
  Checkpoint, Writer, open_writer, counted, write, write_checkpoint, append_checkpoint,
}
use market_systems_workstati.Recording.Checkpoints.{
  Written, Written-HasLog, stream_counted, symbol_counted,
}
use market_systems_workstati.Recording.Metadata.{
  Totals, Folder, EventCounts, count_event, count_events, no_events,
}
use market_systems_workstati.Recording.Metadata.Finalize.{
  Identity, Closing, closing_totals, check_final_checkpoint, finalize,
}
use market_systems_workstati.Recording.Metadata.Publish.{
  IsHeld, IsOpened, folder_left, metadata_left,
}
use market_systems_workstati.Recording.Metadata.Finalized.{finalize-IsHeld}

abbrev Counts : Writer → EventCounts → Type 0
Counts w n =
    (w.snapshot_count ≡ n.snapshots)
    × ((w.depth_count ≡ n.depths)
        × ((w.trade_count ≡ n.trades) × (w.boundary_count ≡ n.boundaries)))

counted-Counts :
    (e : L2Event) (w : Writer) (n : EventCounts)
    → Counts w n
    → Counts (counted e w) (count_event e n)
counted-Counts (L2Event.snapshot e) w n c = (ap (λ k. k + 1) c.0, c.1)
counted-Counts (L2Event.depth e) w n c = (c.0, (ap (λ k. k + 1) c.1.0, c.1.1))
counted-Counts (L2Event.trade e) w n c = (c.0, (c.1.0, (ap (λ k. k + 1) c.1.1.0, c.1.1.1)))
counted-Counts (L2Event.boundary e) w n c = (c.0, (c.1.0, (c.1.1.0, ap (λ k. k + 1) c.1.1.1)))

module _ (crc32 : List ℕ → ℕ) where
  -- A writer that was opened, and given these events and some checkpoints. A call that raised left
  -- nothing.
  pub data Holding : List L2Event → Writer → Type 0 where
    opened :
        (symbol : List ℕ) (interval : ℤ) {w : Writer}
        → open_writer symbol interval ≡ ok w
        → Holding [] w
    event :
        (e : L2Event) (n : ℕ) {es : List L2Event} {w v : Writer}
        → IsRecordable e
        → Holding es w
        → write crc32 e w ≡ (ok n, v)
        → Holding (es ++ e ∷ []) v
    checkpoint :
        (id hash : ℤ) {es : List L2Event} {w : Writer}
        → Holding es w
        → Holding es (write_checkpoint id hash w).1

  Holding-Written : {es : List L2Event} {w : Writer} → Holding es w → Written crc32 w
  Holding-Written (Holding.opened symbol interval h) = Written.opened symbol interval h
  Holding-Written (Holding.event e n {w = w} r h done) =
      subst (Written crc32) (ap (λ m. m.1) done) (Written.event e (Holding-Written h))
  Holding-Written (Holding.checkpoint id hash h) = Written.checkpoint id hash (Holding-Written h)

  -- The stream, the counts and the symbol, without the checkpoints.
  record Holds (es : List L2Event) (w : Writer) : Type 0 where
    written : w.stream ≡ records crc32 es
    recordable : All IsRecordable es
    counts : Counts w (count_events es no_events)
    symbolic : is_symbol w.symbol ≡ true

  count_events-append :
      (es : List L2Event) (e : L2Event) (n : EventCounts)
      → count_events (es ++ e ∷ []) n ≡ count_event e (count_events es n)
  count_events-append [] e n = refl
  count_events-append (f ∷ es) e n = count_events-append es e (count_event f n)

  opened-Holds :
      (symbol : List ℕ) (interval : ℤ) (w : Writer)
      → open_writer symbol interval ≡ ok w
      → Holds [] w
  unfolding open_writer encode_symbol
  opened-Holds symbol interval w h = record {
    written = ground (arith, h);
    recordable = tt;
    counts = (ground (arith, h), (ground (arith, h), (ground (arith, h), ground (arith, h))));
    symbolic = ground (arith, h);
  }

  -- A write that returned, of an event that can be packed.
  written_as :
      (e : L2Event) (n : ℕ) (w v : Writer)
      → IsRecordable e
      → write crc32 e w ≡ (ok n, v)
      → counted e
          (record w { stream = w.stream ++ record_of crc32 e; event_count = w.event_count + 1 })
        ≡ v
  unfolding write
  written_as e n w v r done = elim (Bool-cases w.closed) [
    | inl closed ↦
        absurd
          (refused {x = Error.closed_writer} (sym (ap (λ m. m.0) done) ∙ rw (closed, write) refl))
    | inr still_open ↦ ap (λ m. m.1) (sym (returned still_open) ∙ done)
  ]
    where
      packed : Result (List ℕ) → Result ℕ × Writer
      packed (err x) = (err x, w)
      packed (ok raw) = (
        ok w.event_count,
        counted e (record w { stream = w.stream ++ raw; event_count = w.event_count + 1 }),
      )

      tested : Bool → Result (List ℕ) → Result ℕ × Writer
      tested b m = if b then (err Error.closed_writer, w) else packed m

      returned :
          w.closed ≡ false
          → write crc32 e w ≡ (
            ok w.event_count,
            counted e (record w {
              stream = w.stream ++ record_of crc32 e;
              event_count = w.event_count + 1;
            }),
          )
      returned still_open = ap₂ tested still_open (pack_event-record_of crc32 e r)

      refused : {x : Error} → ◌≡◌ {A = Result ℕ} (ok n) (err x) → ⊥
      refused h = cc

  event-Holds :
      (e : L2Event) (n : ℕ) (es : List L2Event) (w v : Writer)
      → IsRecordable e
      → Holds es w
      → write crc32 e w ≡ (ok n, v)
      → Holds (es ++ e ∷ []) v
  event-Holds e n es w v r h done = subst (Holds (es ++ e ∷ [])) (written_as e n w v r done) holding
    where
      after : L2Event → Writer
      after e =
          counted e
            (record w { stream = w.stream ++ record_of crc32 e; event_count = w.event_count + 1 })

      stream_after : (e : L2Event) → w.stream ++ record_of crc32 e ≡ records crc32 (es ++ e ∷ [])
      stream_after e =
          ap (λ bs. bs ++ record_of crc32 e) h.written ∙ sym (records-append crc32 es e)

      holding : Holds (es ++ e ∷ []) (after e)
      holding = record {
        written = stream_counted e _ ∙ stream_after e;
        recordable = All-append IsRecordable es (e ∷ []) h.recordable (r, tt);
        counts =
            subst (Counts (after e)) (sym (count_events-append es e no_events))
              (counted-Counts e _ (count_events es no_events) h.counts);
        symbolic = ap is_symbol (symbol_counted e _) ∙ h.symbolic;
      }

  checkpoint-Holds :
      (id hash : ℤ) (es : List L2Event) (w : Writer)
      → Holds es w
      → Holds es (write_checkpoint id hash w).1
  unfolding write_checkpoint append_checkpoint
  checkpoint-Holds id hash es w h = record {
    written = ground (arith, h.written);
    recordable = h.recordable;
    counts = ground (arith, h.counts);
    symbolic = ground (arith, h.symbolic);
  }

  Holding-Holds : {es : List L2Event} {w : Writer} → Holding es w → Holds es w
  Holding-Holds (Holding.opened symbol interval {w = w} h) = opened-Holds symbol interval w h
  Holding-Holds (Holding.event e n {es = es} {w = w} {v = v} r h done) =
      event-Holds e n es w v r (Holding-Holds h) done
  Holding-Holds (Holding.checkpoint id hash {es = es} {w = w} h) =
      checkpoint-Holds id hash es w (Holding-Holds h)

  Holding-IsHeld :
      {es : List L2Event} {w : Writer}
      → Holding es w
      → (cs : List Checkpoint) × IsHeld crc32 es cs w
  Holding-IsHeld h =
      let (cs, l) = Written-HasLog crc32 (Holding-Written h) in
      let p = Holding-Holds h in
      (
        cs,
        record {
          written = p.written;
          recordable = p.recordable;
          snapshots = p.counts.0;
          depths = p.counts.1.0;
          trades = p.counts.1.1.0;
          boundaries = p.counts.1.1.1;
          log = l;
          symbolic = p.symbolic;
        },
      )

  -- A writer that was given events that their constructors accept and some checkpoints is finalized
  -- without a raise, if it is open and the arguments and the last checkpoint pass the checks of
  -- `finalize`: it is closed, and the metadata that is read back, digests verified, has the symbol, the
  -- counts of exactly these events, and the totals that were given, with the completeness that `finalize`
  -- derived. A digest has 64 hexadecimal characters and the checkpoint file's name is a file name.
  pub Holding-finalize :
      (digest : List ℕ → List ℕ) (last_part : List ℕ → List ℕ) (i : Identity) {es : List L2Event}
      {w : Writer} (closing : Closing) (t : Totals) (folder : Folder)
      → Holding es w
      → IsOpened digest last_part i w
      → w.closed ≡ false
      → closing_totals w closing ≡ ok t
      → check_final_checkpoint w t ≡ ok tt
      → finalize crc32 digest last_part i closing (record { writer = w; folder = folder }) ≡ (
        ok (metadata_left digest i w t es),
        record { writer = record w { closed = true }; folder = folder_left digest i w t folder },
      )
  Holding-finalize digest last_part i {es = es} {w = w} closing t folder h o still_open totals
        last =
      let (cs, held) = Holding-IsHeld h in
      finalize-IsHeld crc32 digest last_part i w es cs held o closing t folder still_open totals
        last
