-- ===== src/Capture/Contract.antt =====
-- What the writing of a `SymbolCapture` (market_engine/market_data/l2_capture.py) does to its recording,
-- against the loop of `replay` (market_engine/cli/verify_l2_replay.py).
use market_systems_workstati.Base.{
  ℕ, ◌+◌, ◌≡◌, refl, ap, sym, subst, ◌∙◌, List, [], ◌∷◌, ◌++◌, arith, leb, length, ◌≤◌, Bool-cases,
  Result-cases, inl, inr, Result, ok, err, All, All-append, Post, Post-weaker, either_Post,
  then_do-Post,
}
use market_systems_workstati.Base.Int.{ℤ, pos}
use market_systems_workstati.Book.{Book, empty_book, state_hash}
use market_systems_workstati.Recording.Event.{L2Event, Boundary, BoundaryReason, make_boundary}
use market_systems_workstati.Recording.Codec.{
  pack_event, event_bids, event_asks, max_levels_per_event, level_payload,
}
use market_systems_workstati.Recording.RoundTrip.{
  IsLevel, IsRecordable, rebuilt, pack_event-record_of,
}
use market_systems_workstati.Recording.Writer.{Writer, write, write_checkpoint, append_checkpoint}
use market_systems_workstati.Recording.Checkpoints.{stream_counted}
use market_systems_workstati.Recording.File.{records, records-append}
use market_systems_workstati.Replay.Steps.{Rebuilds, boundary-Rebuilds}
use market_systems_workstati.Capture.{
  SymbolCapture, write_event, write_boundary, write_boundary_now, write_state, write_due_checkpoint,
}

-- An event that its constructor accepts.
pub record IsConstructed (e : L2Event) : Type 0 where
  pub accepted : rebuilt e ≡ ok e
  pub bid_levels : All IsLevel (event_bids e)
  pub ask_levels : All IsLevel (event_asks e)

constructed-IsRecordable :
    (e : L2Event)
    → IsConstructed e
    → length (event_bids e) ≤ max_levels_per_event
    → length (event_asks e) ≤ max_levels_per_event
    → IsRecordable e
constructed-IsRecordable e i bid_room ask_room = record {
  accepted = i.accepted;
  bid_levels = i.bid_levels;
  ask_levels = i.ask_levels;
  bid_room = bid_room;
  ask_room = ask_room;
}

pub make_boundary-IsConstructed :
    (receipt : ℤ) (reason : BoundaryReason) (b : Boundary)
    → make_boundary receipt reason ≡ ok b
    → IsConstructed (L2Event.boundary b)
unfolding make_boundary
make_boundary-IsConstructed receipt reason b h = record {
  accepted = ground (arith, h);
  bid_levels = tt;
  ask_levels = tt;
}

pub stream_write_checkpoint :
    (id hash : ℤ) (w : Writer) → (write_checkpoint id hash w).1.stream ≡ w.stream
unfolding write_checkpoint append_checkpoint
stream_write_checkpoint id hash w = ground arith

module _ (crc32 : List ℕ → ℕ) where
  packed_room :
      (e : L2Event) (raw : List ℕ)
      → pack_event crc32 e ≡ ok raw
      → (length (event_bids e) ≤ max_levels_per_event)
        × (length (event_asks e) ≤ max_levels_per_event)
  unfolding pack_event level_payload
  packed_room e raw h = ground (arith, h)

  -- A stream that holds the records of events, which rebuild a book.
  pub record Recorded (stream : List ℕ) (b : Book) : Type 0 where
    pub events : List L2Event
    pub written : stream ≡ records crc32 events
    pub recordable : All IsRecordable events
    pub rebuilds : Rebuilds events b

  pub write-Recorded :
      (e : L2Event) (w : Writer) (b b' : Book)
      → IsConstructed e
      → Recorded w.stream b
      → ((es : List L2Event) → Rebuilds es b → Rebuilds (es ++ e ∷ []) b')
      → Post (λ n w'. Recorded w'.stream b') (write crc32 e w)
  unfolding write
  write-Recorded e w b b' i r step = elim (Bool-cases w.closed) [
    | inl closed ↦ rw (closed, write) tt
    | inr open_writer ↦ elim (Result-cases (pack_event crc32 e)) [
      | inr (x, failed) ↦ rw (open_writer, failed, write) tt
      | inl (raw, packed) ↦
          let (bid_room, ask_room) = packed_room e raw packed in
          let recordable = constructed-IsRecordable e i bid_room ask_room in
          rw (open_writer, packed, write)
            (record {
              events = r.events ++ e ∷ [];
              written =
                  stream_counted e _
                  ∙ ap (λ bs. bs ++ raw) r.written
                  ∙ ap (λ bs. records crc32 r.events ++ bs)
                      (same_ok (sym packed ∙ pack_event-record_of crc32 e recordable))
                  ∙ sym (records-append crc32 r.events e);
              recordable = All-append IsRecordable r.events (e ∷ []) r.recordable (recordable, tt);
              rebuilds = step r.events r.rebuilds;
            })
    ]
  ]
    where
      same_ok : {a b : List ℕ} → ◌≡◌ {A = Result (List ℕ)} (ok a) (ok b) → a ≡ b
      same_ok h = cc

  -- A capture that wrote events which rebuild the book, and kept what is not its writer.
  pub record Wrote (b : Book) (before after : SymbolCapture) : Type 0 where
    pub recorded : Recorded after.writer.stream b
    pub same_synchronizer : after.synchronizer ≡ before.synchronizer
    pub same_pending : after.pending_snapshot ≡ before.pending_snapshot

  pub write_event-Wrote :
      (e : L2Event) (c : SymbolCapture) (b b' : Book)
      → IsConstructed e
      → Recorded c.writer.stream b
      → ((es : List L2Event) → Rebuilds es b → Rebuilds (es ++ e ∷ []) b')
      → Post (λ n c'. Wrote b' c c') (write_event crc32 e c)
  unfolding write_event
  write_event-Wrote e c b b' i r step =
      lifted (write crc32 e c.writer) (write-Recorded e c.writer b b' i r step)
    where
      lifted :
          (m : Result ℕ × Writer)
          → Post (λ n w. Recorded w.stream b') m
          → Post (λ n c'. Wrote b' c c') (m.0, record c { writer = m.1 })
      lifted (ok n, w) r = record { recorded = r; same_synchronizer = refl; same_pending = refl }
      lifted (err x, w) r = tt

  pub write_boundary-Wrote :
      (receipt : ℤ) (reason : BoundaryReason) (c : SymbolCapture) (b : Book)
      → Recorded c.writer.stream b
      → Post (λ n c'. Wrote empty_book c c') (write_boundary crc32 receipt reason c)
  unfolding write_boundary
  write_boundary-Wrote receipt reason c b r = elim (Result-cases (make_boundary receipt reason)) [
    | inr (x, failed) ↦ rw (failed, write_boundary) tt
    | inl (e, made) ↦
        rw (made, write_boundary)
          (write_event-Wrote (L2Event.boundary e) c b empty_book
            (make_boundary-IsConstructed receipt reason e made) r
            (λ es h. boundary-Rebuilds es b h e))
  ]

  pub write_boundary_now-Wrote :
      (monotonic_ns : ℕ → ℤ) (reason : BoundaryReason) (c : SymbolCapture) (b : Book)
      → Recorded c.writer.stream b
      → Post (λ n c'. Wrote empty_book c c') (write_boundary_now crc32 monotonic_ns reason c)
  unfolding write_boundary_now
  write_boundary_now-Wrote monotonic_ns reason c b r =
      Post-weaker _ _ (write_boundary crc32 (monotonic_ns c.clock_calls) reason _)
        (λ n c' w. record {
          recorded = w.recorded;
          same_synchronizer = w.same_synchronizer;
          same_pending = w.same_pending;
        })
        (write_boundary-Wrote (monotonic_ns c.clock_calls) reason
          (record c { clock_calls = c.clock_calls + 1 }) b r)

  -- The writing of checkpoints leaves the stream of events as it is.
  pub write_state-Wrote :
      (c : SymbolCapture) (b : Book)
      → Recorded c.writer.stream b
      → Post (λ n c'. Wrote b c c') (write_state c)
  unfolding write_state
  write_state-Wrote c b r =
      lifted (write_checkpoint id hash c.writer) (stream_write_checkpoint id hash c.writer)
    where
      id : ℤ
      id = pos c.synchronizer.book.last_update_id

      hash : ℤ
      hash = pos (state_hash c.synchronizer.book)

      lifted :
          (m : Result (Unit {0}) × Writer)
          → m.1.stream ≡ c.writer.stream
          → Post (λ n c'. Wrote b c c') (m.0, record c { writer = m.1 })
      lifted (err x, w) e = tt
      lifted (ok u, w) e = record {
        recorded = subst (λ bs. Recorded bs b) (sym e) r;
        same_synchronizer = refl;
        same_pending = refl;
      }

  pub write_due_checkpoint-Wrote :
      (c : SymbolCapture) (b : Book)
      → Recorded c.writer.stream b
      → Post (λ n c'. Wrote b c c') (write_due_checkpoint c)
  unfolding write_due_checkpoint
  write_due_checkpoint-Wrote c b r =
      either_Post _ _ _ (leb c.writer.checkpoint_interval c.depth_since_checkpoint)
        (then_do-Post _ _ (write_state c) _ (write_state-Wrote c b r) (λ n c' w. record {
          recorded = w.recorded;
          same_synchronizer = w.same_synchronizer;
          same_pending = w.same_pending;
        }))
        (record { recorded = r; same_synchronizer = refl; same_pending = refl })
