-- ===== src/Capture/Applied.antt =====
-- `SymbolCapture._record_applied` (market_engine/market_data/l2_capture.py): the recording follows the book.
use market_systems_workstati.Base.{
  ℕ, ◌+◌, ◌≡◌, refl, ◌∙◌, false, List, [], ◌∷◌, arith, ltb, leb, ok, Post, then_do-Post,
  Post-weaker,
}
use market_systems_workstati.Book.Types.{DepthUpdate, Snapshot}
use market_systems_workstati.Book.{Book, updated, validate}
use market_systems_workstati.Recording.Event.{L2Event}
use market_systems_workstati.Sync.Chain.{Continuous, Validates, Every, apply_all}
use market_systems_workstati.Replay.Steps.{depth-Rebuilds}
use market_systems_workstati.Capture.{
  SymbolCapture, write_event, write_due_checkpoint, record_applied, record_all_applied,
}
use market_systems_workstati.Capture.Contract.{
  IsConstructed, Recorded, Wrote, write_event-Wrote, write_due_checkpoint-Wrote,
}

-- Updates and snapshots that their constructors accept.
abbrev pub Received : DepthUpdate → Type 0
Received u = IsConstructed (L2Event.depth u)

abbrev pub Fetched : Snapshot → Type 0
Fetched s = IsConstructed (L2Event.snapshot s)

module _ (crc32 : List ℕ → ℕ) where
  -- More writing, after other fields may have changed.
  pub Wrote-further :
      (b b' : Book) (c d d' e : SymbolCapture)
      → Wrote crc32 b c d
      → d'.synchronizer ≡ d.synchronizer
      → d'.pending_snapshot ≡ d.pending_snapshot
      → Wrote crc32 b' d' e
      → Wrote crc32 b' c e
  Wrote-further b b' c d d' e f p q g = record {
    recorded = g.recorded;
    same_synchronizer = g.same_synchronizer ∙ (p ∙ f.same_synchronizer);
    same_pending = g.same_pending ∙ (q ∙ f.same_pending);
  }

  pub record_applied-Wrote :
      (u : DepthUpdate) (c : SymbolCapture) (b : Book)
      → Received u
      → Recorded crc32 c.writer.stream b
      → leb u.final_update_id b.last_update_id ≡ false
      → ltb (b.last_update_id + 1) u.first_update_id ≡ false
      → validate (updated u b) ≡ ok tt
      → Post (λ n c'. Wrote crc32 (updated u b) c c') (record_applied crc32 u c)
  unfolding record_applied
  record_applied-Wrote u c b q r fresh joined v =
      then_do-Post _ _ (write_event crc32 (L2Event.depth u) c) _
        (write_event-Wrote crc32 (L2Event.depth u) c b (updated u b) q r
          (λ es h. depth-Rebuilds es b h u fresh joined v))
        (λ n c' w.
          Post-weaker (λ m d. Wrote crc32 (updated u b) (one_more c') d)
            (λ m d. Wrote crc32 (updated u b) c d) (write_due_checkpoint (one_more c'))
            (λ m d. Wrote-further (updated u b) (updated u b) c c' (one_more c') d w refl refl)
            (write_due_checkpoint-Wrote crc32 (one_more c') (updated u b) w.recorded))
    where
      one_more : SymbolCapture → SymbolCapture
      one_more c = record c { depth_since_checkpoint = c.depth_since_checkpoint + 1 }

  -- Updates that join on are recorded one by one, and replayed they bring the book to where they
  -- brought the synchronizer's.
  pub record_all_applied-Wrote :
      (us : List DepthUpdate) (c : SymbolCapture) (b : Book)
      → Every Received us
      → Recorded crc32 c.writer.stream b
      → Continuous b.last_update_id us
      → Validates us b
      → Post (λ n c'. Wrote crc32 (apply_all us b) c c') (record_all_applied crc32 us c)
  unfolding record_all_applied apply_all updated
  record_all_applied-Wrote [] c b q r k v = record {
    recorded = r;
    same_synchronizer = refl;
    same_pending = refl;
  }
  record_all_applied-Wrote (u ∷ us) c b q r k v =
      then_do-Post _ _ (record_applied crc32 u c) _
        (record_applied-Wrote u c b q.0 r (ground (arith, k.1)) (ground (arith, k.0)) v.0)
        (λ n c' w.
          Post-weaker (λ m d. Wrote crc32 (apply_all us (updated u b)) c' d)
            (λ m d. Wrote crc32 (apply_all us (updated u b)) c d) (record_all_applied crc32 us c')
            (λ m d. Wrote-further (updated u b) (apply_all us (updated u b)) c c' c' d w refl refl)
            (record_all_applied-Wrote us c' (updated u b) q.1 w.recorded k.2 v.1))
