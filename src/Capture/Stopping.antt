-- ===== src/Capture/Stopping.antt =====
-- The end of `capture` (market_engine/market_data/l2_capture.py) against `replay`
-- (market_engine/cli/verify_l2_replay.py): the last event of a recording is a boundary.
use market_systems_workstati.Base.{
  ℕ, ◌≡◌, ◌≢◌, ◌<◌, ◌≤◌, refl, ap, sym, ◌∙◌, some, List, ◌++◌, arith, ltb, ok, Result, Post,
  Post_ok, Post-weaker, either_Post, then_do-Post,
}
use market_systems_workstati.Base.Int.{ℤ}
use market_systems_workstati.Book.Types.{Snapshot, uint64_max}
use market_systems_workstati.Book.{Book, empty_book}
use market_systems_workstati.Recording.Event.{BoundaryReason}
use market_systems_workstati.Recording.HeaderTrip.{file_header}
use market_systems_workstati.Recording.File.{iter_events, iter_events-records}
use market_systems_workstati.Replay.{Claimed, Trial, replay, check_final}
use market_systems_workstati.Replay.Books.{Rebuilds-book, replay_parts}
use market_systems_workstati.Capture.{
  SymbolCapture, write_boundary_now, write_overflow, write_state, write_last_state, stop,
}
use market_systems_workstati.Capture.Contract.{
  Recorded, Wrote, write_boundary_now-Wrote, write_state-Wrote,
}
use market_systems_workstati.Capture.Applied.{Fetched}
use market_systems_workstati.Capture.Session.{Captured, Captured-IsFaithful, Captured-is_symbol}

module _ (crc32 : List ℕ → ℕ) (monotonic_ns : ℕ → ℤ) where
  -- What `stop` leaves: a recording that rebuilds the empty book, and the ID of the synchronizer's.
  record Stopped (c : SymbolCapture) (claim : ℕ × ℕ) (d : SymbolCapture) : Type 0 where
    recorded : Recorded crc32 d.writer.stream empty_book
    same_id : claim.0 ≡ c.synchronizer.book.last_update_id

  write_last_state-Stopped :
      (c : SymbolCapture)
      → Recorded crc32 c.writer.stream empty_book
      → Post (Stopped c) (write_last_state c)
  unfolding write_last_state
  write_last_state-Stopped c r =
      either_Post (Stopped c) _ _ (ltb 0 c.synchronizer.book.last_update_id)
        (then_do-Post (λ n d. Wrote crc32 empty_book c d) (Stopped c) (write_state c) _
          (write_state-Wrote crc32 c empty_book r)
          (λ n d w. record { recorded = w.recorded; same_id = refl }))
        (record { recorded = r; same_id = refl })

  stop-Stopped :
      (drops : ℕ) (c : SymbolCapture) (b : Book)
      → Recorded crc32 c.writer.stream b
      → Post (Stopped c) (stop crc32 monotonic_ns drops c)
  unfolding stop write_overflow
  stop-Stopped drops c b r =
      then_do-Post Before (Stopped c) (write_overflow crc32 monotonic_ns drops c) _
        (either_Post Before _ _ (ltb 0 drops)
          (then_do-Post (λ n d. Wrote crc32 empty_book c d) Before
            (write_boundary_now crc32 monotonic_ns BoundaryReason.queue_overflow c) _
            (write_boundary_now-Wrote crc32 monotonic_ns BoundaryReason.queue_overflow c b r)
            (λ n d w. (empty_book, w)))
          (b, record { recorded = r; same_synchronizer = refl; same_pending = refl }))
        (λ n d (x, w).
          then_do-Post (λ m e. Wrote crc32 empty_book d e) (Stopped c)
            (write_boundary_now crc32 monotonic_ns BoundaryReason.user_stop d) _
            (write_boundary_now-Wrote crc32 monotonic_ns BoundaryReason.user_stop d x w.recorded)
            (λ m e y.
              Post-weaker (Stopped e) (Stopped c) (write_last_state e)
                (λ claim z s. record {
                  recorded = s.recorded;
                  same_id =
                      s.same_id
                      ∙ ap (λ k. k.book.last_update_id) (y.same_synchronizer ∙ w.same_synchronizer);
                })
                (write_last_state-Stopped e y.recorded)))
    where
      Before : Unit {0} → SymbolCapture → Type 0
      Before n d = (x : Book) × Wrote crc32 x c d

agrees_final :
    (claimed : Claimed) (b : Book) (n : ℕ)
    → claimed.final_update_id ≡ some n
    → check_final claimed b ≡ ok tt
    → b.last_update_id ≡ n
unfolding check_final
agrees_final claimed b n h k = ground (arith, k, h)

module _ (crc32 : List ℕ → ℕ) (sha256 : List ℕ → List ℕ) (monotonic_ns : ℕ → ℤ)
    (fetcher : ℕ → Result Snapshot)
    (constructed : (n : ℕ) (s : Snapshot) → fetcher n ≡ ok s → Fetched s) where
  -- A capture whose book had an update ID above zero and that was stopped without a raise leaves a
  -- recording that `replay` refuses, whatever checkpoints and hash its metadata has, if the metadata has
  -- the final update ID that the capture reported: the last event is a boundary, and clears the book.
  pub stop-replay :
      {symbol : List ℕ} {c : SymbolCapture} (drops created : ℕ) (claim : ℕ × ℕ) (d : SymbolCapture)
      (claimed : Claimed) (t : Trial)
      → Captured crc32 monotonic_ns fetcher symbol c
      → 0 < c.synchronizer.book.last_update_id
      → stop crc32 monotonic_ns drops c ≡ (ok claim, d)
      → 0 < created
      → created ≤ uint64_max
      → claimed.final_update_id ≡ some claim.0
      → replay crc32 sha256 claimed (file_header symbol created ++ d.writer.stream) ≢ ok t
  stop-replay {symbol = symbol} {c = c} drops created claim d claimed t h above stops positive small
        final runs =
      let f = Captured-IsFaithful crc32 monotonic_ns fetcher constructed h in
      let s =
        Post_ok (Stopped crc32 monotonic_ns c) (stop crc32 monotonic_ns drops c) claim d stops
          (stop-Stopped crc32 monotonic_ns drops c f.book f.recorded) in
      let reads =
        ap (λ bs. iter_events crc32 (file_header symbol created ++ bs)) s.recorded.written
        ∙ iter_events-records crc32 symbol created s.recorded.events
            (Captured-is_symbol crc32 monotonic_ns fetcher h) positive small
            s.recorded.recordable in
      let (checks, r, loops, checked) =
        replay_parts crc32 sha256 claimed (file_header symbol created ++ d.writer.stream)
          s.recorded.events t reads runs in
      let cleared = Rebuilds-book checks s.recorded.events empty_book r s.recorded.rebuilds loops in
      not_zero (s.same_id) above (
        sym (agrees_final claimed r.book claim.0 final checked)
        ∙ ap (λ b. b.last_update_id) cleared)
    where
      not_zero : {n m : ℕ} → n ≡ m → 0 < m → n ≡ 0 → ⊥
      not_zero p q e = absurd (omega (arith, p, q, e))
