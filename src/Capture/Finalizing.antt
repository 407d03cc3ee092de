-- ===== src/Capture/Finalizing.antt =====
-- The end of `capture` (market_engine/market_data/l2_capture.py) against the checks of
-- `L2Writer.finalize` (market_engine/recording/l2.py).
use market_systems_workstati.Base.{
  ℕ, ◌≡◌, ◌<◌, refl, ap, sym, subst, ◌∙◌, Bool, true, false, some, List, arith, ltb, ok, err,
  Result, Post, Post_ok, then_do, then_do-Post, Bool-cases, inl, inr, if◌then◌else◌,
}
use market_systems_workstati.Base.Int.{ℤ, pos}
use market_systems_workstati.Book.{state_hash}
use market_systems_workstati.Recording.Event.{BoundaryReason}
use market_systems_workstati.Recording.Writer.{
  Checkpoint, Writer, write_checkpoint, append_checkpoint, make_checkpoint,
}
use market_systems_workstati.Recording.Metadata.{Totals}
use market_systems_workstati.Recording.Metadata.Finalize.{
  Closing, closing_totals, check_final_checkpoint, final_checkpoint, is_complete, counter,
}
use market_systems_workstati.Recording.Metadata.Publish.{closing_totals_complete}
use market_systems_workstati.Capture.{
  SymbolCapture, write_boundary_now, write_overflow, write_state, write_last_state, stop,
}

abbrev checkpoint_of : Writer → ℕ → ℕ → Checkpoint
checkpoint_of w id hash = record { event_index = w.event_count; update_id = id; state_hash = hash }

-- A checkpoint that was written is the last one, at the number of events written.
write_checkpoint-last :
    (id hash : ℕ) (w v : Writer)
    → write_checkpoint (pos id) (pos hash) w ≡ (ok tt, v)
    → v.last_checkpoint ≡ some (checkpoint_of v id hash)
unfolding write_checkpoint append_checkpoint make_checkpoint
write_checkpoint-last id hash w v h = ground (arith, h)

-- The last checkpoint is the claim, if the claim has an update ID.
abbrev IsClaimed : ℕ × ℕ → SymbolCapture → Type 0
IsClaimed claim d =
    0 < claim.0 → d.writer.last_checkpoint ≡ some (checkpoint_of d.writer claim.0 claim.1)

write_state-IsClaimed :
    (c : SymbolCapture)
    → Post
        (λ u d. IsClaimed (c.synchronizer.book.last_update_id, state_hash c.synchronizer.book) d)
        (write_state c)
unfolding write_state
write_state-IsClaimed c = lifted (write_checkpoint (pos id) (pos hash) c.writer) refl
  where
    id : ℕ
    id = c.synchronizer.book.last_update_id

    hash : ℕ
    hash = state_hash c.synchronizer.book

    lifted :
        (m : Result (Unit {0}) × Writer)
        → write_checkpoint (pos id) (pos hash) c.writer ≡ m
        → Post (λ u d. IsClaimed (id, hash) d) (m.0, record c { writer = m.1 })
    lifted (err x, w) e = tt
    lifted (ok u, w) e = λ above. write_checkpoint-last id hash c.writer w e

write_last_state-IsClaimed : (c : SymbolCapture) → Post IsClaimed (write_last_state c)
unfolding write_last_state
write_last_state-IsClaimed c = elim (Bool-cases (ltb 0 c.synchronizer.book.last_update_id)) [
  | inl above ↦ subst (Post IsClaimed) (sym (ap tested above)) (
      then_do-Post
        (λ u d. IsClaimed (c.synchronizer.book.last_update_id, state_hash c.synchronizer.book) d)
        IsClaimed (write_state c) _ (write_state-IsClaimed c) (λ u d h. h))
  | inr none_yet ↦
      subst (Post IsClaimed) (sym (ap tested none_yet)) (λ above. absurd (no_id none_yet above))
]
  where
    tested : Bool → Result (ℕ × ℕ) × SymbolCapture
    tested b =
        if b
        then then_do (write_state c)
            (λ _ c'. (ok (c.synchronizer.book.last_update_id, state_hash c.synchronizer.book), c'))
        else (ok (c.synchronizer.book.last_update_id, 0), c)

    no_id : {n : ℕ} → ltb 0 n ≡ false → 0 < n → ⊥
    no_id h k = ground (arith, h, k)

stop-IsClaimed :
    (crc32 : List ℕ → ℕ) (monotonic_ns : ℕ → ℤ) (drops : ℕ) (c : SymbolCapture)
    → Post IsClaimed (stop crc32 monotonic_ns drops c)
unfolding stop
stop-IsClaimed crc32 monotonic_ns drops c =
    then_do-Post (λ u d. Unit {0}) IsClaimed (write_overflow crc32 monotonic_ns drops c) _
      (any_Post (write_overflow crc32 monotonic_ns drops c))
      (λ u d h.
        then_do-Post (λ n e. Unit {0}) IsClaimed
          (write_boundary_now crc32 monotonic_ns BoundaryReason.user_stop d) _
          (any_Post (write_boundary_now crc32 monotonic_ns BoundaryReason.user_stop d))
          (λ n e k. write_last_state-IsClaimed e))
  where
    any_Post : {A : Type 0} (m : Result A × SymbolCapture) → Post (λ a d. Unit {0}) m
    any_Post (ok a, d) = tt
    any_Post (err e, d) = tt

counter_value : (n m : ℕ) (z : ℤ) → z ≡ pos n → counter z ≡ ok m → m ≡ n
counter_value n m z e h = same (ap counter (sym e) ∙ h)
  where
    same : counter (pos n) ≡ ok m → m ≡ n
    same h = ground (arith, h)

above_zero :
    (w : Writer) (t : Totals)
    → t.data_complete
      ≡ is_complete w t.clean_shutdown t.final_update_id t.final_state_hash t.queue_drops
          t.malformed_messages
    → t.data_complete ≡ true
    → 0 < t.final_update_id
above_zero w t e h = ground (arith, e, h)

-- Whatever the capture was given: once it is stopped without a raise, its writer passes the check of
-- `finalize` on the last checkpoint, if `finalize` gets the update ID and the hash that the capture
-- reported and its other arguments pass their checks.
pub stop-finalize :
    (crc32 : List ℕ → ℕ) (monotonic_ns : ℕ → ℤ) (drops : ℕ) (c d : SymbolCapture) (claim : ℕ × ℕ)
    (closing : Closing) (t : Totals)
    → stop crc32 monotonic_ns drops c ≡ (ok claim, d)
    → closing.final_update_id ≡ pos claim.0
    → closing.final_state_hash ≡ pos claim.1
    → closing_totals d.writer closing ≡ ok t
    → check_final_checkpoint d.writer t ≡ ok tt
unfolding check_final_checkpoint
stop-finalize crc32 monotonic_ns drops c d claim closing t stops same_id same_hash totals =
    elim (Bool-cases t.data_complete) [
      | inr partial ↦
          ap (λ b. if b then final_checkpoint d.writer.last_checkpoint d.writer t else ok tt)
            partial
      | inl complete ↦
          ap (λ b. if b then final_checkpoint d.writer.last_checkpoint d.writer t else ok tt)
            complete
          ∙ ap (λ o. final_checkpoint o d.writer t)
              (claimed (above_zero d.writer t parts.0 complete))
          ∙ matches t
              (counter_value claim.0 t.final_update_id closing.final_update_id same_id parts.1.0)
              (counter_value claim.1 t.final_state_hash closing.final_state_hash same_hash
                parts.1.1)
    ]
  where
    parts :
        (t.data_complete
          ≡ is_complete d.writer t.clean_shutdown t.final_update_id t.final_state_hash t.queue_drops
              t.malformed_messages)
        × ((counter closing.final_update_id ≡ ok t.final_update_id)
            × (counter closing.final_state_hash ≡ ok t.final_state_hash))
    parts = closing_totals_complete d.writer closing t totals

    claimed :
        0 < t.final_update_id
        → d.writer.last_checkpoint ≡ some (checkpoint_of d.writer claim.0 claim.1)
    claimed above =
        Post_ok IsClaimed (stop crc32 monotonic_ns drops c) claim d stops
          (stop-IsClaimed crc32 monotonic_ns drops c)
          (subst (λ n. 0 < n)
            (counter_value claim.0 t.final_update_id closing.final_update_id same_id parts.1.0)
            above)

    matches :
        (t : Totals)
        → t.final_update_id ≡ claim.0
        → t.final_state_hash ≡ claim.1
        → final_checkpoint (some (checkpoint_of d.writer claim.0 claim.1)) d.writer t ≡ ok tt
    matches t p q = ground (arith, p, q)
