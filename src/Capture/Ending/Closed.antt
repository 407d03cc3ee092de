-- ===== src/Capture/Ending/Closed.antt =====
-- The end of `capture` (market_engine/market_data/l2_capture.py): the writers are closed, and every
-- capture is accounted for.
use market_systems_workstati.Base.{
  ℕ, ◌+◌, suc, ◌≡◌, refl, ap, sym, ◌∙◌, Bool, true, false, Option, none, some, List, [], ◌∷◌, arith,
  ok, err, Error, Result, All, if◌then◌else◌, length, Bool-cases, inl, inr,
}
use market_systems_workstati.Base.Int.{ℤ}
use market_systems_workstati.Book.{is_empty}
use market_systems_workstati.Recording.Writer.{Writer}
use market_systems_workstati.Recording.Metadata.{Totals}
use market_systems_workstati.Recording.Metadata.Reading.{Metadata, read_metadata}
use market_systems_workstati.Recording.Metadata.Finalize.{
  Identity, Closing, Artifact, finalize, publish, abort, closing_totals, check_final_checkpoint,
}
use market_systems_workstati.Capture.{SymbolCapture, stop}
use market_systems_workstati.Capture.Ending.{
  Stored, Finished, closing_of, unless_raised, and_also, finish_stopped, finish_one, finish_all,
  capture_end,
}

-- The writer of a capture writes no more.
abbrev pub IsClosed : Stored → Type 0
IsClosed s = s.capture.writer.closed ≡ true

module _ (crc32 : List ℕ → ℕ) (digest : List ℕ → List ℕ) (last_part : List ℕ → List ℕ)
    (monotonic_ns : ℕ → ℤ) (drops malformed : ℕ) (clean : Bool) (extra : Result (Unit {0})) where
  abbrev every : List Stored → Finished
  every ss = finish_all crc32 digest last_part monotonic_ns drops malformed clean extra ss

  abbrev one : Stored → Result Metadata × Stored
  one s = finish_one crc32 digest last_part monotonic_ns drops malformed clean extra s

  abbrev after_check :
      Artifact → Result (Unit {0}) → Result Metadata × Artifact → Result Metadata × Artifact
  after_check a r after = elim r [ err e ↦ (err e, a) | ok _ ↦ after ]

  abbrev after_totals :
      Artifact
      → Result Totals
      → (Totals → Result (Unit {0}))
      → (Totals → Result Metadata × Artifact)
      → Result Metadata × Artifact
  after_totals a r check after = elim r [
    | err e ↦ (err e, a)
    | ok t ↦ after_check a (check t) (after t)
  ]

  abort_closes : (w : Writer) → (abort w).closed ≡ true
  abort_closes w = elim (Bool-cases w.closed) [ inl h ↦ rw h refl | inr h ↦ rw h refl ]

  checked_closes :
      (a : Artifact) (r : Result (Unit {0})) (after : Result Metadata × Artifact) (m : Metadata)
      → after.1.writer.closed ≡ true
      → (after_check a r after).0 ≡ ok m
      → (after_check a r after).1.writer.closed ≡ true
  checked_closes a (ok u) after m k h = k
  checked_closes a (err e) after m k h = absurd (cc)

  totals_close :
      (a : Artifact) (r : Result Totals) (check : Totals → Result (Unit {0}))
      (after : Totals → Result Metadata × Artifact) (m : Metadata)
      → ((t : Totals) → (after t).1.writer.closed ≡ true)
      → (after_totals a r check after).0 ≡ ok m
      → (after_totals a r check after).1.writer.closed ≡ true
  totals_close a (ok t) check after m k h = checked_closes a (check t) (after t) m (k t) h
  totals_close a (err e) check after m k h = absurd (cc)

  whole_closes :
      (a : Artifact) (b : Bool) (x : Result Metadata) (y : Result Metadata × Artifact)
      (m : Metadata)
      → a.writer.closed ≡ b
      → (y.0 ≡ ok m → y.1.writer.closed ≡ true)
      → (if b then (x, a) else y).0 ≡ ok m
      → (if b then (x, a) else y).1.writer.closed ≡ true
  whole_closes a true x y m p k h = p
  whole_closes a false x y m p k h = k h

  publish_closes :
      (i : Identity) (t : Totals) (a : Artifact)
      → (publish crc32 digest last_part i t a).1.writer.closed ≡ true
  unfolding publish
  publish_closes i t a = refl

  finalize_closes :
      (i : Identity) (closing : Closing) (a : Artifact) (m : Metadata)
      → (finalize crc32 digest last_part i closing a).0 ≡ ok m
      → (finalize crc32 digest last_part i closing a).1.writer.closed ≡ true
  unfolding finalize
  finalize_closes i closing a m h =
      whole_closes a a.writer.closed (read_metadata crc32 digest last_part true a.folder i.name)
        (after_totals a (closing_totals a.writer closing) (check_final_checkpoint a.writer)
          (λ t. publish crc32 digest last_part i t a))
        m refl
        (totals_close a (closing_totals a.writer closing) (check_final_checkpoint a.writer)
          (λ t. publish crc32 digest last_part i t a) m (λ t. publish_closes i t a))
        h

  unless_closes :
      (x : Result Metadata × Stored)
      → ((m : Metadata) → x.0 ≡ ok m → IsClosed x.1)
      → IsClosed (unless_raised x).1
  unless_closes (ok m, s) k = k m refl
  unless_closes (err e, s) k = abort_closes s.capture.writer

  finish_stopped_closes :
      (s : Stored) (x : Result (ℕ × ℕ) × SymbolCapture) (m : Metadata)
      → (finish_stopped crc32 digest last_part monotonic_ns drops malformed clean extra s x).0
        ≡ ok m
      → IsClosed
          (finish_stopped crc32 digest last_part monotonic_ns drops malformed clean extra s x).1
  finish_stopped_closes s (err e, c) m h = absurd (cc)
  finish_stopped_closes s (ok claim, c) m h =
      finalize_closes s.identity (closing_of c claim drops malformed clean extra)
        (record { writer = c.writer; folder = s.folder }) m h

  pub finish_one_closes : (s : Stored) → IsClosed (one s).1
  unfolding finish_one
  finish_one_closes s =
      unless_closes
        (finish_stopped crc32 digest last_part monotonic_ns drops malformed clean extra s
          (stop crc32 monotonic_ns drops s.capture))
        (finish_stopped_closes s (stop crc32 monotonic_ns drops s.capture))

  also_ends :
      (x : Result Metadata × Stored) (f : Finished)
      → IsClosed x.1
      → All IsClosed f.stored
      → All IsClosed (and_also x f).stored
  also_ends (ok m, s) f k ks = (k, ks)
  also_ends (err e, s) f k ks = (k, ks)

  every_closes : (ss : List Stored) → All IsClosed (every ss).stored
  unfolding finish_all
  every_closes [] = tt
  every_closes (s ∷ ss) = also_ends (one s) (every ss) (finish_one_closes s) (every_closes ss)

  accounted :
      (x : Result Metadata × Stored) (f : Finished) (n : ℕ)
      → length f.finished + length f.errors ≡ n
      → length (and_also x f).finished + length (and_also x f).errors ≡ suc n
  accounted (ok m, s) f n h = omega (arith, h)
  accounted (err e, s) f n h = omega (arith, h)

  all_accounted :
      (ss : List Stored) → length (every ss).finished + length (every ss).errors ≡ length ss
  unfolding finish_all
  all_accounted [] = refl
  all_accounted (s ∷ ss) = accounted (one s) (every ss) (length ss) (all_accounted ss)

  -- However the captures end, each of their writers is closed after the last loop, and each capture either gave
  -- its metadata or an error.
  pub finish_all-IsClosed :
      (ss : List Stored)
      → All IsClosed (every ss).stored
        × (length (every ss).finished + length (every ss).errors ≡ length ss)
  finish_all-IsClosed ss = (every_closes ss, all_accounted ss)

  no_errors : (es : List Error) → is_empty es ≡ true → length es ≡ 0
  no_errors [] h = refl
  no_errors (e ∷ es) h = absurd (cc)

  returned :
      (failure : Option Error) (f : Finished) (ms : List Metadata)
      → capture_end failure f ≡ ok ms
      → (failure ≡ none) × ((length f.errors ≡ 0) × (ms ≡ f.finished))
  unfolding capture_end
  returned failure f ms h = elim (Bool-cases (is_empty f.errors)) [
    | inl quiet ↦
        settled failure
          (sym (ap (λ b. if b then outcome failure else err Error.finalization_failed) quiet) ∙ h)
          (no_errors f.errors quiet)
    | inr raised ↦ absurd (cc (raised, h))
  ]
    where
      outcome : Option Error → Result (List Metadata)
      outcome o = elim o [ none ↦ ok f.finished | some e ↦ err e ]

      same_list :
          {xs ys : List Metadata} → ◌≡◌ {A = Result (List Metadata)} (ok xs) (ok ys) → ys ≡ xs
      same_list e = cc

      settled :
          (o : Option Error)
          → outcome o ≡ ok ms
          → length f.errors ≡ 0
          → (o ≡ none) × ((length f.errors ≡ 0) × (ms ≡ f.finished))
      settled none e k = (refl, (k, same_list e))
      settled (some x) e k = absurd (cc)

  -- When `capture` returns, its loop did not fail, and it returns as many metadata as there are captures.
  pub capture_end-finish_all :
      (failure : Option Error) (ss : List Stored) (ms : List Metadata)
      → capture_end failure (every ss) ≡ ok ms
      → (failure ≡ none) × (length ms ≡ length ss)
  capture_end-finish_all failure ss ms h =
      let (quiet, (none_raised, same)) = returned failure (every ss) ms h in
      (quiet, ap length same ∙ omega (arith, all_accounted ss, none_raised))
