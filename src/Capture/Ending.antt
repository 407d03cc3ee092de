-- ===== src/Capture/Ending.antt =====
-- The end of `capture` (market_engine/market_data/l2_capture.py): every capture is stopped and finalized,
-- or else aborted. The text of the messages and what is printed are left out.
use market_systems_workstati.Base.{
  ℕ, ◌≡◌, refl, ap, sym, ◌∙◌, Bool, true, false, Option, none, some, List, [], ◌∷◌, arith, ok, err,
  Error, Result, All, if◌then◌else◌, Bool-cases, inl, inr,
}
use market_systems_workstati.Base.Int.{ℤ, pos}
use market_systems_workstati.Book.{is_empty}
use market_systems_workstati.Recording.Writer.{Writer}
use market_systems_workstati.Recording.Metadata.{Folder, Totals}
use market_systems_workstati.Recording.Metadata.Reading.{Metadata, read_metadata}
use market_systems_workstati.Recording.Metadata.Finalize.{
  Identity, Closing, Artifact, finalize, publish, abort, closing_totals, check_final_checkpoint,
}
use market_systems_workstati.Capture.{SymbolCapture, stop}
pub mod Closed

-- A capture with what its writer fixed and the directory of its files.
pub record Stored : Type 0 where
  pub capture : SymbolCapture
  pub identity : Identity
  pub folder : Folder

abbrev pub aborted : Stored → Stored
aborted s = record s { capture = record s.capture { writer = abort s.capture.writer } }

-- What `finalize` is told of a capture.
abbrev pub closing_of : SymbolCapture → ℕ × ℕ → ℕ → ℕ → Bool → Result (Unit {0}) → Closing
closing_of c (id, hash) drops malformed clean extra = record {
  clean_shutdown = clean;
  final_update_id = pos id;
  final_state_hash = pos hash;
  sequence_gaps = pos c.sequence_gaps;
  snapshot_retries = pos c.snapshot_retries;
  queue_drops = pos drops;
  malformed_messages = pos malformed;
  extra = extra;
}

-- The capture after `finalize`.
abbrev pub stored_after : Stored → SymbolCapture → Artifact → Stored
stored_after s c a = record s { capture = record c { writer = a.writer }; folder = a.folder }

-- The `except` branch.
abbrev pub unless_raised : Result Metadata × Stored → Result Metadata × Stored
unless_raised (ok m, s) = (ok m, s)
unless_raised (err e, s) = (err e, aborted s)

-- The metadata and the errors of a loop over the captures.
pub record Finished : Type 0 where
  pub finished : List Metadata
  pub errors : List Error
  pub stored : List Stored

abbrev pub and_also : Result Metadata × Stored → Finished → Finished
and_also (ok m, s) f = record f { finished = m ∷ f.finished; stored = s ∷ f.stored }
and_also (err e, s) f = record f { errors = e ∷ f.errors; stored = s ∷ f.stored }

-- What `capture` returns or raises, given the failure of its loop.
unfoldable pub capture_end : Option Error → Finished → Result (List Metadata)
capture_end failure f =
    if is_empty f.errors
    then elim failure [ none ↦ ok f.finished | some e ↦ err e ]
    else err Error.finalization_failed

module _ (crc32 : List ℕ → ℕ) (digest : List ℕ → List ℕ) (last_part : List ℕ → List ℕ)
    (monotonic_ns : ℕ → ℤ) (drops malformed : ℕ) (clean : Bool) (extra : Result (Unit {0})) where
  -- The `try` block, after `stop`.
  abbrev pub finish_stopped : Stored → Result (ℕ × ℕ) × SymbolCapture → Result Metadata × Stored
  finish_stopped s (err e, c) = (err e, record s { capture = c })
  finish_stopped s (ok claim, c) =
      let (r, a) =
        finalize crc32 digest last_part s.identity (closing_of c claim drops malformed clean extra)
          (record { writer = c.writer; folder = s.folder }) in
      (r, stored_after s c a)

  -- A round of the loop.
  unfoldable pub finish_one : Stored → Result Metadata × Stored
  unfolding stop finalize
  finish_one s = unless_raised (finish_stopped s (stop crc32 monotonic_ns drops s.capture))

  unfoldable pub finish_all : List Stored → Finished
  unfolding finish_one
  finish_all [] = record { finished = []; errors = []; stored = [] }
  finish_all (s ∷ ss) = and_also (finish_one s) (finish_all ss)
