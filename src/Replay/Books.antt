-- ===== src/Replay/Books.antt =====
-- The book that `replay` (market_engine/cli/verify_l2_replay.py) rebuilds, apart from what it counts and
-- checks: a fold of the events over the book.
use market_systems_workstati.Base.{
  ℕ, ◌+◌, ◌≡◌, ap, sym, ◌∙◌, Bool, true, false, Option, none, some, List, [], ◌∷◌, arith, ltb, leb,
  nat_eq, if◌then◌else◌, Result, ok, err, Error, and_then, Result-cases, inl, inr,
}
use market_systems_workstati.Base.Dict.{Dict, lookup}
use market_systems_workstati.Book.{
  Book, empty_book, clear, loaded, updated, validate, apply, install_snapshot, state_hash,
}
use market_systems_workstati.Recording.Event.{L2Event}
use market_systems_workstati.Recording.Writer.{Checkpoint}
use market_systems_workstati.Recording.File.{iter_events}
use market_systems_workstati.Replay.{
  Replay, start, Claimed, Trial, replay, recorded_checkpoints, by_event, check_final, replay_branch,
  match_checkpoint, replay_event, replay_events,
}
use market_systems_workstati.Replay.Steps.{Rebuilds}

ok_injective : {a c : Book} → ◌≡◌ {A = Result Book} (ok a) (ok c) → a ≡ c
ok_injective h = cc

err_ne : {x : Error} {b : Book} → ◌≡◌ {A = Result Book} (err x) (ok b) → ⊥
err_ne h = cc

-- What the branch of an event does to the book alone.
abbrev book_after : L2Event → Book → Result Book
book_after (L2Event.boundary e) b = ok empty_book
book_after (L2Event.snapshot e) b = and_then (validate (loaded e)) (λ _. ok (loaded e))
book_after (L2Event.depth e) b =
    if leb e.final_update_id b.last_update_id
    then ok b
    else if ltb (b.last_update_id + 1) e.first_update_id
    then err Error.unmarked_gap
    else and_then (validate (updated e b)) (λ _. ok (updated e b))
book_after (L2Event.trade e) b = ok b

abbrev book_after_all : List L2Event → Book → Result Book
book_after_all [] b = ok b
book_after_all (e ∷ es) b = and_then (book_after e b) (book_after_all es)

book-replay_branch :
    (e : L2Event) (r r' : Replay) (to_end : Bool)
    → replay_branch e r ≡ ok (to_end, r')
    → book_after e r.book ≡ ok r'.book
unfolding replay_branch install_snapshot apply clear
book-replay_branch (L2Event.boundary e) r r' to_end h = ground (arith, h)
book-replay_branch (L2Event.snapshot e) r r' to_end h = ground (arith, h)
book-replay_branch (L2Event.depth e) r r' to_end h = ground (arith, h)
book-replay_branch (L2Event.trade e) r r' to_end h = ground (arith, h)

book-match_checkpoint :
    (c : Option Checkpoint) (r r' : Replay) → match_checkpoint c r ≡ ok r' → r'.book ≡ r.book
unfolding match_checkpoint
book-match_checkpoint none r r' h = cc
book-match_checkpoint (some c) r r' h = ground (arith, h)

book-replay_event :
    (d : Dict ℕ Checkpoint) (e : L2Event) (r r' : Replay)
    → replay_event d e r ≡ ok r'
    → book_after e r.book ≡ ok r'.book
unfolding replay_event
book-replay_event d e r r' h = elim (Result-cases (replay_branch e q)) [
  | inr (x, failed) ↦ absurd (raised (sym (ap to_end failed) ∙ h))
  | inl ((true, t), done) ↦
      book-replay_branch e q t true done
      ∙ ap ok (sym (book-match_checkpoint (lookup t.event_count d) t r' (sym (ap to_end done) ∙ h)))
  | inl ((false, t), done) ↦
      book-replay_branch e q t false done ∙ ap book_of (sym (ap to_end done) ∙ h)
]
  where
    q : Replay
    q = record r { event_count = r.event_count + 1 }

    book_of : Result Replay → Result Book
    book_of m = and_then m (λ t. ok t.book)

    to_end : Result (Bool × Replay) → Result Replay
    to_end m =
        and_then m (λ (b, t). if b then match_checkpoint (lookup t.event_count d) t else ok t)

    raised : {x : Error} → ◌≡◌ {A = Result Replay} (err x) (ok r') → ⊥
    raised h = cc

-- If a replay does not raise, then the fold of its events does not, and gives its book, whatever
-- checkpoints were checked on the way.
replay_events-book_after_all :
    (d : Dict ℕ Checkpoint) (es : List L2Event) (r r' : Replay)
    → replay_events d es r ≡ ok r'
    → book_after_all es r.book ≡ ok r'.book
unfolding replay_events
replay_events-book_after_all d [] r r' h = ap (λ m. and_then m (λ t. ok t.book)) h
replay_events-book_after_all d (e ∷ es) r r' h = elim (Result-cases (replay_event d e r)) [
  | inr (x, failed) ↦ absurd (raised (sym (ap rest failed) ∙ h))
  | inl (t, done) ↦
      ap (λ m. and_then m (book_after_all es)) (book-replay_event d e r t done)
      ∙ replay_events-book_after_all d es t r' (sym (ap rest done) ∙ h)
]
  where
    rest : Result Replay → Result Replay
    rest m = and_then m (λ t. replay_events d es t)

    raised : {x : Error} → ◌≡◌ {A = Result Replay} (err x) (ok r') → ⊥
    raised h = cc

-- Checkpoints or none, the book is the same.
pub Rebuilds-book :
    (d : Dict ℕ Checkpoint) (es : List L2Event) (b : Book) (r : Replay)
    → Rebuilds es b
    → replay_events d es start ≡ ok r
    → r.book ≡ b
Rebuilds-book d es b r h k =
    ok_injective (
      sym (replay_events-book_after_all d es start r k)
      ∙ replay_events-book_after_all [] es start h.replayed h.runs)
    ∙ h.same_book

-- A replay that does not raise has a loop that did not, and final checks that passed.
pub replay_parts :
    (crc32 : List ℕ → ℕ) (sha256 : List ℕ → List ℕ) (claimed : Claimed) (raw : List ℕ)
    (es : List L2Event) (t : Trial)
    → iter_events crc32 raw ≡ (es, ok tt)
    → replay crc32 sha256 claimed raw ≡ ok t
    → (d : Dict ℕ Checkpoint) × (r : Replay) × (replay_events d es start ≡ ok r)
      × (check_final claimed r.book ≡ ok tt)
unfolding replay
replay_parts crc32 sha256 claimed raw es t reads h =
    elim (Result-cases (recorded_checkpoints claimed)) [
      | inr (x, failed) ↦ absurd (no_trial (sym (ap after_list failed) ∙ whole))
      | inl (cs, listed) ↦ elim (Result-cases (replay_events (by_event cs []) es start)) [
        | inr (x, failed) ↦
            absurd (no_trial (sym (ap after_loop failed) ∙ (sym (ap after_list listed) ∙ whole)))
        | inl (r, runs) ↦ elim (Result-cases (check_final claimed r.book)) [
          | inr (x, failed) ↦ absurd (
              no_trial (
                sym (ap (after_check r) failed)
                ∙ (sym (ap after_loop runs) ∙ (sym (ap after_list listed) ∙ whole))))
          | inl (tt, fine) ↦ (by_event cs [], r, runs, fine)
        ]
      ]
    ]
  where
    no_trial : {x : Error} → ◌≡◌ {A = Result Trial} (err x) (ok t) → ⊥
    no_trial h = cc

    result : Replay → Trial
    result r = record {
      events = r.event_count;
      depth_events = r.depth_count;
      trades = r.trade_count;
      checkpoints_verified = r.checkpoint_matches;
      final_update_id = r.book.last_update_id;
      final_state_hash = state_hash r.book;
      state_sequence_sha256 = sha256 r.digest;
    }

    after_check : Replay → Result (Unit {0}) → Result Trial
    after_check r m = and_then m (λ _. ok (result r))

    after_loop : Result Replay → Result Trial
    after_loop m = and_then m (λ r. after_check r (check_final claimed r.book))

    after_list : Result (List Checkpoint) → Result Trial
    after_list m = and_then m (λ cs. after_loop (replay_events (by_event cs []) es start))

    whole : after_list (recorded_checkpoints claimed) ≡ ok t
    whole =
        sym (
          ap
            (λ y. and_then (recorded_checkpoints claimed) λ checkpoints.
              and_then (replay_events (by_event checkpoints []) y.0 start)
                λ r. and_then y.1 λ _. after_check r (check_final claimed r.book))
            reads)
        ∙ h
