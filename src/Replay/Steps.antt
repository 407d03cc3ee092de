-- ===== src/Replay/Steps.antt =====
-- What the loop of `replay` (market_engine/cli/verify_l2_replay.py) makes of one more event.
use market_systems_workstati.Base.{
  ℕ, ◌+◌, ◌≡◌, refl, ap, ◌∙◌, sym, Bool, true, false, Option, none, some, List, [], ◌∷◌, ◌++◌,
  arith, ltb, leb, nat_eq, ok, and_then, length, Result-cases, inl, inr,
}
use market_systems_workstati.Base.Bytes.{le_bytes}
use market_systems_workstati.Base.Dict.{Dict, lookup}
use market_systems_workstati.Book.Types.{Snapshot, DepthUpdate, Trade}
use market_systems_workstati.Book.{
  Book, empty_book, clear, loaded, updated, validate, apply, install_snapshot, state_hash,
}
use market_systems_workstati.Recording.Event.{L2Event, Boundary}
use market_systems_workstati.Recording.Writer.{Checkpoint}
use market_systems_workstati.Replay.{
  Replay, start, replay_branch, match_checkpoint, replay_event, replay_events,
}

pub replay_events-append :
    (d : Dict ℕ Checkpoint) (es fs : List L2Event) (r : Replay)
    → replay_events d (es ++ fs) r ≡ and_then (replay_events d es r) (replay_events d fs)
unfolding replay_events
replay_events-append d [] fs r = refl
replay_events-append d (e ∷ es) fs r = elim (Result-cases (replay_event d e r)) [
  | inl (r', done) ↦ rw (done, replay_events) (replay_events-append d es fs r')
  | inr (x, failed) ↦ rw (failed, replay_events) refl
]

-- The events rebuild the book, where no checkpoint is checked.
pub record Rebuilds (es : List L2Event) (b : Book) : Type 0 where
  pub replayed : Replay
  pub runs : replay_events [] es start ≡ ok replayed
  pub same_book : replayed.book ≡ b

pub nothing-Rebuilds : Rebuilds [] empty_book
unfolding replay_events
nothing-Rebuilds = record { replayed = start; runs = refl; same_book = refl }

abbrev pub replayed_depth : DepthUpdate → Replay → Replay
replayed_depth e r = record r {
  book = updated e r.book;
  event_count = r.event_count + 1;
  depth_count = r.depth_count + 1;
  digest = r.digest ++ le_bytes 8 (state_hash (updated e r.book));
}

pub replay_event-depth :
    (e : DepthUpdate) (r : Replay)
    → leb e.final_update_id r.book.last_update_id ≡ false
    → ltb (r.book.last_update_id + 1) e.first_update_id ≡ false
    → validate (updated e r.book) ≡ ok tt
    → replay_event [] (L2Event.depth e) r ≡ ok (replayed_depth e r)
unfolding replay_event replay_branch match_checkpoint apply
replay_event-depth e r fresh joined v = rw (fresh, joined, v) refl

module _ (es : List L2Event) (b : Book) (h : Rebuilds es b) where
  step-Rebuilds :
      (e : L2Event) (b' : Book) (r : Replay)
      → replay_event [] e h.replayed ≡ ok r
      → r.book ≡ b'
      → Rebuilds (es ++ e ∷ []) b'
  unfolding replay_events
  step-Rebuilds e b' r step same = record {
    replayed = r;
    runs =
        replay_events-append [] es (e ∷ []) start
        ∙ ap (λ x. and_then x (replay_events [] (e ∷ []))) h.runs
        ∙ ap (λ x. and_then x (replay_events [] [])) step;
    same_book = same;
  }

  pub boundary-Rebuilds : (e : Boundary) → Rebuilds (es ++ L2Event.boundary e ∷ []) empty_book
  unfolding replay_event replay_branch match_checkpoint clear
  boundary-Rebuilds e = step-Rebuilds (L2Event.boundary e) empty_book _ refl refl

  pub trade-Rebuilds : (e : Trade) → Rebuilds (es ++ L2Event.trade e ∷ []) b
  unfolding replay_event replay_branch match_checkpoint
  trade-Rebuilds e = step-Rebuilds (L2Event.trade e) b _ refl h.same_book

  pub snapshot-Rebuilds :
      (e : Snapshot)
      → validate (loaded e) ≡ ok tt
      → Rebuilds (es ++ L2Event.snapshot e ∷ []) (loaded e)
  unfolding replay_event replay_branch match_checkpoint install_snapshot
  snapshot-Rebuilds e v =
      step-Rebuilds (L2Event.snapshot e) (loaded e)
        (record h.replayed { event_count = h.replayed.event_count + 1; book = loaded e })
        (rw v refl) refl

  pub depth-Rebuilds :
      (e : DepthUpdate)
      → leb e.final_update_id b.last_update_id ≡ false
      → ltb (b.last_update_id + 1) e.first_update_id ≡ false
      → validate (updated e b) ≡ ok tt
      → Rebuilds (es ++ L2Event.depth e ∷ []) (updated e b)
  unfolding replay_event replay_branch match_checkpoint apply
  depth-Rebuilds e fresh joined v =
      step-Rebuilds (L2Event.depth e) (updated e b) (replayed_depth e h.replayed)
        (replay_event-depth e h.replayed
          (ap (λ x. leb e.final_update_id x.last_update_id) h.same_book ∙ fresh)
          (ap (λ x. ltb (x.last_update_id + 1) e.first_update_id) h.same_book ∙ joined)
          (ap (λ x. validate (updated e x)) h.same_book ∙ v))
        (ap (updated e) h.same_book)

event_count-match_checkpoint :
    (c : Option Checkpoint) (r r' : Replay)
    → match_checkpoint c r ≡ ok r'
    → r'.event_count ≡ r.event_count
unfolding match_checkpoint
event_count-match_checkpoint none r r' h = ground (arith, h)
event_count-match_checkpoint (some c) r r' h = ground (arith, h)

pub event_count-replay_branch :
    (e : L2Event) (r r' : Replay) (to_end : Bool)
    → replay_branch e r ≡ ok (to_end, r')
    → r'.event_count ≡ r.event_count
unfolding replay_branch install_snapshot apply
event_count-replay_branch (L2Event.boundary e) r r' to_end h = ground (arith, h)
event_count-replay_branch (L2Event.snapshot e) r r' to_end h = ground (arith, h)
event_count-replay_branch (L2Event.depth e) r r' to_end h = ground (arith, h)
event_count-replay_branch (L2Event.trade e) r r' to_end h = ground (arith, h)

event_count-replay_event :
    (d : Dict ℕ Checkpoint) (e : L2Event) (r r' : Replay)
    → replay_event d e r ≡ ok r'
    → r'.event_count ≡ r.event_count + 1
unfolding replay_event
event_count-replay_event d e r r' h =
    elim (Result-cases (replay_branch e (record r { event_count = r.event_count + 1 }))) [
      | inr (x, failed) ↦ absurd (ground (arith, h, failed))
      | inl ((true, t), done) ↦ ground (
        arith,
        h,
        done,
        event_count-replay_branch e (record r { event_count = r.event_count + 1 }) t true done,
        event_count-match_checkpoint (lookup t.event_count d) t r',
      )
      | inl ((false, t), done) ↦ ground (
        arith,
        h,
        done,
        event_count-replay_branch e (record r { event_count = r.event_count + 1 }) t false done,
      )
    ]

pub event_count-replay_events :
    (d : Dict ℕ Checkpoint) (es : List L2Event) (r r' : Replay)
    → replay_events d es r ≡ ok r'
    → r'.event_count ≡ r.event_count + length es
unfolding replay_events
event_count-replay_events d [] r r' h = ground (arith, h)
event_count-replay_events d (e ∷ es) r r' h = elim (Result-cases (replay_event d e r)) [
  | inr (x, failed) ↦ absurd (ground (arith, h, failed))
  | inl (t, done) ↦
      let one = event_count-replay_event d e r t done in
      let others =
        event_count-replay_events d es t r'
          (sym (ap (λ x. and_then x (replay_events d es)) done) ∙ h) in
      omega (arith, one, others)
]
