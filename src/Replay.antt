-- ===== src/Replay.antt =====
-- market_engine/cli/verify_l2_replay.py: `replay`, and the comparison of trials in `main`. Timing is left
-- out: waiting changes nothing that is computed.
pub mod Steps
pub mod Books
pub mod Checked
use market_systems_workstati.Base.{
  ℕ, ◌+◌, ◌≡◌, Bool, true, false, not, ◌&&◌, ◌||◌, Option, none, some, List, [], ◌∷◌, ◌++◌, ltb,
  leb, ◌==◌, nat_eq, list_eq, if◌then◌else◌, Result, ok, err, Error, and_then,
}
use market_systems_workstati.Base.Bytes.{le_bytes}
use market_systems_workstati.Base.Dict.{Dict, lookup, insert}
use market_systems_workstati.Book.{Book, empty_book, clear, install_snapshot, apply, state_hash}
use market_systems_workstati.Recording.Event.{L2Event}
use market_systems_workstati.Recording.Writer.{Checkpoint, read_checkpoints}
use market_systems_workstati.Recording.File.{Yielded, iter_events}

-- The local variables of `replay`; `digest` is what `state_digest` was given.
pub record Replay : Type 0 where
  pub book : Book
  pub event_count : ℕ
  pub depth_count : ℕ
  pub trade_count : ℕ
  pub checkpoint_matches : ℕ
  pub digest : List ℕ

abbrev pub start : Replay
start = record {
  book = empty_book;
  event_count = 0;
  depth_count = 0;
  trade_count = 0;
  checkpoint_matches = 0;
  digest = [];
}

-- The branches on the type of the event; `false` stands for the `continue`.
unfoldable pub replay_branch : L2Event → Replay → Result (Bool × Replay)
unfolding clear install_snapshot apply
replay_branch (L2Event.boundary e) r = ok (true, record r { book = clear r.book })
replay_branch (L2Event.snapshot e) r =
    let (raised, b) = install_snapshot e r.book in
    and_then raised (λ _. ok (true, record r { book = b }))
replay_branch (L2Event.depth e) r =
    let (raised, b) = apply e r.book in
    if leb e.final_update_id r.book.last_update_id
    then ok (false, r)
    else if ltb (r.book.last_update_id + 1) e.first_update_id
    then err Error.unmarked_gap
    else and_then raised λ _. ok (
      true,
      record r {
        book = b;
        depth_count = r.depth_count + 1;
        digest = r.digest ++ le_bytes 8 (state_hash b);
      },
    )
replay_branch (L2Event.trade e) r = ok (true, record r { trade_count = r.trade_count + 1 })

-- The check of the checkpoint that stands at the event's number.
unfoldable pub match_checkpoint : Option Checkpoint → Replay → Result Replay
match_checkpoint none r = ok r
match_checkpoint (some c) r =
    if not (c.update_id == r.book.last_update_id) || not (c.state_hash == state_hash r.book)
    then err Error.checkpoint_mismatch
    else ok (record r { checkpoint_matches = r.checkpoint_matches + 1 })

-- A round of the loop.
unfoldable pub replay_event : Dict ℕ Checkpoint → L2Event → Replay → Result Replay
unfolding replay_branch match_checkpoint
replay_event checkpoints e r =
    and_then (replay_branch e (record r { event_count = r.event_count + 1 })) λ (to_end, r').
      if to_end then match_checkpoint (lookup r'.event_count checkpoints) r' else ok r'

-- The loop, over events that are yielded one by one.
unfoldable pub replay_events : Dict ℕ Checkpoint → List L2Event → Replay → Result Replay
unfolding replay_event
replay_events checkpoints [] r = ok r
replay_events checkpoints (e ∷ es) r =
    and_then (replay_event checkpoints e r) (λ r'. replay_events checkpoints es r')

-- `{item.event_index: item for item in checkpoints}`
abbrev pub by_event : List Checkpoint → Dict ℕ Checkpoint → Dict ℕ Checkpoint
by_event [] d = d
by_event (c ∷ cs) d = by_event cs (insert c.event_index c d)

-- What `replay` takes from the metadata of a recording: the bytes of its checkpoint file, if it has
-- one, its creation time and its final state.
pub record Claimed : Type 0 where
  pub checkpoint_file : Option (List ℕ)
  pub created_unix_ns : ℕ
  pub final_update_id : Option ℕ
  pub final_state_hash : Option ℕ

-- The dict that `replay` returns, without the speed.
pub record Trial : Type 0 where
  pub events : ℕ
  pub depth_events : ℕ
  pub trades : ℕ
  pub checkpoints_verified : ℕ
  pub final_update_id : ℕ
  pub final_state_hash : ℕ
  pub state_sequence_sha256 : List ℕ

abbrev pub agrees : Option ℕ → ℕ → Bool
agrees none n = true
agrees (some m) n = n == m

-- The two checks at the end of `replay`.
unfoldable pub check_final : Claimed → Book → Result (Unit {0})
check_final claimed b =
    if not (agrees claimed.final_update_id b.last_update_id)
    then err Error.final_id_mismatch
    else if not (agrees claimed.final_state_hash (state_hash b))
    then err Error.final_hash_mismatch
    else ok tt

unfoldable pub recorded_checkpoints : Claimed → Result (List Checkpoint)
unfolding read_checkpoints
recorded_checkpoints claimed = elim claimed.checkpoint_file [
  | none ↦ ok []
  | some raw ↦ read_checkpoints (some claimed.created_unix_ns) raw
]

module _ (crc32 : List ℕ → ℕ) (sha256 : List ℕ → List ℕ) where
  -- `replay` on the bytes of a recording, with the metadata that was read for it.
  unfoldable pub replay : Claimed → List ℕ → Result Trial
  unfolding recorded_checkpoints replay_events check_final iter_events
  replay claimed raw =
      let (es, end) = iter_events crc32 raw in
      and_then (recorded_checkpoints claimed) λ checkpoints.
        and_then (replay_events (by_event checkpoints []) es start) λ r. and_then end λ _.
          and_then (check_final claimed r.book) λ _. ok (record {
            events = r.event_count;
            depth_events = r.depth_count;
            trades = r.trade_count;
            checkpoints_verified = r.checkpoint_matches;
            final_update_id = r.book.last_update_id;
            final_state_hash = state_hash r.book;
            state_sequence_sha256 = sha256 r.digest;
          })

-- The keys that `main` compares.
abbrev pub same_trial : Trial → Trial → Bool
same_trial t c =
    t.events == c.events
    && t.depth_events == c.depth_events
    && t.trades == c.trades
    && t.final_update_id == c.final_update_id
    && t.final_state_hash == c.final_state_hash
    && t.state_sequence_sha256 == c.state_sequence_sha256

-- The loop of `main` over the trials after the first.
unfoldable pub compare_trials : Trial → List Trial → Result (Unit {0})
compare_trials canonical [] = ok tt
compare_trials canonical (t ∷ ts) =
    let rest = compare_trials canonical ts in
    if same_trial t canonical then rest else err Error.not_deterministic
