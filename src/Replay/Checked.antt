-- ===== src/Replay/Checked.antt =====
-- What the loop of `replay` (market_engine/cli/verify_l2_replay.py) checked, when it did not raise.
use market_systems_workstati.Base.{ℕ, ◌+◌, ◌≡◌, Bool, true, false, List, [], ◌∷◌, leb, nat_eq}
use market_systems_workstati.Base.Dict.{Dict}
use market_systems_workstati.Book.{state_hash}
use market_systems_workstati.Recording.Event.{L2Event}
use market_systems_workstati.Recording.Writer.{Checkpoint}
use market_systems_workstati.Replay.{Replay}

-- A depth event that adds nothing to what the book has.
abbrev pub is_stale : L2Event → ℕ → Bool
is_stale (L2Event.depth e) last = leb e.final_update_id last
is_stale e last = false

abbrev pub trades_in : List L2Event → ℕ
trades_in [] = 0
trades_in (L2Event.trade e ∷ es) = trades_in es + 1
trades_in (_ ∷ es) = trades_in es

-- A round that stops at `continue`.
pub record Skips (e : L2Event) (before after : Replay) : Type 0 where
  pub stale : is_stale e before.book.last_update_id ≡ true
  pub same_book : after.book ≡ before.book
  pub same_matches : after.checkpoint_matches ≡ before.checkpoint_matches

-- A round that finds the checkpoint in the book that it leaves, and counts it.
pub record Matches (c : Checkpoint) (e : L2Event) (before after : Replay) : Type 0 where
  pub fresh : is_stale e before.book.last_update_id ≡ false
  pub same_id : c.update_id ≡ after.book.last_update_id
  pub same_hash : c.state_hash ≡ state_hash after.book
  pub one_more : after.checkpoint_matches ≡ before.checkpoint_matches + 1
