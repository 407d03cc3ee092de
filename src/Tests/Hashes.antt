-- ===== src/Tests/Hashes.antt =====
-- The hash of a small book, as a value of a checkpoint.
use market_systems_workstati.Base.{◌≡◌, ◌<◌, arith, ok}
use market_systems_workstati.Base.Int.{pos}
use market_systems_workstati.Book.{state_hash, bid_levels, ask_levels}
use market_systems_workstati.Book.Hash.{mix, mix_levels, hash_views}
use market_systems_workstati.Recording.Writer.{make_checkpoint}
use market_systems_workstati.Recording.StateHash.{make_checkpoint-state_hash}
use market_systems_workstati.Tests.Books.{book}

positive_hash : 0 < state_hash book
unfolding state_hash bid_levels ask_levels hash_views mix mix_levels
positive_hash = omega arith

make_checkpoint-state_hash_example :
    make_checkpoint (pos 5) (pos book.last_update_id) (pos (state_hash book))
    ≡ ok (record { event_index = 5; update_id = book.last_update_id; state_hash = state_hash book })
make_checkpoint-state_hash_example =
    make_checkpoint-state_hash book 5 (omega arith) (omega arith) (omega arith) (omega arith)
      positive_hash
