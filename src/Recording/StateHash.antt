-- ===== src/Recording/StateHash.antt =====
-- The state hash (market_engine/market_data/l2_order_book.py) as a value of a checkpoint
-- (market_engine/recording/l2.py).
use Prim.Native.Nat.{bit_xor}
use market_systems_workstati.Base.{
  ℕ, ◌*◌, ◌%◌, ◌^◌, ◌≤◌, ◌<◌, ◌≡◌, List, [], ◌∷◌, ◌++◌, length, arith, ok,
}
use market_systems_workstati.Base.Int.{pos}
use market_systems_workstati.Base.Bytes.{le_bytes}
use market_systems_workstati.Book.Types.{Level, uint64_max}
use market_systems_workstati.Book.Hash.{mix, mix_levels, hash_views}
use market_systems_workstati.Book.{Book, state_hash, bid_levels, ask_levels}
use market_systems_workstati.Recording.Writer.{make_checkpoint}

mix_fits : (value : ℕ) (raw : List ℕ) → value ≤ uint64_max → mix value raw ≤ uint64_max
unfolding mix
mix_fits value [] h = h
mix_fits value (byte ∷ raw) h =
    mix_fits ((bit_xor value byte * 1099511628211) % 2 ^ 64) raw (omega arith)

mix_levels_fit :
    (value : ℕ) (ls : List Level) → value ≤ uint64_max → mix_levels value ls ≤ uint64_max
unfolding mix_levels
mix_levels_fit value [] h = h
mix_levels_fit value (l ∷ ls) h =
    mix_levels_fit (mix value (le_bytes 8 l.price ++ le_bytes 8 l.quantity)) ls
      (mix_fits value (le_bytes 8 l.price ++ le_bytes 8 l.quantity) h)

state_hash_fits : (b : Book) → state_hash b ≤ uint64_max
unfolding state_hash hash_views
state_hash_fits b = mix_levels_fit _ (ask_levels b 0) (
    mix_fits _ (le_bytes 8 (length (ask_levels b 0))) (
      mix_levels_fit _ (bid_levels b 0) (
        mix_fits _ (le_bytes 8 (length (bid_levels b 0)))
          (mix_fits 14695981039346656037 (le_bytes 8 b.last_update_id) (omega arith)))))

-- The state hash of a book fits a checkpoint: at an event index and with an update ID above zero, both of
-- at most 64 bits, a checkpoint with the hash of the book is constructed unless the hash is zero.
pub make_checkpoint-state_hash :
    (b : Book) (index : ℕ)
    → 0 < index
    → index ≤ uint64_max
    → 0 < b.last_update_id
    → b.last_update_id ≤ uint64_max
    → 0 < state_hash b
    → make_checkpoint (pos index) (pos b.last_update_id) (pos (state_hash b))
      ≡ ok (record { event_index = index; update_id = b.last_update_id; state_hash = state_hash b })
unfolding make_checkpoint
make_checkpoint-state_hash b index i0 i1 u0 u1 h0 = ground (arith, state_hash_fits b)
