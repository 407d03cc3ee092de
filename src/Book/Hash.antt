-- ===== src/Book/Hash.antt =====
-- `L2OrderBook.state_hash` of market_engine/market_data/l2_order_book.py, on the two ordered views.
use Prim.Native.Nat.{bit_xor}
use market_systems_workstati.Base.{ℕ, ◌*◌, ◌%◌, ◌^◌, ◌++◌, List, [], ◌∷◌, length}
use market_systems_workstati.Base.Bytes.{le_bytes}
use market_systems_workstati.Book.Types.{Level}

-- `mix`: 64-bit FNV-1a, `& UINT64_MAX` written as a remainder.
unfoldable pub mix : ℕ → List ℕ → ℕ
mix value [] = value
mix value (byte ∷ raw) = mix ((bit_xor value byte * 1099511628211) % 2 ^ 64) raw

unfoldable pub mix_levels : ℕ → List Level → ℕ
unfolding mix
mix_levels value [] = value
mix_levels value (l ∷ ls) = mix_levels (mix value (le_bytes 8 l.price ++ le_bytes 8 l.quantity)) ls

unfoldable pub hash_views : ℕ → List Level → List Level → ℕ
unfolding mix mix_levels
hash_views last bid_levels ask_levels =
    let start = mix 14695981039346656037 (le_bytes 8 last) in
    let bids = mix_levels (mix start (le_bytes 8 (length bid_levels))) bid_levels in
    mix_levels (mix bids (le_bytes 8 (length ask_levels))) ask_levels
