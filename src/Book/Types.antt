-- ===== src/Book/Types.antt =====
-- market_engine/market_data/l2_order_book.py: levels, snapshots, depth updates and trades, with the
-- checks of their `__post_init__`. A field of a value that passed is a natural number.
use market_systems_workstati.Base.{
  ℕ, Bool, true, false, ◌||◌, List, ltb, ◌==◌, nat_eq, if◌then◌else◌, Result, ok, err, Error,
  and_then,
}
use market_systems_workstati.Base.Int.{ℤ, pos, pos_part, leb_ℤ, ltb_ℤ}

abbrev pub uint64_max : ℕ
uint64_max = 18446744073709551615

abbrev pub int64_max : ℕ
int64_max = 9223372036854775807

abbrev pub price_scale : ℕ
price_scale = 100000000

abbrev pub quantity_scale : ℕ
quantity_scale = 100000000

-- `_validate_u64`, with `positive` as the flag.
unfoldable pub check_u64 : Bool → ℤ → Result ℕ
check_u64 positive v =
    if ltb_ℤ v (pos (if positive then 1 else 0)) || ltb_ℤ (pos uint64_max) v
    then err Error.not_unsigned_64
    else ok (pos_part v)

pub record Level : Type 0 where
  pub price : ℕ
  pub quantity : ℕ

-- `Level(price, quantity)`
unfoldable pub make_level : ℤ → ℤ → Result Level
make_level p q =
    if leb_ℤ p (pos 0) || ltb_ℤ (pos int64_max) p
    then err Error.bad_price
    else if ltb_ℤ q (pos 0) || ltb_ℤ (pos uint64_max) q
    then err Error.bad_quantity
    else ok (record { price = pos_part p; quantity = pos_part q })

pub record Snapshot : Type 0 where
  pub receipt_timestamp_ns : ℕ
  pub last_update_id : ℕ
  pub bids : List Level
  pub asks : List Level

infixl 5 ◌>>=◌
abbrev ◌>>=◌ {ℓ κ} : {A : Type ℓ} {B : Type κ} → Result A → (A → Result B) → Result B
m >>= f = and_then m f

-- `Snapshot(receipt, last_update_id, bids, asks)`
unfoldable pub make_snapshot : ℤ → ℤ → List Level → List Level → Result Snapshot
unfolding check_u64
make_snapshot receipt last bids asks = do
  r ← check_u64 true receipt
  i ← check_u64 true last
  ok (record { receipt_timestamp_ns = r; last_update_id = i; bids = bids; asks = asks })

pub record DepthUpdate : Type 0 where
  pub receipt_timestamp_ns : ℕ
  pub event_time_ms : ℕ
  pub first_update_id : ℕ
  pub final_update_id : ℕ
  pub bids : List Level
  pub asks : List Level

unfoldable pub make_depth_update : ℤ → ℤ → ℤ → ℤ → List Level → List Level → Result DepthUpdate
unfolding check_u64
make_depth_update receipt time first final bids asks = do
  r ← check_u64 true receipt
  t ← check_u64 false time
  a ← check_u64 true first
  z ← check_u64 true final
  if ltb z a
      then err Error.bad_update_range
      else ok (record {
        receipt_timestamp_ns = r;
        event_time_ms = t;
        first_update_id = a;
        final_update_id = z;
        bids = bids;
        asks = asks;
      })

pub record Trade : Type 0 where
  pub receipt_timestamp_ns : ℕ
  pub event_time_ms : ℕ
  pub aggregate_trade_id : ℕ
  pub price : ℕ
  pub quantity : ℕ
  pub buyer_is_maker : Bool

unfoldable pub make_trade : ℤ → ℤ → ℤ → ℤ → ℤ → Bool → Result Trade
unfolding check_u64 make_level
make_trade receipt time id p q maker = do
  r ← check_u64 true receipt
  t ← check_u64 false time
  i ← check_u64 true id
  l ← make_level p q
  if l.quantity == 0
      then err Error.zero_trade_quantity
      else ok (record {
        receipt_timestamp_ns = r;
        event_time_ms = t;
        aggregate_trade_id = i;
        price = l.price;
        quantity = l.quantity;
        buyer_is_maker = maker;
      })
