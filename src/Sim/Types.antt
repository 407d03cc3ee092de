-- ===== src/Sim/Types.antt =====
-- market_engine/execution/simulator.py: orders, cancellations, fills and their enumerations. An order
-- ID is the list of its code points.
use market_systems_workstati.Base.{
  ℕ, ◌-◌, ◌≡◌, ◌↔◌, Bool, true, false, ◌&&◌, ◌||◌, Option, none, some, List, [], ◌∷◌, arith, ltb,
  leb, nat_beq, if◌then◌else◌, Result, ok, err, Error, and_then, all, Eq,
}
use market_systems_workstati.Base.Int.{ℤ, pos, pos_part, leb_ℤ, ltb_ℤ}
use market_systems_workstati.Base.Dict.{Dict}
use market_systems_workstati.Book.Types.{uint64_max, int64_max}
use market_systems_workstati.Book.{BookSide}

pub data Side : Type 0 where
  buy sell : Side

pub data OrderType : Type 0 where
  market limit : OrderType

pub data OrderStatus : Type 0 where
  pending open_order partially_filled filled cancelled expired rejected : OrderStatus

pub data QueueModel : Type 0 where
  trade_only pro_rata_depth optimistic_depth : QueueModel

-- The strings of `rejection_reason`; a boundary's and the kill switch's are passed to `_cancel_all`.
pub data Reason : Type 0 where
  no_reason kill_switch_active position_limit book_unavailable insufficient_visible_depth : Reason
  position_limit_during_partial_fill cancel_arrived_before_order : Reason
  recording_ended_before_arrival market_data_boundary kill_switch : Reason

abbrev pub OrderId : Type 0
OrderId = List ℕ

pub record OrderRequest : Type 0 where
  pub order_id : OrderId
  pub decision_timestamp_ns : ℕ
  pub side : Side
  pub order_type : OrderType
  pub quantity : ℕ
  pub limit_price : Option ℕ
  pub time_to_live_ns : Option ℕ

pub record CancelRequest : Type 0 where
  pub order_id : OrderId
  pub decision_timestamp_ns : ℕ

-- What `str.strip` removes.
abbrev is_space : ℕ → Bool
is_space c =
    (leb 9 c && leb c 13)
    || (leb 28 c && leb c 32)
    || nat_beq c 133
    || nat_beq c 160
    || nat_beq c 5760
    || (leb 8192 c && leb c 8202)
    || nat_beq c 8232
    || nat_beq c 8233
    || nat_beq c 8239
    || nat_beq c 8287
    || nat_beq c 12288

-- `not order_id.strip()`
abbrev is_blank : OrderId → Bool
is_blank id = all is_space id

abbrev outside : ℤ → ℕ → Bool
outside v most = leb_ℤ v (pos 0) || ltb_ℤ (pos most) v

-- The checks of the limit price by order type.
abbrev check_limit : OrderType → Option ℤ → Result (Option ℕ)
check_limit OrderType.limit none = err Error.bad_limit_price
check_limit OrderType.limit (some p) =
    if outside p int64_max then err Error.bad_limit_price else ok (some (pos_part p))
check_limit OrderType.market none = ok none
check_limit OrderType.market (some p) = err Error.market_with_limit

abbrev check_time_to_live : Option ℤ → Result (Option ℕ)
check_time_to_live none = ok none
check_time_to_live (some t) =
    if outside t uint64_max then err Error.bad_time_to_live else ok (some (pos_part t))

-- `OrderRequest(...)` with the checks of `__post_init__`, in their order.
unfoldable pub make_request :
    OrderId → ℤ → Side → OrderType → ℤ → Option ℤ → Option ℤ → Result OrderRequest
make_request id decision side kind quantity limit_price ttl =
    if is_blank id
    then err Error.empty_order_id
    else if outside decision uint64_max
    then err Error.not_unsigned_64
    else if outside quantity uint64_max
    then err Error.not_unsigned_64
    else and_then (check_limit kind limit_price) λ p. and_then (check_time_to_live ttl) λ t.
      ok (record {
        order_id = id;
        decision_timestamp_ns = pos_part decision;
        side = side;
        order_type = kind;
        quantity = pos_part quantity;
        limit_price = p;
        time_to_live_ns = t;
      })

unfoldable pub make_cancel : OrderId → ℤ → Result CancelRequest
make_cancel id decision =
    if is_blank id
    then err Error.empty_order_id
    else if outside decision uint64_max
    then err Error.not_unsigned_64
    else ok (record { order_id = id; decision_timestamp_ns = pos_part decision })

pub record SimulatedOrder (F : Type 0) : Type 0 where
  pub request : OrderRequest
  pub arrival_timestamp_ns : ℕ
  pub expiry_timestamp_ns : Option ℕ
  pub status : OrderStatus
  pub filled_quantity : ℕ
  pub queue_ahead : F
  pub rejection_reason : Reason

-- `remaining_quantity`; it is never negative (Sim/Ledger).
abbrev pub remaining_quantity : {F : Type 0} → SimulatedOrder F → ℕ
remaining_quantity o = o.request.quantity - o.filled_quantity

pub record Fill (F : Type 0) : Type 0 where
  pub order_id : OrderId
  pub timestamp_ns : ℕ
  pub side : Side
  pub quantity : ℕ
  pub price : ℕ
  pub maker : Bool
  pub fee_quote : F
  pub markouts_bps : Dict ℕ F

abbrev pub is_buy : Side → Bool
is_buy Side.buy = true
is_buy Side.sell = false

abbrev pub side_beq : Side → Side → Bool
side_beq Side.buy Side.buy = true
side_beq Side.sell Side.sell = true
side_beq _ _ = false

-- `status in (OPEN, PARTIALLY_FILLED)`
abbrev pub is_working : OrderStatus → Bool
is_working OrderStatus.open_order = true
is_working OrderStatus.partially_filled = true
is_working _ = false

abbrev pub option_beq : Option ℕ → ℕ → Bool
option_beq none n = false
option_beq (some m) n = nat_beq m n

-- Order IDs compare as Python strings do, by code points.
abbrev pub id_leb : OrderId → OrderId → Bool
id_leb [] _ = true
id_leb (x ∷ xs) [] = false
id_leb (x ∷ xs) (y ∷ ys) = ltb x y || (nat_beq x y && id_leb xs ys)

-- The keys `("bid", price)` and `("ask", price)`.
abbrev pub LevelKey : Type 0
LevelKey = BookSide × ℕ

abbrev book_side_beq : BookSide → BookSide → Bool
book_side_beq BookSide.bid BookSide.bid = true
book_side_beq BookSide.ask BookSide.ask = true
book_side_beq BookSide.other_side BookSide.other_side = true
book_side_beq _ _ = false

abbrev pub key_beq : LevelKey → LevelKey → Bool
key_beq (a, p) (b, q) = book_side_beq a b && nat_beq p q

pub key_beq_iff : (a b : LevelKey) → (key_beq a b ≡ true) ↔ (a ≡ b)
key_beq_iff (a, p) (b, q) = ground arith

instance abbrev pub key_eq : Eq LevelKey
key_eq = record { beq = key_beq; beq_iff = key_beq_iff }
