-- ===== src/Tests/Orders.antt =====
-- market_engine/execution/simulator.py on a short recording. The floats are whole numbers.
use market_systems_workstati.Base.{
  ◌+◌, ◌*◌, ◌/◌, ◌≡◌, refl, true, false, none, some, [], ◌∷◌, arith, list_eq, nat_eq,
}
use market_systems_workstati.Base.Int.{ℤ, pos, pos_part, ◌+ℤ◌, ◌-ℤ◌, leb_ℤ, ltb_ℤ}
use market_systems_workstati.Base.Dict.{lookup}
use market_systems_workstati.Recording.Event.{L2Event}
use market_systems_workstati.Floats.{Floats}
use market_systems_workstati.Base.{ok}
use market_systems_workstati.Recording.File.{Yielded}
use market_systems_workstati.Sim.Types.{
  OrderRequest, CancelRequest, Side, OrderType, OrderStatus, Reason, QueueModel, SimulatedOrder,
}
use market_systems_workstati.Sim.State.{Config, Simulator, make_simulator, position_allows}
use market_systems_workstati.Sim.Run.{
  replay, process_events, process_tick, process_event, process_snapshot, update_mid, process_depth,
  finalize_each, finalize_pending, process_boundary, result_of, run,
}
use market_systems_workstati.Sim.Controls.{
  process_controls, activate_next, cancel_next, cancel_pending, control_loop, next_order,
  process_cancel, run_control,
}
use market_systems_workstati.Sim.Passive.{
  process_depth_depletion, refresh_consumed_liquidity, advance, decreases_of, deplete, deplete_all,
  deplete_order, process_trade, fill_maker,
}
use market_systems_workstati.Book.{
  install_snapshot, apply, ask_levels, best_ask, best_bid, bid_levels, clear, load_levels, loaded,
  quantity_at, set_level, set_levels, updated, validate,
}
use market_systems_workstati.Sim.Activation.{
  activate_request, admit, is_marketable, rest_order, route, route_limit,
}
use market_systems_workstati.Sim.Fills.{
  book_fill, consume, execute_taker, record_fill, visible, walk,
}
use market_systems_workstati.Sim.Lifecycle.{
  cancel_all, check_kill_switch, expire_orders, marked_equity,
}
use market_systems_workstati.Sim.Submit.{expiry_timestamp, order_arrival, submit, cancel}
use market_systems_workstati.Sim.Ledger.{IsBooked}
use market_systems_workstati.Sim.Ledger.Session.{IsPrepared, run-prepared-IsBooked}
use market_systems_workstati.Sim.Settling.{pending}
use market_systems_workstati.Sim.Settling.Rounds.{process_controls_ends}
use market_systems_workstati.Sim.Settling.Timed.{IsSettled, Scheduled, process_controls-IsSettled}
use market_systems_workstati.Sim.Refusal.{refused_maker_stays_open}
use market_systems_workstati.Tests.Books.{snapshot, update}

-- The product and the quotient of magnitudes are enough here: the fee is zero.
abbrev pub whole : Floats
whole = record {
  Float = ℤ;
  of_int = λ n. n;
  add = ◌+ℤ◌;
  sub = ◌-ℤ◌;
  mul = λ a b. pos (pos_part a * pos_part b);
  div = λ a b. pos (pos_part a / pos_part b);
  neg = λ a. pos 0 -ℤ a;
  less = ltb_ℤ;
  less_eq = leb_ℤ;
  is_finite = λ a. true;
  is_nan = λ a. false;
  trunc = λ a. a;
}

abbrev config : Config ℤ
config = record {
  decision_latency_ns = 0;
  transmission_latency_ns = 1;
  cancel_latency_ns = 1;
  maker_fee_bps = pos 0;
  taker_fee_bps = pos 0;
  queue_model = QueueModel.trade_only;
  queue_ahead_fraction = pos 1;
  depth_depletion_fill_fraction = pos 0;
  max_absolute_position = 6;
  kill_switch_loss_quote = pos 100;
  markout_horizons_ns = [];
}

abbrev buy_market : OrderRequest
buy_market = record {
  order_id = 97 ∷ [];
  decision_timestamp_ns = 1;
  side = Side.buy;
  order_type = OrderType.market;
  quantity = 5;
  limit_price = none;
  time_to_live_ns = none;
}

abbrev cancel_unknown : CancelRequest
cancel_unknown = record { order_id = 98 ∷ []; decision_timestamp_ns = 1 }

abbrev prepared : Simulator ℤ
prepared = (cancel config cancel_unknown (submit config buy_market (make_simulator whole)).1).1

prepared-IsPrepared : IsPrepared whole config prepared
prepared-IsPrepared =
    IsPrepared.cancelled cancel_unknown (IsPrepared.submitted buy_market IsPrepared.fresh)

abbrev recorded : Yielded
recorded = (L2Event.snapshot snapshot ∷ L2Event.depth update ∷ [], ok tt)

run-prepared-IsBooked_example : IsBooked config (run whole config true recorded prepared).1
run-prepared-IsBooked_example = run-prepared-IsBooked whole config true recorded prepared-IsPrepared

-- A resting buy of nine, when six is the most that may be held.
abbrev resting : SimulatedOrder ℤ
resting = record {
  request = record buy_market { order_type = OrderType.limit; quantity = 9; limit_price = some 10 };
  arrival_timestamp_ns = 2;
  expiry_timestamp_ns = none;
  status = OrderStatus.open_order;
  filled_quantity = 0;
  queue_ahead = pos 0;
  rejection_reason = Reason.no_reason;
}

resting_refused : position_allows config Side.buy 9 (make_simulator whole) ≡ false
unfolding position_allows ◌+ℤ◌
resting_refused = refl

refused_maker_stays_open_example :
    let t = fill_maker whole config (97 ∷ []) 3 10 (pos 20) resting (make_simulator whole) in
    (lookup ⦃e = list_eq⦄ (97 ∷ []) t.orders
      ≡ some (record resting {
        status = OrderStatus.partially_filled;
        rejection_reason = Reason.position_limit_during_partial_fill;
      }))
    × (t.fills ≡ [])
    × (t.position ≡ pos 0)
refused_maker_stays_open_example =
    refused_maker_stays_open whole config 3 10 (pos 20) resting (make_simulator whole) (omega arith)
      resting_refused

bought : (run whole config true recorded prepared).1.position ≡ pos 5
unfolding replay process_events process_tick process_event process_snapshot update_mid process_depth
    finalize_each finalize_pending process_boundary result_of run process_controls activate_next
    cancel_next cancel_pending control_loop next_order process_cancel run_control
    process_depth_depletion refresh_consumed_liquidity advance decreases_of deplete deplete_all
    deplete_order process_trade fill_maker install_snapshot apply ask_levels best_ask best_bid
    bid_levels clear load_levels loaded quantity_at set_level set_levels updated validate
    activate_request admit is_marketable rest_order route route_limit book_fill consume
    execute_taker record_fill visible walk cancel_all check_kill_switch expire_orders marked_equity
    expiry_timestamp order_arrival submit cancel position_allows ◌+ℤ◌ ◌-ℤ◌
bought = refl

prepared-Scheduled : Scheduled whole config prepared
prepared-Scheduled =
    Scheduled.cancelled cancel_unknown (Scheduled.submitted buy_market Scheduled.fresh)

process_controls-IsSettled_example :
    IsSettled whole config 3 true (process_controls whole config 3 true prepared)
process_controls-IsSettled_example =
    process_controls-IsSettled whole config 3 true prepared prepared-Scheduled

process_controls_ends_example :
    control_loop whole config (pending prepared + 5) 3 true prepared
    ≡ process_controls whole config 3 true prepared
process_controls_ends_example = process_controls_ends whole config 5 3 true prepared
