-- ===== src/Sim/Run.antt =====
-- market_engine/execution/simulator.py: `_update_mid_and_markouts`, `_finalize_pending_requests`, and
-- `run` over the events of a recording that was read and verified (its metadata are arguments).
use market_systems_workstati.Recording.File.{Yielded}
use market_systems_workstati.Base.{
  ℕ, zero, suc, ◌+◌, ◌*◌, Bool, true, false, not, ◌||◌, none, some, List, [], ◌∷◌, ◌++◌, ltb, leb,
  ◌==◌, nat_eq, list_eq, if◌then◌else◌, length, ok, err, Error, Action, then_do,
}
use market_systems_workstati.Base.Int.{ℤ}
use market_systems_workstati.Base.Dict.{lookup, insert, values}
use market_systems_workstati.Book.Types.{Level, Snapshot, DepthUpdate, price_scale, uint64_max}
use market_systems_workstati.Book.{
  Book, best_bid, best_ask, clear, install_snapshot as install_book, apply,
}
use market_systems_workstati.Book.Views.{is_some}
use market_systems_workstati.Recording.Event.{L2Event, receipt_of}
use market_systems_workstati.Floats.{Floats, of_nat}
use market_systems_workstati.Sim.Types.{
  Side, OrderRequest, SimulatedOrder, Fill, OrderStatus, Reason,
}
use market_systems_workstati.Sim.State.{Config, Simulator, put_order}
use market_systems_workstati.Sim.Submit.{order_arrival, expiry_timestamp}
use market_systems_workstati.Sim.Passive.{
  refresh_consumed_liquidity, process_trade, process_depth_depletion,
}
use market_systems_workstati.Sim.Lifecycle.{
  expire_orders, cancel_all, check_kill_switch, marked_equity,
}
use market_systems_workstati.Sim.Activation.{new_order}
use market_systems_workstati.Sim.Controls.{process_controls}

pub record SimulationResult (F : Type 0) : Type 0 where
  pub orders : List (SimulatedOrder F)
  pub fills : List (Fill F)
  pub ending_position : ℤ
  pub ending_cash_quote : F
  pub marked_equity_quote : F
  pub realized_fees_quote : F
  pub killed : Bool

module _ (fl : Floats) (c : Config fl.Float) where
  open fl use {Float, sub, mul, div, neg}

  -- The signed markout of a fill at a mid price.
  abbrev pub markout : Float → Fill Float → Float
  markout mid f =
      let price = div (of_nat fl f.price) (of_nat fl price_scale) in
      let raw = mul (div (sub mid price) price) (of_nat fl 10000) in
      elim f.side [ Side.buy ↦ raw | Side.sell ↦ neg raw ]

  -- The loop over the horizons: those not yet recorded that have elapsed.
  abbrev pub complete_horizons : Float → ℕ → List ℕ → Fill Float → Fill Float
  complete_horizons mid now [] f = f
  complete_horizons mid now (h ∷ hs) f = complete_horizons mid now hs (
      if is_some (lookup h f.markouts_bps) || ltb now (f.timestamp_ns + h)
      then f
      else record f { markouts_bps = insert h (markout mid f) f.markouts_bps })

  -- `self.fills[index]` is changed in place.
  abbrev pub complete_at : Float → ℕ → ℕ → List (Fill Float) → List (Fill Float)
  complete_at mid now i [] = []
  complete_at mid now zero (f ∷ fs) = complete_horizons mid now c.markout_horizons_ns f ∷ fs
  complete_at mid now (suc i) (f ∷ fs) = f ∷ complete_at mid now i fs

  abbrev pub is_incomplete_at : ℕ → List (Fill Float) → Bool
  is_incomplete_at i [] = false
  is_incomplete_at zero (f ∷ fs) = ltb (length f.markouts_bps) (length c.markout_horizons_ns)
  is_incomplete_at (suc i) (f ∷ fs) = is_incomplete_at i fs

  -- The loop over the pending markouts, and those that remain.
  abbrev pub complete_markouts :
      Float → ℕ → List ℕ → List ℕ → List (Fill Float) → List ℕ × List (Fill Float)
  complete_markouts mid now [] remaining fs = (remaining, fs)
  complete_markouts mid now (i ∷ is) remaining fs =
      let fs' = complete_at mid now i fs in
      complete_markouts mid now is
        (if is_incomplete_at i fs' then remaining ++ i ∷ [] else remaining) fs'

  abbrev pub set_mid : ℕ → Level → Level → Simulator Float → Simulator Float
  set_mid now bid ask s =
      let mid = div (of_nat fl (bid.price + ask.price)) (of_nat fl (2 * price_scale)) in
      let (remaining, fs) = complete_markouts mid now s.pending_markouts [] s.fills in
      record s { latest_mid = some mid; pending_markouts = remaining; fills = fs }

  -- `_update_mid_and_markouts`
  unfoldable pub update_mid : ℕ → Action (Simulator Float) (Unit {0})
  update_mid now s = if s.book.last_update_id == 0 then (ok tt, s) else elim (best_bid s.book) [
    | err e ↦ (err e, s)
    | ok bid ↦ elim (best_ask s.book) [
      | err e ↦ (err e, s)
      | ok ask ↦ (ok tt, set_mid now bid ask s)
    ]
  ]

  -- A method of the book, called on `self.book`.
  abbrev pub on_book : Action Book (Unit {0}) → Action (Simulator Float) (Unit {0})
  on_book m s = let (r, b) = m s.book in (r, record s { book = b })

  -- The branch of `run` for each type of event.
  unfoldable pub process_boundary : Simulator Float → Simulator Float
  process_boundary s =
      let s' = cancel_all Reason.market_data_boundary s in
      record s' {
        book = clear s'.book;
        latest_mid = none;
        pending_markouts = [];
        consumed_liquidity = [];
      }

  unfoldable pub process_snapshot : Snapshot → ℕ → Action (Simulator Float) (Unit {0})
  process_snapshot e now s =
      then_do (on_book (install_book e) s)
        (λ _ s'. update_mid now (record s' { consumed_liquidity = [] }))

  unfoldable pub process_depth : DepthUpdate → ℕ → Action (Simulator Float) (Unit {0})
  process_depth e now s =
      if leb e.final_update_id s.book.last_update_id
      then (ok tt, s)
      else if ltb (s.book.last_update_id + 1) e.first_update_id
      then (err Error.sequence_gap, s)
      else then_do (process_depth_depletion fl c e s) (λ _ s₁.
        then_do (on_book (apply e) s₁) (λ _ s₂. update_mid now (refresh_consumed_liquidity e s₂)))

  unfoldable pub process_event : L2Event → ℕ → Action (Simulator Float) (Unit {0})
  process_event (L2Event.boundary e) now s = (ok tt, process_boundary s)
  process_event (L2Event.snapshot e) now s = process_snapshot e now s
  process_event (L2Event.depth e) now s = process_depth e now s
  process_event (L2Event.trade e) now s = (ok tt, process_trade fl c e s)

  -- One round of the loop of `run`: earlier controls, the event, then the controls of its time.
  unfoldable pub process_tick : L2Event → Action (Simulator Float) (Unit {0})
  process_tick e s =
      let now = receipt_of e in
      then_do (process_controls fl c now false s) (λ _ s₁.
        then_do (process_event e now (expire_orders now false s₁)) (λ _ s₂.
          then_do (process_controls fl c now true s₂)
            (λ _ s₃. (ok tt, check_kill_switch fl c (expire_orders now false s₃)))))

  unfoldable pub process_events : List L2Event → Action (Simulator Float) (Unit {0})
  process_events [] s = (ok tt, s)
  process_events (e ∷ es) s = then_do (process_tick e s) (λ _ s'. process_events es s')

  unfoldable pub finalize_each : List OrderRequest → Action (Simulator Float) (Unit {0})
  finalize_each [] s = (ok tt, s)
  finalize_each (r ∷ rs) s = elim (order_arrival c r) [
    | err e ↦ (err e, s)
    | ok arrival ↦ elim (expiry_timestamp arrival r.time_to_live_ns) [
      | err e ↦ (err e, s)
      | ok expiry ↦ finalize_each rs (
          put_order
            (new_order fl c r arrival expiry OrderStatus.expired
              Reason.recording_ended_before_arrival)
            s)
    ]
  ]

  -- `_finalize_pending_requests`
  unfoldable pub finalize_pending : Action (Simulator Float) (Unit {0})
  finalize_pending s =
      then_do (finalize_each s.pending_requests s)
        (λ _ s'. (ok tt, record s' { pending_requests = [] }))

  unfoldable pub result_of : Simulator Float → SimulationResult Float
  result_of s = record {
    orders = values s.orders;
    fills = s.fills;
    ending_position = s.position;
    ending_cash_quote = s.cash_quote;
    marked_equity_quote = marked_equity fl c s;
    realized_fees_quote = s.realized_fees_quote;
    killed = s.killed;
  }

  -- `run` past its guards: the events that the reader yields, and how it ends, which may be a raise.
  unfoldable pub replay : Yielded → Action (Simulator Float) (SimulationResult Float)
  replay (events, end) s = then_do (process_events events s) (λ _ s₁.
      then_do (end, s₁)
        (λ _ s₂.
          then_do (finalize_pending (expire_orders uint64_max true s₂))
            (λ _ s₃. (ok (result_of s₃), s₃))))

  -- `run`: `data_complete` and what is yielded are what the readers of the recording give.
  unfoldable pub run : Bool → Yielded → Action (Simulator Float) (SimulationResult Float)
  run data_complete yielded s =
      if s.has_run
      then (err Error.already_run, s)
      else if not data_complete
      then (err Error.incomplete_recording, s)
      else replay yielded (record s { has_run = true })
