-- ===== src/Capture/Queue.antt =====
-- The loop of `capture` (market_engine/market_data/l2_capture.py) over the items of its queue, each for
-- one of the symbols or for all of them. Waiting for an item and reporting are left out.
use market_systems_workstati.Base.{
  ℕ, Bool, Option, none, some, List, [], ◌∷◌, ok, err, Result, Action, then_do, list_eq,
}
use market_systems_workstati.Base.Int.{ℤ}
use market_systems_workstati.Base.Dict.{Dict, lookup, insert}
use market_systems_workstati.Book.Types.{Snapshot, DepthUpdate, Trade}
use market_systems_workstati.Capture.{SymbolCapture, connection_boundary, on_depth, on_trade}

-- `ConnectionBoundary`, or a market event.
pub data StreamEvent : Type 0 where
  connection : ℤ → Bool → StreamEvent
  depth : DepthUpdate → StreamEvent
  trade : Trade → StreamEvent

pub record QueueItem : Type 0 where
  pub symbol : Option (List ℕ)
  pub event : StreamEvent

-- `captures`, by symbol.
abbrev pub Captures : Type 0
Captures = Dict (List ℕ) SymbolCapture

-- A capture in its place before the others.
abbrev pub beside :
    List ℕ → SymbolCapture → Result (Unit {0}) × Captures → Result (Unit {0}) × Captures
beside symbol c (r, cs) = (r, (symbol, c) ∷ cs)

-- `crc32`, `monotonic_ns` by the number of a capture's call, and the fetcher by symbol and number.
module _ (crc32 : List ℕ → ℕ) (monotonic_ns : ℕ → ℤ) (fetcher : List ℕ → ℕ → Result Snapshot) where
  -- `for state in captures.values(): state.connection_boundary(...)`
  unfoldable pub boundary_all : ℤ → Bool → Action Captures (Unit {0})
  unfolding connection_boundary
  boundary_all receipt connected [] = (ok tt, [])
  boundary_all receipt connected ((symbol, c) ∷ cs) =
      let (r, c') = connection_boundary crc32 receipt connected c in
      let others = boundary_all receipt connected cs in
      elim r [ err e ↦ (err e, (symbol, c') ∷ cs) | ok u ↦ beside symbol c' others ]

  -- The part of an item that its capture does.
  unfoldable pub on_event : List ℕ → StreamEvent → Action SymbolCapture (Unit {0})
  unfolding connection_boundary on_depth on_trade
  on_event symbol (StreamEvent.depth u) c = on_depth crc32 monotonic_ns (fetcher symbol) u c
  on_event symbol (StreamEvent.trade t) c = on_trade crc32 t c
  on_event symbol (StreamEvent.connection receipt connected) c =
      connection_boundary crc32 receipt connected c

  -- An item with a symbol: nothing happens if it is none of the captures'.
  unfoldable pub dispatch : Option (List ℕ) → StreamEvent → Action Captures (Unit {0})
  unfolding on_event
  dispatch none event cs = (ok tt, cs)
  dispatch (some symbol) event cs = elim (lookup symbol cs) [
    | none ↦ (ok tt, cs)
    | some c ↦ let (r, c') = on_event symbol event c in (r, insert symbol c' cs)
  ]

  unfoldable pub handle_item : QueueItem → Action Captures (Unit {0})
  unfolding boundary_all dispatch
  handle_item item cs = elim item.event [
    | StreamEvent.connection receipt connected ↦ boundary_all receipt connected cs
    | StreamEvent.depth u ↦ dispatch item.symbol (StreamEvent.depth u) cs
    | StreamEvent.trade t ↦ dispatch item.symbol (StreamEvent.trade t) cs
  ]

  -- The loop: the first raise ends it.
  unfoldable pub handle_items : List QueueItem → Action Captures (Unit {0})
  unfolding handle_item
  handle_items [] cs = (ok tt, cs)
  handle_items (item ∷ items) cs = then_do (handle_item item cs) (λ _ cs'. handle_items items cs')
