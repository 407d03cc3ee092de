-- ===== src/Capture/Running.antt =====
-- The loop of `capture` (market_engine/market_data/l2_capture.py): each symbol's recording keeps up with
-- its book, whatever the others receive.
use market_systems_workstati.Base.{
  ℕ, ◌≡◌, ◌<◌, ◌≤◌, refl, ap, ap₂, sym, subst, ◌∙◌, Bool, Option, none, some, List, [], ◌∷◌, ◌++◌,
  ok, err, Result, Post, Post_ok, then_do-Post, list_eq, ◌==◌, Bool-cases, inl, inr, All,
  if◌then◌else◌,
}
use market_systems_workstati.Base.Int.{ℤ}
use market_systems_workstati.Base.Dict.{lookup, insert}
use market_systems_workstati.Book.Types.{Snapshot, uint64_max}
use market_systems_workstati.Recording.Event.{L2Event}
use market_systems_workstati.Recording.HeaderTrip.{file_header}
use market_systems_workstati.Recording.File.{iter_events}
use market_systems_workstati.Sync.{SyncState}
use market_systems_workstati.Replay.{Replay, start, replay_events}
use market_systems_workstati.Capture.{SymbolCapture, connection_boundary}
use market_systems_workstati.Capture.Contract.{IsConstructed}
use market_systems_workstati.Capture.Applied.{Fetched}
use market_systems_workstati.Capture.Session.{Captured, Captured-replays}
use market_systems_workstati.Capture.Queue.{
  StreamEvent, QueueItem, Captures, beside, boundary_all, on_event, dispatch, handle_item,
  handle_items,
}

-- Events that their constructors accept.
abbrev pub IsStreamed : StreamEvent → Type 0
IsStreamed (StreamEvent.connection receipt connected) = Unit
IsStreamed (StreamEvent.depth u) = IsConstructed (L2Event.depth u)
IsStreamed (StreamEvent.trade t) = IsConstructed (L2Event.trade t)

-- A property of every entry of a dict of captures.
insert-All :
    (P : List ℕ × SymbolCapture → Type 0) (k : List ℕ) (c : SymbolCapture) (cs : Captures)
    → All P cs
    → P (k, c)
    → All P (insert k c cs)
insert-All P k c [] h p = (p, tt)
insert-All P k c ((j, d) ∷ cs) h p = elim (Bool-cases (j == k)) [
  | inl same ↦ rw same (subst (λ i. P (i, c)) (sym ((list_eq.beq_iff j k).0 same)) p, h.1)
  | inr other ↦ rw other (h.0, insert-All P k c cs h.1 p)
]

lookup-All :
    (P : List ℕ × SymbolCapture → Type 0) (k : List ℕ) (c : SymbolCapture) (cs : Captures)
    → All P cs
    → lookup k cs ≡ some c
    → P (k, c)
lookup-All P k c [] h e = absurd (cc)
lookup-All P k c ((j, d) ∷ cs) h e = elim (Bool-cases (j == k)) [
  | inl same ↦
      subst P
        (ap₂ (λ i x. (i, x)) ((list_eq.beq_iff j k).0 same)
          (same_capture (sym (ap (λ b. if b then some d else lookup k cs) same) ∙ e)))
        h.0
  | inr other ↦
      lookup-All P k c cs h.1 (sym (ap (λ b. if b then some d else lookup k cs) other) ∙ e)
]
  where
    same_capture : {x y : SymbolCapture} → some x ≡ some y → x ≡ y
    same_capture h = cc

module _ (crc32 : List ℕ → ℕ) (monotonic_ns : ℕ → ℤ) (fetcher : List ℕ → ℕ → Result Snapshot) where
  abbrev pub IsCaptured : List ℕ × SymbolCapture → Type 0
  IsCaptured (symbol, c) = Captured crc32 monotonic_ns (fetcher symbol) symbol c

  abbrev Kept : Unit {0} → Captures → Type 0
  Kept u cs = All IsCaptured cs

  boundary_all-All :
      (receipt : ℤ) (connected : Bool) (cs : Captures)
      → All IsCaptured cs
      → Post Kept (boundary_all crc32 monotonic_ns fetcher receipt connected cs)
  unfolding boundary_all
  boundary_all-All receipt connected [] h = tt
  boundary_all-All receipt connected ((symbol, c) ∷ cs) h =
      go (connection_boundary crc32 receipt connected c) refl
        (boundary_all-All receipt connected cs h.1)
    where
      others : Result (Unit {0}) × Captures
      others = boundary_all crc32 monotonic_ns fetcher receipt connected cs

      joined :
          (c' : SymbolCapture) (m : Result (Unit {0}) × Captures)
          → IsCaptured (symbol, c')
          → Post Kept m
          → Post Kept (beside symbol c' m)
      joined c' (ok u, ds) p k = (p, k)
      joined c' (err e, ds) p k = tt

      go :
          (m : Result (Unit {0}) × SymbolCapture)
          → connection_boundary crc32 receipt connected c ≡ m
          → Post Kept others
          → Post Kept (elim m.0 as (λ _. Result (Unit {0}) × Captures) [
            | err e ↦ (err e, (symbol, m.1) ∷ cs)
            | ok u ↦ beside symbol m.1 others
          ])
      go (err e, d) q k = tt
      go (ok u, d) q k = joined d others (Captured.connection receipt connected h.0 q) k

  on_event-IsCaptured :
      (symbol : List ℕ) (event : StreamEvent) (c d : SymbolCapture)
      → IsStreamed event
      → IsCaptured (symbol, c)
      → on_event crc32 monotonic_ns fetcher symbol event c ≡ (ok tt, d)
      → IsCaptured (symbol, d)
  unfolding on_event
  on_event-IsCaptured symbol (StreamEvent.connection receipt connected) c d q h e =
      Captured.connection receipt connected h e
  on_event-IsCaptured symbol (StreamEvent.depth u) c d q h e = Captured.depth u q h e
  on_event-IsCaptured symbol (StreamEvent.trade t) c d q h e = Captured.trade t q h e

  dispatch-All :
      (symbol : Option (List ℕ)) (event : StreamEvent) (cs : Captures)
      → IsStreamed event
      → All IsCaptured cs
      → Post Kept (dispatch crc32 monotonic_ns fetcher symbol event cs)
  unfolding dispatch
  dispatch-All none event cs q h = h
  dispatch-All (some symbol) event cs q h =
      at_capture (lookup symbol cs) (λ c e. lookup-All IsCaptured symbol c cs h e)
    where
      at_event :
          (c : SymbolCapture) (m : Result (Unit {0}) × SymbolCapture)
          → on_event crc32 monotonic_ns fetcher symbol event c ≡ m
          → IsCaptured (symbol, c)
          → Post Kept (m.0, insert symbol m.1 cs)
      at_event c (ok u, d) e k =
          insert-All IsCaptured symbol d cs h (on_event-IsCaptured symbol event c d q k e)
      at_event c (err x, d) e k = tt

      at_capture :
          (o : Option SymbolCapture)
          → ((c : SymbolCapture) → o ≡ some c → IsCaptured (symbol, c))
          → Post Kept (elim o as (λ _. Result (Unit {0}) × Captures) [
            | none ↦ (ok tt, cs)
            | some c ↦
                let (r, c') = on_event crc32 monotonic_ns fetcher symbol event c in
                (r, insert symbol c' cs)
          ])
      at_capture none k = h
      at_capture (some c) k =
          at_event c (on_event crc32 monotonic_ns fetcher symbol event c) refl (k c refl)

  handle_item-All :
      (item : QueueItem) (cs : Captures)
      → IsStreamed item.event
      → All IsCaptured cs
      → Post Kept (handle_item crc32 monotonic_ns fetcher item cs)
  unfolding handle_item
  handle_item-All item cs q h = by_event item.event q
    where
      by_event :
          (event : StreamEvent)
          → IsStreamed event
          → Post Kept (
              handle_item crc32 monotonic_ns fetcher
                (record { symbol = item.symbol; event = event })
                cs)
      by_event (StreamEvent.connection receipt connected) q =
          boundary_all-All receipt connected cs h
      by_event (StreamEvent.depth u) q = dispatch-All item.symbol (StreamEvent.depth u) cs q h
      by_event (StreamEvent.trade t) q = dispatch-All item.symbol (StreamEvent.trade t) cs q h

  handle_items-All :
      (items : List QueueItem) (cs : Captures)
      → All (λ item. IsStreamed item.event) items
      → All IsCaptured cs
      → Post Kept (handle_items crc32 monotonic_ns fetcher items cs)
  unfolding handle_items
  handle_items-All [] cs q h = h
  handle_items-All (item ∷ items) cs q h =
      then_do-Post Kept Kept (handle_item crc32 monotonic_ns fetcher item cs)
        (λ _ cs'. handle_items crc32 monotonic_ns fetcher items cs') (handle_item-All item cs q.0 h)
        (λ u ds k. handle_items-All items ds q.1 k)

  -- Whatever items the loop handles without a raise, for any symbols in any order: each symbol whose
  -- synchronizer is live afterwards has a recording that is read without a raise, and replaying it,
  -- apart from the checkpoints, raises nothing and ends with exactly the book of that synchronizer. The
  -- fetcher gives snapshots that their constructor accepts.
  pub handle_items-replays :
      (items : List QueueItem) (cs ds : Captures) (symbol : List ℕ) (c : SymbolCapture)
      (created : ℕ)
      → ((name : List ℕ) (n : ℕ) (s : Snapshot) → fetcher name n ≡ ok s → Fetched s)
      → All IsCaptured cs
      → All (λ item. IsStreamed item.event) items
      → handle_items crc32 monotonic_ns fetcher items cs ≡ (ok tt, ds)
      → lookup symbol ds ≡ some c
      → 0 < created
      → created ≤ uint64_max
      → c.synchronizer.state ≡ SyncState.live
      → (es : List L2Event) × (r : Replay) × (iter_events crc32
            (file_header symbol created ++ c.writer.stream)
          ≡ (es, ok tt))
        × (replay_events [] es start ≡ ok r)
        × (r.book ≡ c.synchronizer.book)
  handle_items-replays items cs ds symbol c created constructed h q runs found positive small live =
      Captured-replays crc32 monotonic_ns (fetcher symbol) (constructed symbol) created
        (lookup-All IsCaptured symbol c ds
          (Post_ok Kept (handle_items crc32 monotonic_ns fetcher items cs) tt ds runs
            (handle_items-All items cs q h))
          found)
        positive small live
