-- ===== src/Capture/Session.antt =====
-- Every history of a `SymbolCapture` (market_engine/market_data/l2_capture.py), its recording read back by
-- `iter_events` (market_engine/recording/l2.py) and replayed (market_engine/cli/verify_l2_replay.py).
use market_systems_workstati.Base.{
  ℕ, ◌≡◌, ◌<◌, ◌≤◌, ◌≢◌, none, ap, sym, subst, ◌∙◌, Bool, true, List, [], ◌++◌, arith, ok, Result,
  Post_ok,
}
use market_systems_workstati.Base.Int.{ℤ}
use market_systems_workstati.Book.Types.{DepthUpdate, Snapshot, Trade, uint64_max}
use market_systems_workstati.Book.{empty_book}
use market_systems_workstati.Recording.Event.{L2Event}
use market_systems_workstati.Recording.Writer.{Writer, open_writer}
use market_systems_workstati.Recording.Header.{is_symbol, encode_symbol}
use market_systems_workstati.Recording.HeaderTrip.{file_header}
use market_systems_workstati.Recording.File.{iter_events, iter_events-records}
use market_systems_workstati.Sync.{DepthSynchronizer, SyncState, make_synchronizer}
use market_systems_workstati.Sync.Session.{make_synchronizer-IsSound}
use market_systems_workstati.Replay.{Replay, start, replay_events}
use market_systems_workstati.Replay.Steps.{nothing-Rebuilds}
use market_systems_workstati.Capture.{
  SymbolCapture, make_capture, on_depth, on_trade, connection_boundary,
}
use market_systems_workstati.Capture.Contract.{IsConstructed}
use market_systems_workstati.Capture.Applied.{Received, Fetched}
use market_systems_workstati.Capture.Installing.{IsFaithful, IsPending, idle-IsFaithful, Sound}
use market_systems_workstati.Capture.Faithful.{
  connection_boundary-Faithful, on_trade_in-Faithful, on_depth-Faithful,
}

make_capture_parts :
    (symbol : List ℕ) (w : Writer) (s : DepthSynchronizer) (limit : ℤ) (c : SymbolCapture)
    → make_capture symbol w s limit ≡ ok c
    → (c.synchronizer ≡ s) × (c.writer ≡ w) × (c.pending_snapshot ≡ none)
unfolding make_capture
make_capture_parts symbol w s limit c h = ground (arith, h)

make_synchronizer_idle :
    (maximum : ℤ) (s : DepthSynchronizer)
    → make_synchronizer maximum ≡ ok s
    → s.state ≢ SyncState.live
unfolding make_synchronizer
make_synchronizer_idle maximum s h l = ground (arith, h, l)

open_writer_parts :
    (symbol : List ℕ) (interval : ℤ) (w : Writer)
    → open_writer symbol interval ≡ ok w
    → (is_symbol symbol ≡ true) × (w.stream ≡ [])
unfolding open_writer encode_symbol
open_writer_parts symbol interval w h = ground (arith, h)

module _ (crc32 : List ℕ → ℕ) (monotonic_ns : ℕ → ℤ) (fetcher : ℕ → Result Snapshot) where
  -- What a capture of the symbol can become, with events that their constructors accept, as long as no
  -- call raises: `capture` stops at the first that does.
  pub data Captured (symbol : List ℕ) : SymbolCapture → Type 0 where
    opened :
        (interval maximum limit : ℤ) {w : Writer} {s : DepthSynchronizer} {c : SymbolCapture}
        → open_writer symbol interval ≡ ok w
        → make_synchronizer maximum ≡ ok s
        → make_capture symbol w s limit ≡ ok c
        → Captured symbol c
    connection :
        (receipt : ℤ) (connected : Bool) {c d : SymbolCapture}
        → Captured symbol c
        → connection_boundary crc32 receipt connected c ≡ (ok tt, d)
        → Captured symbol d
    depth :
        (u : DepthUpdate) {c d : SymbolCapture}
        → Received u
        → Captured symbol c
        → on_depth crc32 monotonic_ns fetcher u c ≡ (ok tt, d)
        → Captured symbol d
    trade :
        (t : Trade) {c d : SymbolCapture}
        → IsConstructed (L2Event.trade t)
        → Captured symbol c
        → on_trade crc32 t c ≡ (ok tt, d)
        → Captured symbol d

  opened-IsFaithful :
      (symbol : List ℕ) (interval maximum limit : ℤ) (w : Writer) (s : DepthSynchronizer)
      (c : SymbolCapture)
      → open_writer symbol interval ≡ ok w
      → make_synchronizer maximum ≡ ok s
      → make_capture symbol w s limit ≡ ok c
      → IsFaithful crc32 c
  opened-IsFaithful symbol interval maximum limit w s c opens makes captures =
      let (same_synchronizer, same_writer, unset) =
        make_capture_parts symbol w s limit c captures in
      idle-IsFaithful crc32 c empty_book
        (subst Sound (sym same_synchronizer)
          (make_synchronizer-IsSound Received Fetched maximum s makes))
        (subst IsPending (sym unset) tt)
        (λ l.
          make_synchronizer_idle maximum s makes (sym (ap (λ z. z.state) same_synchronizer) ∙ l))
        (record {
          events = [];
          written = ap (λ z. z.stream) same_writer ∙ (open_writer_parts symbol interval w opens).1;
          recordable = tt;
          rebuilds = nothing-Rebuilds;
        })

  pub Captured-is_symbol :
      {symbol : List ℕ} {c : SymbolCapture} → Captured symbol c → is_symbol symbol ≡ true
  Captured-is_symbol {symbol = symbol}
        (Captured.opened interval maximum limit {w = w} opens makes captures) =
      (open_writer_parts symbol interval w opens).0
  Captured-is_symbol (Captured.connection receipt connected h done) = Captured-is_symbol h
  Captured-is_symbol (Captured.depth u q h done) = Captured-is_symbol h
  Captured-is_symbol (Captured.trade t q h done) = Captured-is_symbol h

  module _ (constructed : (n : ℕ) (s : Snapshot) → fetcher n ≡ ok s → Fetched s) where
    pub Captured-IsFaithful :
        {symbol : List ℕ} {c : SymbolCapture} → Captured symbol c → IsFaithful crc32 c
    unfolding on_trade
    Captured-IsFaithful {symbol = symbol}
          (Captured.opened interval maximum limit {w = w} {s = s} {c = c} opens makes captures) =
        opened-IsFaithful symbol interval maximum limit w s c opens makes captures
    Captured-IsFaithful (Captured.connection receipt connected {c = c} {d = d} h done) =
        Post_ok (λ a x. IsFaithful crc32 x) _ tt d done
          (connection_boundary-Faithful crc32 receipt connected c (Captured-IsFaithful h))
    Captured-IsFaithful (Captured.depth u {c = c} {d = d} q h done) =
        Post_ok (λ a x. IsFaithful crc32 x) _ tt d done
          (on_depth-Faithful crc32 monotonic_ns fetcher constructed u c q (Captured-IsFaithful h))
    Captured-IsFaithful (Captured.trade t {c = c} {d = d} q h done) =
        Post_ok (λ a x. IsFaithful crc32 x) _ tt d done
          (on_trade_in-Faithful crc32 c.synchronizer.state t c q (Captured-IsFaithful h))

    -- Whatever a capture was given, as long as no call raised: if its synchronizer is live, then reading
    -- the header and the stream that it wrote gives events without a raise, and replaying them, apart
    -- from the checkpoints, raises nothing and ends with exactly the synchronizer's book. The fetcher
    -- gives snapshots that their constructor accepts.
    pub Captured-replays :
        {symbol : List ℕ} {c : SymbolCapture} (created : ℕ)
        → Captured symbol c
        → 0 < created
        → created ≤ uint64_max
        → c.synchronizer.state ≡ SyncState.live
        → (es : List L2Event) × (r : Replay) × (iter_events crc32
              (file_header symbol created ++ c.writer.stream)
            ≡ (es, ok tt))
          × (replay_events [] es start ≡ ok r)
          × (r.book ≡ c.synchronizer.book)
    Captured-replays {symbol = symbol} {c = c} created h positive small live =
        let f = Captured-IsFaithful h in
        (
          f.recorded.events,
          f.recorded.rebuilds.replayed,
          ap (λ bs. iter_events crc32 (file_header symbol created ++ bs)) f.recorded.written
              ∙ iter_events-records crc32 symbol created f.recorded.events (Captured-is_symbol h)
                  positive small f.recorded.recordable,
          f.recorded.rebuilds.runs,
          f.recorded.rebuilds.same_book ∙ f.in_step live,
        )
