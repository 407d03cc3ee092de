-- ===== src/Sync/Live.antt =====
-- `DepthSynchronizer._apply_live` (market_engine/market_data/l2_order_book.py), branch by branch.
use market_systems_workstati.Base.{
  ◌+◌, ◌<◌, ◌≡◌, ◌≢◌, refl, then_do, true, false, [], ◌∷◌, arith, ltb, leb, ok, err, Error,
}
use market_systems_workstati.Book.Types.{DepthUpdate}
use market_systems_workstati.Book.{updated, validate, apply}
use market_systems_workstati.Sync.{
  DepthSynchronizer, SyncState, ApplyResult, apply_live, buffer_event, ingest, ingest_in,
}

module _ (u : DepthUpdate) (s : DepthSynchronizer) where
  pub apply_live_stale :
      leb u.final_update_id s.book.last_update_id ≡ true
      → apply_live u s ≡ (ok ApplyResult.ignored_stale, s)
  unfolding apply_live
  apply_live_stale h = ground arith

  module _ (fresh : leb u.final_update_id s.book.last_update_id ≡ false) where
    pub apply_live_gap :
        ltb (s.book.last_update_id + 1) u.first_update_id ≡ true
        → s.buffer ≡ []
        → 0 < s.maximum_buffered_events
        → apply_live u s
          ≡ (ok ApplyResult.gap_detected, record s { state = SyncState.gap; buffer = u ∷ [] })
    unfolding apply_live buffer_event
    apply_live_gap h e m = ground arith

    pub apply_live_applied :
        ltb (s.book.last_update_id + 1) u.first_update_id ≡ false
        → validate (updated u s.book) ≡ ok tt
        → apply_live u s
          ≡ (ok ApplyResult.applied, record s { book = updated u s.book; state = SyncState.live })
    unfolding apply_live apply
    apply_live_applied h v = ground arith

    pub apply_live_crossed :
        {e : Error}
        → ltb (s.book.last_update_id + 1) u.first_update_id ≡ false
        → validate (updated u s.book) ≡ err e
        → apply_live u s ≡ (err e, record s { book = updated u s.book })
    unfolding apply_live apply
    apply_live_crossed h v = ground arith

-- By the state, `ingest` applies an update or buffers it.
ingest_in-live :
    (st : SyncState) (u : DepthUpdate) (s : DepthSynchronizer)
    → st ≡ SyncState.live
    → ingest_in st u s ≡ apply_live u s
unfolding ingest_in
ingest_in-live SyncState.live u s h = refl
ingest_in-live SyncState.awaiting_snapshot u s h = absurd (cc)
ingest_in-live SyncState.gap u s h = absurd (cc)

ingest_in-waiting :
    (st : SyncState) (u : DepthUpdate) (s : DepthSynchronizer)
    → st ≢ SyncState.live
    → ingest_in st u s ≡ then_do (buffer_event u s) (λ _ s'. (ok ApplyResult.buffered, s'))
unfolding ingest_in
ingest_in-waiting SyncState.live u s h = absurd (h refl)
ingest_in-waiting SyncState.awaiting_snapshot u s h = refl
ingest_in-waiting SyncState.gap u s h = refl

pub ingest_live :
    (u : DepthUpdate) (s : DepthSynchronizer)
    → s.state ≡ SyncState.live
    → ingest u s ≡ apply_live u s
unfolding ingest
ingest_live u s h = ingest_in-live s.state u s h

pub ingest_waiting :
    (u : DepthUpdate) (s : DepthSynchronizer)
    → s.state ≢ SyncState.live
    → ingest u s ≡ then_do (buffer_event u s) (λ _ s'. (ok ApplyResult.buffered, s'))
unfolding ingest
ingest_waiting u s h = ingest_in-waiting s.state u s h
