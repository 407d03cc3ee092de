-- ===== src/Sync/Soundness.antt =====
-- What `ingest` and the bridging loop of `DepthSynchronizer`
-- (market_engine/market_data/l2_order_book.py) keep: the buffer and the provenance of the book.
use market_systems_workstati.Base.{
  ℕ, ◌+◌, ◌<◌, ◌≡◌, ◌≢◌, refl, false, List, [], ◌∷◌, ◌++◌, arith, ltb, leb, Bool-cases, inl, inr,
  Result-cases, then_do-keeps, either-keeps, length,
}
use market_systems_workstati.Book.Types.{DepthUpdate, Snapshot}
use market_systems_workstati.Book.{updated, validate}
use market_systems_workstati.Book.Views.{IsKeyed}
use market_systems_workstati.Book.Invariant.{updated-IsKeyed}
use market_systems_workstati.Sync.{
  DepthSynchronizer, SyncState, is_late, ingest, buffer_event, apply_live, replay_pending,
  drop_stale, ingest_in,
}
use market_systems_workstati.Sync.Chain.{
  Every, Every-append, IsReconstructed, updated-IsReconstructed,
}
use market_systems_workstati.Sync.Live.{
  apply_live_stale, apply_live_gap, apply_live_applied, apply_live_crossed,
}
use market_systems_workstati.Sync.Bridge.{
  replay_stale, replay_broken, replay_joined, replay_crossed,
}
use market_systems_workstati.Sync.Buffer.{IsBuffer, buffer_event-IsBuffer}

singleton-IsBuffer : (u : DepthUpdate) (n : ℕ) → 0 < n → IsBuffer n (u ∷ [])
singleton-IsBuffer u n h = record { room = omega arith; ordered = (tt, tt) }

pub buffer_event-kept :
    (u : DepthUpdate) (s : DepthSynchronizer)
    → ((buffer_event u s).1.book ≡ s.book)
      × ((buffer_event u s).1.maximum_buffered_events ≡ s.maximum_buffered_events)
      × ((buffer_event u s).1.state ≡ SyncState.live → s.state ≡ SyncState.live)
unfolding buffer_event
buffer_event-kept u s = ground arith

buffer_event-Every :
    (P : DepthUpdate → Type 0) (u : DepthUpdate) (s : DepthSynchronizer)
    → P u
    → Every P s.buffer
    → Every P (buffer_event u s).1.buffer
unfolding buffer_event
buffer_event-Every P u s r e =
    either-keeps Holds (leb s.maximum_buffered_events (length s.buffer)) _ _ e
      (either-keeps Holds (is_late u s.buffer) _ _ e (Every-append P s.buffer u e r))
  where
    Holds : DepthSynchronizer → Type 0
    Holds t = Every P t.buffer

pub drop_stale-Every :
    (P : DepthUpdate → Type 0) (last : ℕ) (us : List DepthUpdate)
    → Every P us
    → Every P (drop_stale last us).0
unfolding drop_stale
drop_stale-Every P last [] e = e
drop_stale-Every P last (u ∷ us) e = elim (Bool-cases (leb u.final_update_id last)) [
  | inl stale ↦ rw (stale, drop_stale) (drop_stale-Every P last us e.1)
  | inr fresh ↦ rw (fresh, drop_stale) e
]

module _ (Received : DepthUpdate → Type 0) (Fetched : Snapshot → Type 0) where
  pub record IsSound (s : DepthSynchronizer) : Type 0 where
    pub capacity : 0 < s.maximum_buffered_events
    pub buffered : IsBuffer s.maximum_buffered_events s.buffer
    pub received : Every Received s.buffer
    pub keyed : IsKeyed s.book
    -- A live synchronizer has nothing left to apply, and its book misses no update.
    pub drained : s.state ≡ SyncState.live → s.buffer ≡ []
    pub rebuilt : s.state ≡ SyncState.live → IsReconstructed Received Fetched s.book

  -- The book takes an update that joins on: whatever `validate` says, nothing is missing.
  joined-IsSound :
      (u : DepthUpdate) (s : DepthSynchronizer)
      → Received u
      → IsSound s
      → s.state ≡ SyncState.live
      → leb u.final_update_id s.book.last_update_id ≡ false
      → ltb (s.book.last_update_id + 1) u.first_update_id ≡ false
      → IsSound (record s { book = updated u s.book })
  joined-IsSound u s q i l fresh joined = record {
    capacity = i.capacity;
    buffered = i.buffered;
    received = i.received;
    keyed = updated-IsKeyed u s.book i.keyed;
    drained = i.drained;
    rebuilt = λ _.
        updated-IsReconstructed Received Fetched u s.book q (i.rebuilt l) (ground arith)
          (ground arith);
  }

  live-IsSound :
      (s : DepthSynchronizer)
      → IsSound s
      → s.state ≡ SyncState.live
      → IsSound (record s { state = SyncState.live })
  live-IsSound s i l = record {
    capacity = i.capacity;
    buffered = i.buffered;
    received = i.received;
    keyed = i.keyed;
    drained = λ _. i.drained l;
    rebuilt = λ _. i.rebuilt l;
  }

  -- Events that go back to the buffer at a gap.
  gap-IsSound :
      (us : List DepthUpdate) (s : DepthSynchronizer)
      → IsSound s
      → IsBuffer s.maximum_buffered_events us
      → Every Received us
      → IsSound (record s { state = SyncState.gap; buffer = us })
  gap-IsSound us s i b e = record {
    capacity = i.capacity;
    buffered = b;
    received = e;
    keyed = i.keyed;
    drained = λ h. cc;
    rebuilt = λ h. absurd (cc);
  }

  pub apply_live-IsSound :
      (u : DepthUpdate) (s : DepthSynchronizer)
      → Received u
      → IsSound s
      → s.state ≡ SyncState.live
      → IsSound (apply_live u s).1
  apply_live-IsSound u s q i l = elim (Bool-cases (leb u.final_update_id s.book.last_update_id)) [
    | inl stale ↦ rw (apply_live_stale u s stale) i
    | inr fresh ↦ elim (Bool-cases (ltb (s.book.last_update_id + 1) u.first_update_id)) [
      | inl broken ↦
          rw (apply_live_gap u s fresh broken (i.drained l) i.capacity)
            (gap-IsSound (u ∷ []) s i (singleton-IsBuffer u _ i.capacity) (q, tt))
      | inr joined ↦ elim (Result-cases (validate (updated u s.book))) [
        | inl (tt, fine) ↦
            rw (apply_live_applied u s fresh joined fine)
              (live-IsSound _ (joined-IsSound u s q i l fresh joined) l)
        | inr (e, crossed) ↦
            rw (apply_live_crossed u s fresh joined crossed) (joined-IsSound u s q i l fresh joined)
      ]
    ]
  ]

  pub replay_pending-IsSound :
      (us done : List DepthUpdate) (s : DepthSynchronizer)
      → IsSound s
      → s.state ≡ SyncState.live
      → IsBuffer s.maximum_buffered_events us
      → Every Received us
      → IsSound (replay_pending us done s).1
  unfolding replay_pending
  replay_pending-IsSound [] done s i l b q = i
  replay_pending-IsSound (u ∷ us) done s i l b q =
      elim (Bool-cases (leb u.final_update_id s.book.last_update_id)) [
        | inl stale ↦
            rw (replay_stale u us done s stale) (replay_pending-IsSound us done s i l (rest b) q.1)
        | inr fresh ↦ elim (Bool-cases (ltb (s.book.last_update_id + 1) u.first_update_id)) [
          | inl broken ↦
              rw (replay_broken u us done s fresh broken (i.drained l) i.capacity)
                (gap-IsSound (u ∷ us) s i b q)
          | inr joined ↦ elim (Result-cases (validate (updated u s.book))) [
            | inl (tt, fine) ↦ rw (replay_joined u us done s fresh joined fine) (
                replay_pending-IsSound us (done ++ u ∷ []) _
                  (live-IsSound _ (joined-IsSound u s q.0 i l fresh joined) l) refl (rest b) q.1)
            | inr (e, crossed) ↦
                rw (replay_crossed u us done s fresh joined crossed)
                  (joined-IsSound u s q.0 i l fresh joined)
          ]
        ]
      ]
    where
      rest : IsBuffer s.maximum_buffered_events (u ∷ us) → IsBuffer s.maximum_buffered_events us
      rest b = record { room = omega (arith, b.room); ordered = b.ordered.1 }

  buffer_event-IsSound :
      (u : DepthUpdate) (s : DepthSynchronizer)
      → Received u
      → IsSound s
      → s.state ≢ SyncState.live
      → IsSound (buffer_event u s).1
  buffer_event-IsSound u s q i n =
      let (same_book, same_maximum, stays) = buffer_event-kept u s in
      record {
        capacity = rw same_maximum i.capacity;
        buffered = rw same_maximum (buffer_event-IsBuffer u s i.buffered);
        received = buffer_event-Every Received u s q i.received;
        keyed = rw same_book i.keyed;
        drained = λ l. absurd (n (stays l));
        rebuilt = λ l. absurd (n (stays l));
      }

  ingest_in-IsSound :
      (st : SyncState) (u : DepthUpdate) (s : DepthSynchronizer)
      → s.state ≡ st
      → Received u
      → IsSound s
      → IsSound (ingest_in st u s).1
  unfolding ingest_in
  ingest_in-IsSound SyncState.live u s e q i = apply_live-IsSound u s q i e
  ingest_in-IsSound SyncState.awaiting_snapshot u s e q i =
      let b = buffer_event-IsSound u s q i (λ l. cc) in
      then_do-keeps IsSound (buffer_event u s) _ b (λ _. b)
  ingest_in-IsSound SyncState.gap u s e q i =
      let b = buffer_event-IsSound u s q i (λ l. cc) in
      then_do-keeps IsSound (buffer_event u s) _ b (λ _. b)

  pub ingest-IsSound :
      (u : DepthUpdate) (s : DepthSynchronizer) → Received u → IsSound s → IsSound (ingest u s).1
  unfolding ingest
  ingest-IsSound u s q i = ingest_in-IsSound s.state u s refl q i
