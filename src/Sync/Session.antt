-- ===== src/Sync/Session.antt =====
-- Every history of a `DepthSynchronizer` (market_engine/market_data/l2_order_book.py): calls of
-- `ingest`, `install_snapshot` and `reset` in any order, with the raises that the caller caught.
use market_systems_workstati.Base.{
  ℕ, ◌+◌, ◌≡◌, refl, Bool, List, [], ◌∷◌, arith, ltb, Bool-cases, inl, inr, ok, then_do-keeps,
}
use market_systems_workstati.Base.Int.{ℤ}
use market_systems_workstati.Book.Types.{DepthUpdate, Snapshot}
use market_systems_workstati.Book.{loaded, clear, install_snapshot as install_book}
use market_systems_workstati.Book.Invariant.{loaded-IsKeyed}
use market_systems_workstati.Sync.{
  DepthSynchronizer, SyncState, make_synchronizer, reset, ingest, replay_pending, take_snapshot,
  bridge, drop_stale, install_snapshot,
}
use market_systems_workstati.Sync.Chain.{Every, loaded-IsReconstructed}
use market_systems_workstati.Sync.Buffer.{IsBuffer, drop_stale-IsBuffer}
use market_systems_workstati.Sync.Soundness.{
  IsSound, drop_stale-Every, replay_pending-IsSound, ingest-IsSound,
}

module _ (Received : DepthUpdate → Type 0) (Fetched : Snapshot → Type 0) where
  abbrev Sound : DepthSynchronizer → Type 0
  Sound s = IsSound Received Fetched s

  unbuffered-IsSound :
      (snapshot : Snapshot) (s : DepthSynchronizer)
      → Sound s
      → Sound (record s { buffer = (drop_stale snapshot.last_update_id s.buffer).0 })
  unfolding drop_stale
  unbuffered-IsSound snapshot s i = record {
    capacity = i.capacity;
    buffered = drop_stale-IsBuffer _ snapshot.last_update_id s.buffer i.buffered;
    received = drop_stale-Every Received snapshot.last_update_id s.buffer i.received;
    keyed = i.keyed;
    drained = λ l. rw (i.drained l);
    rebuilt = i.rebuilt;
  }

  taken-IsSound :
      (snapshot : Snapshot) (s : DepthSynchronizer)
      → Fetched snapshot
      → Sound s
      → Sound (record s { book = loaded snapshot })
  taken-IsSound snapshot s f i = record {
    capacity = i.capacity;
    buffered = i.buffered;
    received = i.received;
    keyed = loaded-IsKeyed snapshot;
    drained = i.drained;
    rebuilt = λ _. loaded-IsReconstructed Received Fetched snapshot f;
  }

  awaiting-IsSound :
      (s : DepthSynchronizer) → Sound s → Sound (record s { state = SyncState.awaiting_snapshot })
  awaiting-IsSound s i = record {
    capacity = i.capacity;
    buffered = i.buffered;
    received = i.received;
    keyed = i.keyed;
    drained = λ h. cc;
    rebuilt = λ h. absurd (cc);
  }

  emptied-IsSound :
      (snapshot : Snapshot) (s : DepthSynchronizer)
      → Fetched snapshot
      → Sound s
      → Sound (record s { book = loaded snapshot; state = SyncState.live; buffer = [] })
  emptied-IsSound snapshot s f i = record {
    capacity = i.capacity;
    buffered = record { room = omega arith; ordered = tt };
    received = tt;
    keyed = loaded-IsKeyed snapshot;
    drained = λ _. refl;
    rebuilt = λ _. loaded-IsReconstructed Received Fetched snapshot f;
  }

  bridge-IsSound :
      (snapshot : Snapshot) (stale : ℕ) (us : List DepthUpdate) (s : DepthSynchronizer)
      → Fetched snapshot
      → Sound s
      → IsBuffer s.maximum_buffered_events us
      → Every Received us
      → Sound (bridge snapshot stale us s).1
  unfolding bridge take_snapshot install_book
  bridge-IsSound snapshot stale [] s f i b q =
      let t = taken-IsSound snapshot s f i in
      then_do-keeps Sound (take_snapshot snapshot s) _ t (λ _. awaiting-IsSound _ t)
  bridge-IsSound snapshot stale (first ∷ rest) s f i b q =
      elim (Bool-cases (ltb (snapshot.last_update_id + 1) first.first_update_id)) [
        | inl late ↦ rw (late, bridge) i
        | inr near ↦ elim (Bool-cases (ltb first.final_update_id (snapshot.last_update_id + 1))) [
          | inl old ↦ rw (near, old, bridge) i
          | inr fresh ↦
              rw (near, fresh, bridge)
                (then_do-keeps Sound (take_snapshot snapshot s) _ (taken-IsSound snapshot s f i)
                  (λ _.
                    let k =
                      replay_pending-IsSound Received Fetched (first ∷ rest) [] _
                        (emptied-IsSound snapshot s f i) refl b q in
                    then_do-keeps Sound (replay_pending (first ∷ rest) [] _) _ k (λ _. k)))
        ]
      ]

  pub install_snapshot-IsSound :
      (snapshot : Snapshot) (s : DepthSynchronizer)
      → Fetched snapshot
      → Sound s
      → Sound (install_snapshot snapshot s).1
  unfolding install_snapshot
  install_snapshot-IsSound snapshot s f i =
      bridge-IsSound snapshot _ _ _ f (unbuffered-IsSound snapshot s i)
        (drop_stale-IsBuffer _ snapshot.last_update_id s.buffer i.buffered)
        (drop_stale-Every Received snapshot.last_update_id s.buffer i.received)

  pub reset-IsSound : (preserve : Bool) (s : DepthSynchronizer) → Sound s → Sound (reset preserve s)
  unfolding reset clear
  reset-IsSound preserve s i = record {
    capacity = i.capacity;
    buffered = record { room = ground arith; ordered = ground arith };
    received = ground (arith, i.received);
    keyed = record { bids_unique = tt; asks_unique = tt };
    drained = λ h. cc;
    rebuilt = λ h. absurd (cc);
  }

  pub make_synchronizer-IsSound :
      (maximum : ℤ) (s : DepthSynchronizer) → make_synchronizer maximum ≡ ok s → Sound s
  unfolding make_synchronizer
  make_synchronizer-IsSound maximum s e = record {
    capacity = ground arith;
    buffered = record { room = ground arith; ordered = ground arith };
    received = ground arith;
    keyed = record { bids_unique = ground arith; asks_unique = ground arith };
    drained = λ h. ground arith;
    rebuilt = λ h. absurd (ground arith);
  }

  -- What a program can bring a synchronizer to, with updates and snapshots that it got. A call that
  -- raised has still changed it.
  pub data Reachable : DepthSynchronizer → Type 0 where
    created : (maximum : ℤ) {s : DepthSynchronizer} → make_synchronizer maximum ≡ ok s → Reachable s
    ingested :
        (u : DepthUpdate) {s : DepthSynchronizer}
        → Received u
        → Reachable s
        → Reachable (ingest u s).1
    installed :
        (snapshot : Snapshot) {s : DepthSynchronizer}
        → Fetched snapshot
        → Reachable s
        → Reachable (install_snapshot snapshot s).1
    restarted :
        (preserve : Bool) {s : DepthSynchronizer} → Reachable s → Reachable (reset preserve s)

  -- After any calls with received updates and fetched snapshots, raising calls included, the buffer is
  -- within its capacity, in order of arrival and made of received updates, and a live synchronizer has
  -- an empty buffer and a book that is a fetched snapshot followed by received updates with none missing
  -- between.
  pub Reachable-IsSound : {s : DepthSynchronizer} → Reachable s → IsSound Received Fetched s
  Reachable-IsSound (created maximum {s = s} e) = make_synchronizer-IsSound maximum s e
  Reachable-IsSound (ingested u {s = s} q r) =
      ingest-IsSound Received Fetched u s q (Reachable-IsSound r)
  Reachable-IsSound (installed snapshot {s = s} f r) =
      install_snapshot-IsSound snapshot s f (Reachable-IsSound r)
  Reachable-IsSound (restarted preserve {s = s} r) = reset-IsSound preserve s (Reachable-IsSound r)
