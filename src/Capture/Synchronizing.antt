-- ===== src/Capture/Synchronizing.antt =====
-- `SymbolCapture.synchronize` (market_engine/market_data/l2_capture.py): its attempts keep the recording in
-- step with the book.
use market_systems_workstati.Base.{
  ℕ, zero, suc, ◌+◌, ◌≡◌, ◌≢◌, Bool, List, Option, none, some, ok, Result, Post, then_do,
  then_do-Post, either_Post, Result-cases, inl, inr,
}
use market_systems_workstati.Base.Int.{ℤ}
use market_systems_workstati.Book.Types.{Snapshot}
use market_systems_workstati.Book.{is_empty}
use market_systems_workstati.Sync.{SyncState, SnapshotResult}
use market_systems_workstati.Capture.{
  SymbolCapture, unless_settled, install, fetch, attempt, synchronize,
}
use market_systems_workstati.Capture.Applied.{Fetched}
use market_systems_workstati.Capture.Installing.{
  IsFaithful, Installed, IsPending, install-Installed,
}

module _ (crc32 : List ℕ → ℕ) where
  abbrev pub Faithful {ℓ} : {A : Type ℓ} → A → SymbolCapture → Type 0
  Faithful a c = IsFaithful crc32 c

  module _ (monotonic_ns : ℕ → ℤ) (fetcher : ℕ → Result Snapshot)
      (constructed : (n : ℕ) (s : Snapshot) → fetcher n ≡ ok s → Fetched s) where
    unless_settled-Faithful :
        (others : SymbolCapture → Result Bool × SymbolCapture) (r : SnapshotResult)
        (c : SymbolCapture)
        → ((d : SymbolCapture)
            → IsFaithful crc32 d
            → d.synchronizer.state ≢ SyncState.live
            → Post Faithful (others d))
        → Installed crc32 r c
        → Post Faithful (unless_settled others r c)
    unless_settled-Faithful others SnapshotResult.synchronized c h i = i.faithful
    unless_settled-Faithful others SnapshotResult.awaiting_bridge c h i = i.faithful
    unless_settled-Faithful others SnapshotResult.snapshot_too_old c h i =
        h c i.faithful (i.idle (λ e. cc))
    unless_settled-Faithful others SnapshotResult.gap_detected c h i =
        h c i.faithful (i.idle (λ e. cc))

    settled-Faithful :
        (others : SymbolCapture → Result Bool × SymbolCapture) (snapshot : Snapshot)
        (c : SymbolCapture)
        → ((d : SymbolCapture)
            → IsFaithful crc32 d
            → d.synchronizer.state ≢ SyncState.live
            → Post Faithful (others d))
        → Fetched snapshot
        → IsFaithful crc32 c
        → c.synchronizer.state ≢ SyncState.live
        → Post Faithful (then_do (install crc32 monotonic_ns snapshot c) (unless_settled others))
    settled-Faithful others snapshot c h q f n =
        then_do-Post (Installed crc32) Faithful (install crc32 monotonic_ns snapshot c)
          (unless_settled others) (install-Installed crc32 monotonic_ns snapshot q c f n)
          (λ r d i. unless_settled-Faithful others r d h i)

    attempt-Faithful :
        (n : ℕ) (c : SymbolCapture)
        → IsFaithful crc32 c
        → c.synchronizer.state ≢ SyncState.live
        → Post Faithful (attempt crc32 monotonic_ns fetcher n c)
    unfolding attempt fetch
    attempt-Faithful zero c f i = tt
    attempt-Faithful (suc n) c f i = elim (Result-cases (fetcher c.fetch_calls)) [
      | inr (x, failed) ↦ rw (failed, attempt, fetch) tt
      | inl (snapshot, fetched) ↦
          rw (fetched, attempt, fetch)
            (settled-Faithful (attempt crc32 monotonic_ns fetcher n) snapshot
              (record c { fetch_calls = c.fetch_calls + 1 }) (attempt-Faithful n)
              (constructed c.fetch_calls snapshot fetched)
              (record {
                sound = f.sound;
                pending = f.pending;
                book = f.book;
                recorded = f.recorded;
                in_step = f.in_step;
              })
              i)
    ]

    pub synchronize-Faithful :
        (c : SymbolCapture)
        → IsFaithful crc32 c
        → c.synchronizer.state ≢ SyncState.live
        → Post Faithful (synchronize crc32 monotonic_ns fetcher c)
    unfolding synchronize
    synchronize-Faithful c f n =
        either_Post Faithful _ _ (is_empty c.synchronizer.buffer) f
          (at_pending c.pending_snapshot f.pending)
      where
        at_pending :
            (p : Option Snapshot)
            → IsPending p
            → Post Faithful (elim p as (λ _. Result Bool × SymbolCapture) [
              | none ↦ attempt crc32 monotonic_ns fetcher c.snapshot_attempt_limit c
              | some snapshot ↦
                  then_do
                    (install crc32 monotonic_ns snapshot c)
                    (unless_settled (attempt crc32 monotonic_ns fetcher c.snapshot_attempt_limit))
            ])
        at_pending none q = attempt-Faithful c.snapshot_attempt_limit c f n
        at_pending (some snapshot) q =
            settled-Faithful (attempt crc32 monotonic_ns fetcher c.snapshot_attempt_limit) snapshot
              c (attempt-Faithful c.snapshot_attempt_limit) q f n
