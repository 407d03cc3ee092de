-- ===== src/Capture/Installing.antt =====
-- `SymbolCapture._install_snapshot` and `synchronize` (market_engine/market_data/l2_capture.py): whatever
-- the synchronizer makes of a snapshot, the recording keeps up with it.
use market_systems_workstati.Base.{
  ℕ, ◌+◌, ◌≡◌, ◌≢◌, refl, ap, sym, subst, ◌∙◌, Bool, true, Option, none, some, List, [], ◌∷◌, ok,
  Result, Post, then_do, then_do-Post, Post-raised,
}
use market_systems_workstati.Base.Int.{ℤ}
use market_systems_workstati.Book.Types.{DepthUpdate, Snapshot}
use market_systems_workstati.Book.{Book, empty_book, loaded, validate}
use market_systems_workstati.Recording.Event.{L2Event, BoundaryReason}
use market_systems_workstati.Sync.{
  DepthSynchronizer, SyncState, SnapshotResult, SnapshotInstallResult, reset, install_snapshot,
}
use market_systems_workstati.Sync.Chain.{
  Continuous, Validates, Every, apply_all, Continuous-accepted, accepted-Every,
  last_update_id-loaded,
}
use market_systems_workstati.Sync.Bridge.{verdict}
use market_systems_workstati.Sync.Outcome.{Outcome, install_snapshot_cases, contributed, left_over}
use market_systems_workstati.Sync.Soundness.{IsSound}
use market_systems_workstati.Sync.Session.{install_snapshot-IsSound, reset-IsSound}
use market_systems_workstati.Replay.Steps.{snapshot-Rebuilds}
use market_systems_workstati.Capture.{
  SymbolCapture, write_event, write_boundary_now, record_all_applied, after_install, install,
  install_synchronizer,
}
use market_systems_workstati.Capture.Contract.{
  Recorded, Wrote, write_event-Wrote, write_boundary_now-Wrote,
}
use market_systems_workstati.Capture.Applied.{Received, Fetched, record_all_applied-Wrote}

abbrev pub IsPending : Option Snapshot → Type 0
IsPending none = Unit
IsPending (some s) = Fetched s

abbrev pub Sound : DepthSynchronizer → Type 0
Sound s = IsSound Received Fetched s

module _ (crc32 : List ℕ → ℕ) where
  -- The recording rebuilds some book, and the synchronizer's own while that is live.
  pub record IsFaithful (c : SymbolCapture) : Type 0 where
    pub sound : Sound c.synchronizer
    pub pending : IsPending c.pending_snapshot
    pub book : Book
    pub recorded : Recorded crc32 c.writer.stream book
    pub in_step : c.synchronizer.state ≡ SyncState.live → book ≡ c.synchronizer.book

  pub record Installed (r : SnapshotResult) (c : SymbolCapture) : Type 0 where
    pub faithful : IsFaithful c
    pub idle : r ≢ SnapshotResult.synchronized → c.synchronizer.state ≢ SyncState.live

  -- Not live, a capture only has to have a recording.
  pub idle-IsFaithful :
      (c : SymbolCapture) (b : Book)
      → Sound c.synchronizer
      → IsPending c.pending_snapshot
      → c.synchronizer.state ≢ SyncState.live
      → Recorded crc32 c.writer.stream b
      → IsFaithful c
  idle-IsFaithful c b s p n r = record {
    sound = s;
    pending = p;
    book = b;
    recorded = r;
    in_step = λ l. absurd (n l);
  }

  pub reset_idle :
      (preserve : Bool) (s : DepthSynchronizer) → (reset preserve s).state ≢ SyncState.live
  unfolding reset
  reset_idle preserve s h = cc

  module _ (monotonic_ns : ℕ → ℤ) (snapshot : Snapshot) (constructed : Fetched snapshot) where
    synchronized-Installed :
        (done : List DepthUpdate) (c : SymbolCapture)
        → Sound c.synchronizer
        → Every Received done
        → validate (loaded snapshot) ≡ ok tt
        → Continuous snapshot.last_update_id done
        → Validates done (loaded snapshot)
        → c.synchronizer.book ≡ apply_all done (loaded snapshot)
        → (b : Book) → Recorded crc32 c.writer.stream b
        → Post Installed
            (after_install crc32 monotonic_ns snapshot done SnapshotResult.synchronized c)
    unfolding after_install
    synchronized-Installed done c s q v k w same b r =
        then_do-Post (λ n d. Wrote crc32 (loaded snapshot) c d) Installed
          (write_event crc32 (L2Event.snapshot snapshot) c) _
          (write_event-Wrote crc32 (L2Event.snapshot snapshot) c b (loaded snapshot) constructed r
            (λ es h. snapshot-Rebuilds es b h snapshot v))
          (λ n d x.
            then_do-Post (λ m e. Wrote crc32 (apply_all done (loaded snapshot)) (unset d) e)
              Installed (record_all_applied crc32 done (unset d)) _
              (record_all_applied-Wrote crc32 done (unset d) (loaded snapshot) q x.recorded
                (rw (last_update_id-loaded snapshot) k) w)
              (λ m e y. finished d e x y))
      where
        unset : SymbolCapture → SymbolCapture
        unset d = record d { pending_snapshot = none }

        finished :
            (d e : SymbolCapture)
            → Wrote crc32 (loaded snapshot) c d
            → Wrote crc32 (apply_all done (loaded snapshot)) (unset d) e
            → Installed SnapshotResult.synchronized e
        finished d e x y =
            let kept = y.same_synchronizer ∙ x.same_synchronizer in
            record {
              faithful = record {
                sound = subst Sound (sym kept) s;
                pending = subst IsPending (sym y.same_pending) tt;
                book = apply_all done (loaded snapshot);
                recorded = y.recorded;
                in_step = λ l. sym (ap (λ z. z.book) kept ∙ same);
              };
              idle = λ n. absurd (n refl);
            }

    too_old-Installed :
        (c : SymbolCapture) (b : Book)
        → Sound c.synchronizer
        → c.synchronizer.state ≢ SyncState.live
        → Recorded crc32 c.writer.stream b
        → Post Installed
            (after_install crc32 monotonic_ns snapshot [] SnapshotResult.snapshot_too_old c)
    unfolding after_install
    too_old-Installed c b s n r =
        then_do-Post (λ m d. Wrote crc32 empty_book c' d) Installed
          (write_boundary_now crc32 monotonic_ns BoundaryReason.snapshot_retry c') _
          (write_boundary_now-Wrote crc32 monotonic_ns BoundaryReason.snapshot_retry c' b r)
          (λ m d w. record {
            faithful =
                idle-IsFaithful (record d { pending_snapshot = none }) empty_book
                  (subst Sound (sym w.same_synchronizer) s) tt (still d w) w.recorded;
            idle = λ h. still d w;
          })
      where
        still :
            (d : SymbolCapture)
            → Wrote crc32 empty_book (record c { snapshot_retries = c.snapshot_retries + 1 }) d
            → d.synchronizer.state ≢ SyncState.live
        still d w l = n (sym (ap (λ z. z.state) w.same_synchronizer) ∙ l)

        c' : SymbolCapture
        c' = record c { snapshot_retries = c.snapshot_retries + 1 }

    gap-Installed :
        (done : List DepthUpdate) (c : SymbolCapture) (b : Book)
        → Sound c.synchronizer
        → Recorded crc32 c.writer.stream b
        → Post Installed
            (after_install crc32 monotonic_ns snapshot done SnapshotResult.gap_detected c)
    unfolding after_install
    gap-Installed done c b s r =
        then_do-Post (λ m d. Wrote crc32 empty_book c' d) Installed
          (write_boundary_now crc32 monotonic_ns BoundaryReason.sequence_gap c') _
          (write_boundary_now-Wrote crc32 monotonic_ns BoundaryReason.sequence_gap c' b r)
          (λ m d w. record {
            faithful =
                idle-IsFaithful
                  (record d { synchronizer = reset true d.synchronizer; pending_snapshot = none })
                  empty_book
                  (reset-IsSound Received Fetched true d.synchronizer
                    (subst Sound (sym w.same_synchronizer) s))
                  tt (reset_idle true d.synchronizer) w.recorded;
            idle = λ h. reset_idle true d.synchronizer;
          })
      where
        c' : SymbolCapture
        c' = record c { sequence_gaps = c.sequence_gaps + 1 }

    abbrev with_synchronizer : SymbolCapture → DepthSynchronizer → SymbolCapture
    with_synchronizer c s = record c { synchronizer = s }

    bridged-Installed :
        (left done : List DepthUpdate) (c : SymbolCapture) (s : DepthSynchronizer) (b : Book)
        → Sound s
        → Every Received done
        → validate (loaded snapshot) ≡ ok tt
        → Continuous snapshot.last_update_id done
        → Validates done (loaded snapshot)
        → s.book ≡ apply_all done (loaded snapshot)
        → Recorded crc32 c.writer.stream b
        → Post Installed
            (after_install crc32 monotonic_ns snapshot done (verdict left) (with_synchronizer c s))
    bridged-Installed [] done c s b i q v k w same r =
        synchronized-Installed done (with_synchronizer c s) i q v k w same b r
    bridged-Installed (u ∷ us) done c s b i q v k w same r =
        gap-Installed done (with_synchronizer c s) b i r

    pub install-Installed :
        (c : SymbolCapture)
        → IsFaithful c
        → c.synchronizer.state ≢ SyncState.live
        → Post Installed (install crc32 monotonic_ns snapshot c)
    unfolding install install_synchronizer after_install
    install-Installed c f n =
        elim (install_snapshot_cases snapshot c.synchronizer f.sound.capacity) [
          | Outcome.raised e raises ↦ Post-raised Installed _ e (ap failing raises)
          | Outcome.bridged v w same ↦ subst (Post Installed) (sym (ap resume same)) (
              bridged-Installed (left_over snapshot c.synchronizer)
                (contributed snapshot c.synchronizer) c _ f.book (sound_after _ same)
                (accepted-Every Received c.synchronizer.buffer snapshot.last_update_id
                  f.sound.received)
                v (Continuous-accepted c.synchronizer.buffer snapshot.last_update_id) w refl
                f.recorded)
          | Outcome.awaiting same ↦ subst (Post Installed) (sym (ap resume same)) (record {
            faithful =
                idle-IsFaithful _ f.book (sound_after _ same) constructed not_live f.recorded;
            idle = λ h. not_live;
          })
          | Outcome.too_old same ↦
              subst (Post Installed) (sym (ap resume same))
                (too_old-Installed (with_synchronizer c _) f.book (sound_after _ same) n f.recorded)
        ]
      where
        not_live : SyncState.awaiting_snapshot ≢ SyncState.live
        not_live h = cc

        resume :
            Result SnapshotInstallResult × DepthSynchronizer → Result SnapshotResult × SymbolCapture
        resume m =
            then_do (m.0, with_synchronizer c m.1)
              (λ r c'. after_install crc32 monotonic_ns snapshot r.applied_events r.result c')

        failing : Result SnapshotInstallResult → Result SnapshotResult
        failing r =
            (then_do (r, with_synchronizer c (install_snapshot snapshot c.synchronizer).1)
              (λ r c'. after_install crc32 monotonic_ns snapshot r.applied_events r.result c')).0

        sound_after :
            (m : Result SnapshotInstallResult × DepthSynchronizer)
            → install_snapshot snapshot c.synchronizer ≡ m
            → Sound m.1
        sound_after m same =
            subst (λ m. Sound m.1) same
              (install_snapshot-IsSound Received Fetched snapshot c.synchronizer constructed
                f.sound)
