-- ===== src/Sync/Buffer.antt =====
-- The buffer of `DepthSynchronizer` (market_engine/market_data/l2_order_book.py): its order of
-- arrival, its capacity, and what `_buffer_event` and the `while` loop of `install_snapshot` keep.
use market_systems_workstati.Base.{
  ℕ, ◌≤◌, ◌≡◌, refl, false, List, [], ◌∷◌, ◌++◌, arith, length, length-append, All,
}
use market_systems_workstati.Book.Types.{DepthUpdate}
use market_systems_workstati.Sync.{DepthSynchronizer, buffer_event, is_late, drop_stale}

abbrev pub NotAfter : DepthUpdate → DepthUpdate → Type 0
NotAfter u v = u.final_update_id ≤ v.final_update_id

-- The final IDs never go down.
abbrev pub IsOrdered : List DepthUpdate → Type 0
IsOrdered [] = Unit
IsOrdered (u ∷ us) = All (NotAfter u) us × IsOrdered us

All-extend :
    (u v : DepthUpdate) (us : List DepthUpdate)
    → All (NotAfter u) us
    → NotAfter u v
    → All (NotAfter u) (us ++ v ∷ [])
All-extend u v [] a h = (h, tt)
All-extend u v (w ∷ us) a h = (a.0, All-extend u v us a.1 h)

-- The head of an ordered list is not after an event that does not come before the last one.
head-NotAfter :
    (u v : DepthUpdate) (us : List DepthUpdate)
    → IsOrdered (u ∷ us)
    → is_late v (u ∷ us) ≡ false
    → NotAfter u v
head-NotAfter u v [] o h = ground arith
head-NotAfter u v (w ∷ us) o h = omega (arith, head-NotAfter w v us o.1 h, o.0.0)

tail_not_late :
    (u v : DepthUpdate) (us : List DepthUpdate) → is_late v (u ∷ us) ≡ false → is_late v us ≡ false
tail_not_late u v [] h = refl
tail_not_late u v (w ∷ us) h = h

append-IsOrdered :
    (us : List DepthUpdate) (v : DepthUpdate)
    → IsOrdered us
    → is_late v us ≡ false
    → IsOrdered (us ++ v ∷ [])
append-IsOrdered [] v o h = (tt, tt)
append-IsOrdered (u ∷ us) v o h = (
  All-extend u v us o.0 (head-NotAfter u v us o h),
  append-IsOrdered us v o.1 (tail_not_late u v us h),
)

-- Within its capacity, and in order of arrival.
pub record IsBuffer (maximum : ℕ) (us : List DepthUpdate) : Type 0 where
  pub room : length us ≤ maximum
  pub ordered : IsOrdered us

pub buffer_event-IsBuffer :
    (u : DepthUpdate) (s : DepthSynchronizer)
    → IsBuffer s.maximum_buffered_events s.buffer
    → IsBuffer s.maximum_buffered_events (buffer_event u s).1.buffer
unfolding buffer_event
buffer_event-IsBuffer u s b =
    ground (arith, length-append s.buffer (u ∷ []), append-IsOrdered s.buffer u b.ordered)

pub drop_stale-IsBuffer :
    (maximum last : ℕ) (us : List DepthUpdate)
    → IsBuffer maximum us
    → IsBuffer maximum (drop_stale last us).0
unfolding drop_stale
drop_stale-IsBuffer maximum last [] b = b
drop_stale-IsBuffer maximum last (u ∷ us) b = ground (
  arith,
  drop_stale-IsBuffer maximum last us
      (record { room = omega (arith, b.room); ordered = b.ordered.1 }),
)
