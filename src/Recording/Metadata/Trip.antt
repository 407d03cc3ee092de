-- ===== src/Recording/Metadata/Trip.antt =====
-- `L2Writer.finalize` against `read_metadata` (market_engine/recording/l2.py): the parts.
use market_systems_workstati.Base.{
  ℕ, ◌≤◌, ◌<◌, ◌≡◌, refl, ap, ap₂, sym, ◌∙◌, Bool, true, false, not, ◌||◌, some, List, [], ◌∷◌,
  ◌++◌, arith, ltb, ◌==◌, nat_eq, list_eq, if◌then◌else◌, length, Result, ok, err, Error, and_then,
  raise_if, first_error, All,
}
use market_systems_workstati.Base.Int.{pos}
use market_systems_workstati.Base.Dict.{beq_refl}
use market_systems_workstati.Book.{is_empty}
use market_systems_workstati.Book.Types.{uint64_max}
use market_systems_workstati.Recording.Codec.{field}
use market_systems_workstati.Recording.Fields.{
  HasRoom, Allowed, field_bytes, pack_fields-Allowed, unpack_fields-field_bytes,
}
use market_systems_workstati.Recording.Writer.{
  Checkpoint, Writer, checkpoint_magic, checkpoint_header_format, checkpoint_header_size,
  checkpoint_size, check_checkpoint_header, read_checkpoints, read_checkpoint_payload,
}
use market_systems_workstati.Recording.Checkpoints.{IsLogged, read_checkpoint_payload-all_bytes}
use market_systems_workstati.Recording.Metadata.{
  Json, Sidecar, Totals, EventCounts, all_events, int_value, string_value, expect_int,
  expect_string, expect_digest, is_digest, check_identity, identity_checks, check_counts,
  count_checks, read_totals,
}
use market_systems_workstati.Recording.Metadata.Finalize.{
  payload, checkpoint_header_values, pack_checkpoint_header,
}

pub int_value_self :
    (minimum n : ℕ) → minimum ≤ n → int_value minimum (some (Json.integer (pos n))) ≡ ok n
int_value_self minimum n h = ground (arith, h)

pub expect_int_self :
    (minimum n : ℕ) (e : Error)
    → minimum ≤ n
    → expect_int minimum (some (Json.integer (pos n))) n e ≡ ok tt
expect_int_self minimum n e h =
    ap (λ m. and_then m (λ k. raise_if (not (k == n)) e)) (int_value_self minimum n h)
    ∙ ap (λ b. raise_if (not b) e) (beq_refl ⦃e = nat_eq⦄ n)

pub string_value_self :
    (t : List ℕ) → is_empty t ≡ false → string_value (some (Json.string t)) ≡ ok t
string_value_self t h = ap (λ b. if b then err Error.not_a_string else ok t) h

expect_string_self :
    (t : List ℕ) (e : Error) → is_empty t ≡ false → expect_string (some (Json.string t)) t e ≡ ok tt
expect_string_self t e h =
    ap (λ m. and_then m (λ k. raise_if (not (k == t)) e)) (string_value_self t h)
    ∙ ap (λ b. raise_if (not b) e) (beq_refl ⦃e = list_eq⦄ t)

pub some_digest : (t : List ℕ) → is_digest t ≡ true → is_empty t ≡ false
some_digest [] h = absurd (cc)
some_digest (c ∷ t) h = refl

expect_digest_self :
    (t : List ℕ) → is_digest t ≡ true → expect_digest (some (Json.string t)) ≡ ok tt
expect_digest_self t h =
    ap (λ m. and_then m (λ k. raise_if (not (is_digest k)) Error.bad_digest))
      (string_value_self t (some_digest t h))
    ∙ ap (λ b. raise_if (not b) Error.bad_digest) h

first_error-fine :
    (rs : List (Result (Unit {0}))) → All (λ r. r ≡ ok tt) rs → first_error rs ≡ ok tt
first_error-fine [] h = refl
first_error-fine (ok u ∷ rs) h = first_error-fine rs h.1
first_error-fine (err e ∷ rs) h = h.0

checkpoint_layout-Allowed :
    (created : ℕ)
    → created ≤ uint64_max
    → Allowed checkpoint_header_format (checkpoint_header_values created)
checkpoint_layout-Allowed created h = ground arith

checkpoint_layout-HasRoom : HasRoom checkpoint_header_format
checkpoint_layout-HasRoom = ground arith

-- The header of a checkpoint file.
abbrev pub checkpoint_header_bytes : ℕ → List ℕ
checkpoint_header_bytes created =
    checkpoint_magic ++ field_bytes checkpoint_header_format (checkpoint_header_values created)

pub pack_checkpoint_header_lem :
    (created : ℕ)
    → created ≤ uint64_max
    → pack_checkpoint_header created ≡ ok (checkpoint_header_bytes created)
unfolding pack_checkpoint_header
pack_checkpoint_header_lem created h =
    ap (λ m. and_then m (λ raw. ok (checkpoint_magic ++ raw)))
      (pack_fields-Allowed checkpoint_header_format (checkpoint_header_values created) refl
        (checkpoint_layout-Allowed created h))

check_checkpoint_header_lem :
    (created : ℕ) (rest : List ℕ)
    → created ≤ uint64_max
    → check_checkpoint_header (some created) (checkpoint_header_bytes created ++ rest) ≡ ok tt
unfolding check_checkpoint_header
check_checkpoint_header_lem created rest h =
    ap₂ tested (long_enough rest) (
      unpack_fields-field_bytes checkpoint_header_format (checkpoint_header_values created) rest
        refl checkpoint_layout-HasRoom (checkpoint_layout-Allowed created h))
    ∙ ap (λ b. if b then ok tt else err Error.other_recording) (beq_refl ⦃e = nat_eq⦄ created)
  where
    tested : Bool → List ℕ → Result (Unit {0})
    tested b vs =
        if b
        then err Error.truncated_header
        else if not (checkpoint_magic == checkpoint_magic)
            || not (field 0 vs == 1)
            || not (field 1 vs == checkpoint_header_size)
            || not (field 2 vs == checkpoint_size)
            || not (field 3 vs == 0)
        then err Error.bad_checkpoint_header
        else if field 4 vs == created
        then ok tt
        else err Error.other_recording

    long_enough :
        (rest : List ℕ)
        → ltb (length (checkpoint_header_bytes created ++ rest)) checkpoint_header_size ≡ false
    long_enough rest = ground arith

-- A log reads back, behind the header of its file.
pub read_checkpoints-logged :
    (created : ℕ) (cs : List Checkpoint) (w : Writer)
    → created ≤ uint64_max
    → IsLogged cs w
    → read_checkpoints (some created) (checkpoint_header_bytes created ++ w.checkpoint_stream)
      ≡ ok cs
unfolding read_checkpoints
read_checkpoints-logged created cs w h l =
    ap (λ m. and_then m (λ _. read_checkpoint_payload w.checkpoint_stream))
      (check_checkpoint_header_lem created w.checkpoint_stream h)
    ∙ ap read_checkpoint_payload l.bytes
    ∙ read_checkpoint_payload-all_bytes cs l.good l.ordered

-- What a sidecar that a writer published says, read back.
module _ (name hash checkpoint_hash : List ℕ) (created : ℕ) (w : Writer) (t : Totals) where
  abbrev side : Sidecar
  side = payload name created hash checkpoint_hash w t

  pub check_identity-payload :
      is_empty name ≡ false
      → is_empty w.symbol ≡ false
      → 0 < created
      → is_digest hash ≡ true
      → is_digest checkpoint_hash ≡ true
      → check_identity name w.symbol created side ≡ ok tt
  unfolding check_identity
  check_identity-payload named symbolic positive digest checkpoint_digest =
      first_error-fine (identity_checks name w.symbol created side) (
        refl,
        (
          refl,
          (
            refl,
            (
              refl,
              (
                expect_string_self w.symbol Error.other_symbol symbolic,
                (
                  expect_int_self 1 created Error.other_timestamp (omega (arith, positive)),
                  (
                    expect_string_self name Error.other_file named,
                    (
                      refl,
                      (
                        refl,
                        (
                          ap (λ m. and_then m (λ _. ok tt))
                              (string_value_self hash (some_digest hash digest)),
                          (
                            ap (λ m. and_then m (λ _. ok tt))
                                (string_value_self checkpoint_hash
                                  (some_digest checkpoint_hash checkpoint_digest)),
                            (
                              expect_digest_self hash digest,
                              (expect_digest_self checkpoint_hash checkpoint_digest, tt),
                            ),
                          ),
                        ),
                      ),
                    ),
                  ),
                ),
              ),
            ),
          ),
        ),
      )

  pub check_counts-payload :
      (n : EventCounts)
      → w.event_count ≡ all_events n
      → w.snapshot_count ≡ n.snapshots
      → w.depth_count ≡ n.depths
      → w.trade_count ≡ n.trades
      → w.boundary_count ≡ n.boundaries
      → check_counts n side ≡ ok tt
  check_counts-payload n e s d r b = first_error-fine (count_checks n side) (
    counted w.event_count e,
    (
      counted w.snapshot_count s,
      (counted w.depth_count d, (counted w.trade_count r, (counted w.boundary_count b, tt))),
    ),
  )
    where
      counted :
          (k : ℕ) {m : ℕ}
          → k ≡ m
          → expect_int 0 (some (Json.integer (pos k))) m Error.count_mismatch ≡ ok tt
      counted k e =
          ap (λ m. expect_int 0 (some (Json.integer (pos k))) m Error.count_mismatch) (sym e)
          ∙ expect_int_self 0 k Error.count_mismatch (omega arith)

  pub read_totals-payload : read_totals side ≡ ok t
  unfolding read_totals
  read_totals-payload =
      rw
        (
          int_value_self 0 t.final_update_id (omega arith),
          int_value_self 0 t.final_state_hash (omega arith),
          int_value_self 0 t.sequence_gaps (omega arith),
          int_value_self 0 t.snapshot_retries (omega arith),
          int_value_self 0 t.queue_drops (omega arith),
          int_value_self 0 t.malformed_messages (omega arith),
        )
        refl
