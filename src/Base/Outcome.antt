-- ===== src/Base/Outcome.antt =====
-- Exceptions, and methods of a mutable object: what was written before a raise stays written.
use mathlib.Core.Path.{◌≡◌, refl, subst}
use mathlib.Core.Logic.{◌⊎◌, inl, inr}
use mathlib.Core.Bool.{Bool, true, false}
use mathlib.Core.List.{List, [], ◌∷◌}
use market_systems_workstati.Base.Tests.{if◌then◌else◌}

-- One constructor for each exception that the modelled code raises, named for its message.
pub data Error : Type 0 where
  -- ValueError
  not_unsigned_64 bad_price bad_quantity bad_update_range zero_trade_quantity bad_side : Error
  bad_maximum bad_reason duplicate_order empty_order_id bad_limit_price : Error
  market_with_limit bad_time_to_live too_many_levels bad_checkpoint checkpoint_order : Error
  bad_symbol : Error
  -- OverflowError
  cancel_overflow arrival_overflow expiry_overflow : Error
  -- RuntimeError, AssertionError, struct.error
  bid_book_empty ask_book_empty not_two_sided invalid_bid invalid_ask crossed : Error
  stale_remained capacity_exceeded out_of_order already_run sequence_gap missing_limit : Error
  incomplete_recording closed_writer bad_receipt truncated_header truncated_payload : Error
  bad_reserved bad_record_size size_disagrees crc_mismatch bad_event_type : Error
  bad_snapshot_header bad_depth_header bad_trade_header bad_boundary_header : Error
  bad_checkpoint_interval bad_magic bad_layout bad_scale zero_creation_time bad_header_flags : Error
  bad_symbol_size bad_symbol_padding symbol_not_ascii bad_symbol_text : Error
  unmarked_gap checkpoint_mismatch final_id_mismatch final_hash_mismatch not_deterministic : Error
  bad_counter no_final_checkpoint final_checkpoint_differs bad_attempt_limit no_synchronization :
      Error
  finalization_failed empty_symbol bad_initial_delay bad_maximum_delay bad_checkpoint_header
        other_recording partial_record :
      Error
  no_file bad_sidecar not_an_integer below_minimum not_a_boolean not_a_string bad_schema : Error
  bad_version bad_source bad_stream other_symbol other_timestamp other_file other_scale : Error
  bad_digest count_mismatch outside_folder no_checkpoint_file inconsistent_complete : Error
  digest_mismatch : Error
  unpackable bad_latency bad_config bad_fee bad_horizon duplicate_horizon : Error

pub data Result {ℓ} (A : Type ℓ) : Type ℓ where
  ok : A → Result A
  err : Error → Result A

abbrev pub and_then {ℓ κ} : {A : Type ℓ} {B : Type κ} → Result A → (A → Result B) → Result B
and_then (ok a) f = f a
and_then (err e) f = err e

-- `if c: raise e`
abbrev pub raise_if : Bool → Error → Result (Unit {0})
raise_if true e = err e
raise_if false e = ok tt

-- Checks in a row: the first that raises.
abbrev pub first_error : List (Result (Unit {0})) → Result (Unit {0})
first_error [] = ok tt
first_error (ok u ∷ rs) = first_error rs
first_error (err e ∷ rs) = err e

-- A method of an object with state `S`.
abbrev pub Action : Type 0 → Type 0 → Type 0
Action S A = S → Result A × S

-- The rest of a method, after a call that may have raised.
abbrev pub then_do {ℓ} :
    {S A : Type 0} {B : Type ℓ} → Result A × S → (A → S → Result B × S) → Result B × S
then_do (ok a, s) f = f a s
then_do (err e, s) f = (err e, s)

pub Result-cases {ℓ} :
    {A : Type ℓ} (r : Result A) → ((a : A) × (r ≡ ok a)) ⊎ ((e : Error) × (r ≡ err e))
Result-cases (ok a) = inl (a, refl)
Result-cases (err e) = inr (e, refl)

-- What holds of the state after a call holds after the rest of the method, if the rest keeps it.
pub then_do-keeps {ℓ κ} :
    {S A : Type 0} {B : Type ℓ} (P : S → Type κ) (m : Result A × S) (f : A → S → Result B × S)
    → P m.1
    → ((a : A) → P (f a m.1).1)
    → P (then_do m f).1
then_do-keeps P (ok a, s) f h k = k a
then_do-keeps P (err e, s) f h k = h

-- Both branches of a test.
pub either-keeps {ℓ κ} :
    {S : Type 0} {B : Type ℓ} (P : S → Type κ) (b : Bool) (x y : Result B × S)
    → P x.1
    → P y.1
    → P (if b then x else y).1
either-keeps P true x y p q = p
either-keeps P false x y p q = q

-- A property of the result and the state of a call, if it does not raise.
abbrev pub Post {ℓ κ} : {S : Type 0} {A : Type ℓ} → (A → S → Type κ) → Result A × S → Type κ
Post P (ok a, s) = P a s
Post P (err e, s) = Unit

pub then_do-Post {ℓ κ} :
    {S A : Type 0} {B : Type ℓ} (P : A → S → Type κ) (Q : B → S → Type κ) (m : Result A × S)
    (f : A → S → Result B × S)
    → Post P m
    → ((a : A) (s : S) → P a s → Post Q (f a s))
    → Post Q (then_do m f)
then_do-Post P Q (ok a, s) f h k = k a s h
then_do-Post P Q (err e, s) f h k = tt

pub either_Post {ℓ κ} :
    {S : Type 0} {A : Type ℓ} (P : A → S → Type κ) (x y : Result A × S) (b : Bool)
    → Post P x
    → Post P y
    → Post P (if b then x else y)
either_Post P x y true h k = h
either_Post P x y false h k = k

pub Post-weaker {ℓ κ} :
    {S : Type 0} {A : Type ℓ} (P Q : A → S → Type κ) (m : Result A × S)
    → ((a : A) (s : S) → P a s → Q a s)
    → Post P m
    → Post Q m
Post-weaker P Q (ok a, s) k h = k a s h
Post-weaker P Q (err e, s) k h = tt

pub Post-raised {ℓ κ} :
    {S : Type 0} {A : Type ℓ} (P : A → S → Type κ) (m : Result A × S) (e : Error)
    → m.0 ≡ err e
    → Post P m
Post-raised P (err x, s) e h = tt
Post-raised P (ok a, s) e h = absurd (cc)

pub Post_ok {ℓ κ} :
    {S : Type 0} {A : Type ℓ} (P : A → S → Type κ) (m : Result A × S) (a : A) (s : S)
    → m ≡ (ok a, s)
    → Post P m
    → P a s
Post_ok P m a s e h = subst (Post P) e h
