-- ===== src/Recording/Fields.antt =====
-- The fields of a packed record, read back (market_engine/recording/l2.py).
use market_systems_workstati.Base.{
  ℕ, zero, suc, ◌*◌, ◌/◌, ◌%◌, ◌≤◌, ◌<◌, ◌≡◌, refl, ap, ap₂, List, [], ◌∷◌, ◌++◌, arith, length,
  drop, take, drop, ok,
}
use market_systems_workstati.Base.Bytes.{le_bytes, le_value}
use market_systems_workstati.Recording.Codec.{pack_fields, unpack_fields}

-- The number of values of a field of this many bytes.
abbrev pub capacity : ℕ → ℕ
capacity zero = 1
capacity (suc n) = 256 * capacity n

pub le_value-le_bytes : (n v : ℕ) → v < capacity n → le_value (le_bytes n v) ≡ v
le_value-le_bytes zero v h = omega (arith, h)
le_value-le_bytes (suc n) v h = omega (arith, h, le_value-le_bytes n (v / 256) (omega (arith, h)))

pub take-le_bytes : (n v : ℕ) (ys : List ℕ) → take n (le_bytes n v ++ ys) ≡ le_bytes n v
take-le_bytes zero v ys = refl
take-le_bytes (suc n) v ys = ap (λ bs. (v % 256) ∷ bs) (take-le_bytes n (v / 256) ys)

pub drop-le_bytes : (n v : ℕ) (ys : List ℕ) → drop n (le_bytes n v ++ ys) ≡ ys
drop-le_bytes zero v ys = refl
drop-le_bytes (suc n) v ys = drop-le_bytes n (v / 256) ys

pub take-append {ℓ} : {A : Type ℓ} (xs ys : List A) → take (length xs) (xs ++ ys) ≡ xs
take-append [] ys = refl
take-append (x ∷ xs) ys = ap (λ zs. x ∷ zs) (take-append xs ys)

pub drop-append {ℓ} : {A : Type ℓ} (xs ys : List A) → drop (length xs) (xs ++ ys) ≡ ys
drop-append [] ys = refl
drop-append (x ∷ xs) ys = drop-append xs ys

pub append_assoc {ℓ} : {A : Type ℓ} (xs ys zs : List A) → (xs ++ ys) ++ zs ≡ xs ++ (ys ++ zs)
append_assoc [] ys zs = refl
append_assoc (x ∷ xs) ys zs = ap (λ ws. x ∷ ws) (append_assoc xs ys zs)

-- Each field has room for its largest value.
abbrev pub HasRoom : List (ℕ × ℕ) → Type 0
HasRoom [] = Unit
HasRoom ((size, most) ∷ fs) = (most < capacity size) × HasRoom fs

-- No value exceeds what its field allows.
abbrev pub Allowed : List (ℕ × ℕ) → List ℕ → Type 0
Allowed [] [] = Unit
Allowed ((size, most) ∷ fs) (v ∷ vs) = (v ≤ most) × Allowed fs vs
Allowed [] (v ∷ vs) = Unit
Allowed (f ∷ fs) [] = Unit

-- The bytes of the fields.
abbrev pub field_bytes : List (ℕ × ℕ) → List ℕ → List ℕ
field_bytes [] vs = []
field_bytes (f ∷ fs) [] = []
field_bytes ((size, most) ∷ fs) (v ∷ vs) = le_bytes size v ++ field_bytes fs vs

abbrev pub SameLength : List (ℕ × ℕ) → List ℕ → Type 0
SameLength fs vs = length fs ≡ length vs

pub pack_fields-Allowed :
    (fs : List (ℕ × ℕ)) (vs : List ℕ)
    → SameLength fs vs
    → Allowed fs vs
    → pack_fields fs vs ≡ ok (field_bytes fs vs)
unfolding pack_fields
pack_fields-Allowed [] [] e a = refl
pack_fields-Allowed [] (v ∷ vs) e a = absurd (omega (arith, e))
pack_fields-Allowed (f ∷ fs) [] e a = absurd (omega (arith, e))
pack_fields-Allowed ((size, most) ∷ fs) (v ∷ vs) e a =
    ground (arith, a.0, pack_fields-Allowed fs vs (omega (arith, e)) a.1)

pub unpack_fields-field_bytes :
    (fs : List (ℕ × ℕ)) (vs ys : List ℕ)
    → SameLength fs vs
    → HasRoom fs
    → Allowed fs vs
    → unpack_fields fs (field_bytes fs vs ++ ys) ≡ vs
unfolding unpack_fields
unpack_fields-field_bytes [] [] ys e r a = refl
unpack_fields-field_bytes [] (v ∷ vs) ys e r a = absurd (omega (arith, e))
unpack_fields-field_bytes (f ∷ fs) [] ys e r a = absurd (omega (arith, e))
unpack_fields-field_bytes ((size, most) ∷ fs) (v ∷ vs) ys e r a =
    rw
      (
        append_assoc (le_bytes size v) (field_bytes fs vs) ys,
        take-le_bytes size v,
        drop-le_bytes size v,
      )
      (ap₂ (λ x xs. x ∷ xs) (le_value-le_bytes size v (omega (arith, a.0, r.0)))
        (unpack_fields-field_bytes fs vs ys (omega (arith, e)) r.1 a.1))
