-- ===== src/Recording/HeaderTrip.antt =====
-- The file header that `L2Writer` writes, read back by `_read_header` (market_engine/recording/l2.py).
use market_systems_workstati.Base.{
  ℕ, zero, suc, ◌-◌, ◌≤◌, ◌<◌, ◌≡◌, refl, ap, ◌∙◌, sym, true, false, List, [], ◌∷◌, ◌++◌, arith,
  ltb, length, length-append, take, drop, any, all, ok, err, Error, ◌==◌, nat_eq, if◌then◌else◌,
}
use market_systems_workstati.Book.Types.{uint64_max}
use market_systems_workstati.Recording.Codec.{unpack_fields}
use market_systems_workstati.Recording.Fields.{
  HasRoom, Allowed, field_bytes, pack_fields-Allowed, unpack_fields-field_bytes, take-append,
  drop-append, append_assoc,
}
use market_systems_workstati.Recording.Header.{
  is_symbol, is_symbol_char, zeros, encode_symbol, partition_zero, decode_symbol, header_size,
  magic, layout_format, layout_values, pack_file_header, check_layout, read_parts, read_file_header,
}

length-zeros : (n : ℕ) → length (zeros n) ≡ n
length-zeros zero = refl
length-zeros (suc n) = omega (arith, length-zeros n)

any-zeros : (n : ℕ) → any (ltb 0) (zeros n) ≡ false
any-zeros zero = refl
any-zeros (suc n) = any-zeros n

partition_zero-append :
    (s : List ℕ) (n : ℕ)
    → all is_symbol_char s ≡ true
    → partition_zero (s ++ zeros (suc n)) ≡ (s, zeros n)
unfolding partition_zero
partition_zero-append [] n h = refl
partition_zero-append (c ∷ s) n h = ground (arith, h, partition_zero-append s n)

ascii_symbol : (s : List ℕ) → all is_symbol_char s ≡ true → any (ltb 127) s ≡ false
ascii_symbol [] h = refl
ascii_symbol (c ∷ s) h = ground (arith, h, ascii_symbol s)

-- The bytes of a symbol's field.
abbrev name_bytes : List ℕ → List ℕ
name_bytes s = s ++ zeros (16 - length s)

module _ (s : List ℕ) (h : is_symbol s ≡ true) where
  symbol_parts : (all is_symbol_char s ≡ true) × (length s ≤ 15)
  symbol_parts = ground (arith, h)

  length-name_bytes : length (name_bytes s) ≡ 16
  length-name_bytes =
      omega
        (arith, length-append s (zeros (16 - length s)), length-zeros (16 - length s), symbol_parts)

  partition_name : partition_zero (name_bytes s) ≡ (s, zeros (15 - length s))
  partition_name =
      ap (λ n. partition_zero (s ++ zeros n)) (one_more (length s) symbol_parts.1)
      ∙ partition_zero-append s (15 - length s) symbol_parts.0
    where
      one_more : (n : ℕ) → n ≤ 15 → 16 - n ≡ suc (15 - n)
      one_more n k = omega (arith, k)

  decode_symbol-name_bytes : decode_symbol (name_bytes s) ≡ ok s
  unfolding decode_symbol
  decode_symbol-name_bytes =
      rw
        (
          partition_name,
          length-name_bytes,
          any-zeros (15 - length s),
          ascii_symbol s symbol_parts.0,
          h,
        )
        refl

layout_format-HasRoom : HasRoom layout_format
layout_format-HasRoom = ground arith

layout_values-Allowed :
    (created : ℕ) → created ≤ uint64_max → Allowed layout_format (layout_values created)
layout_values-Allowed created h = ground arith

-- The header of a file, and what is left when it is read.
abbrev pub file_header : List ℕ → ℕ → List ℕ
file_header s created =
    magic ++ (field_bytes layout_format (layout_values created) ++ (name_bytes s ++ zeros 64))

module _ (s : List ℕ) (created : ℕ) (h : is_symbol s ≡ true) (small : created ≤ uint64_max) where
  pub pack_file_header_lem : pack_file_header s created ≡ ok (file_header s created)
  unfolding pack_file_header encode_symbol
  pack_file_header_lem =
      rw
        (
          h,
          pack_fields-Allowed layout_format (layout_values created) refl
              (layout_values-Allowed created small),
        )
        refl

  module _ (rest : List ℕ) where
    -- Past the magic and the fields, which have fixed lengths.
    abbrev tail : List ℕ
    tail = (name_bytes s ++ zeros 64) ++ rest

    take_name : take 16 tail ≡ name_bytes s
    take_name =
        ap (λ n. take n tail) (sym (length-name_bytes s h))
        ∙ ap (take (length (name_bytes s))) (append_assoc (name_bytes s) (zeros 64) rest)
        ∙ take-append (name_bytes s) (zeros 64 ++ rest)

    drop_name : drop 16 tail ≡ zeros 64 ++ rest
    drop_name =
        ap (λ n. drop n tail) (sym (length-name_bytes s h))
        ∙ ap (drop (length (name_bytes s))) (append_assoc (name_bytes s) (zeros 64) rest)
        ∙ drop-append (name_bytes s) (zeros 64 ++ rest)

    drop_rest : drop 80 tail ≡ rest
    drop_rest = ap (λ n. drop n tail) eighty ∙ drop-append (name_bytes s ++ zeros 64) rest
      where
        eighty : 80 ≡ length (name_bytes s ++ zeros 64)
        eighty = omega (arith, length-append (name_bytes s) (zeros 64), length-name_bytes s h)

    read_parts_lem :
        0 < created
        → read_parts magic (layout_values created) (name_bytes s) (zeros 64) rest
          ≡ ok ((s, created), rest)
    unfolding read_parts check_layout
    read_parts_lem positive = rw (decode_symbol-name_bytes s h, at_most positive) refl
      where
        at_most : 0 < created → (created == 0) ≡ false
        at_most p = ground (arith, p)

    long_file : ltb (length (file_header s created ++ rest)) header_size ≡ false
    long_file = ground (
      arith,
      length-append (name_bytes s ++ zeros 64) rest,
      length-append (name_bytes s) (zeros 64),
      length-name_bytes s h,
    )

    pub read_file_header_lem :
        0 < created → read_file_header (file_header s created ++ rest) ≡ ok ((s, created), rest)
    unfolding read_file_header
    read_file_header_lem positive =
        past_length long_file
        ∙ ap (λ vs. read_parts magic vs (take 16 tail) (take 64 (drop 16 tail)) (drop 80 tail))
            (unpack_fields-field_bytes layout_format (layout_values created) tail refl
              layout_format-HasRoom (layout_values-Allowed created small))
        ∙ ap
            (λ n.
              read_parts magic (layout_values created) n (take 64 (drop 16 tail)) (drop 80 tail))
            take_name
        ∙ ap
            (λ z.
              read_parts magic (layout_values created) (name_bytes s) (take 64 z) (drop 80 tail))
            drop_name
        ∙ ap (read_parts magic (layout_values created) (name_bytes s) (zeros 64)) drop_rest
        ∙ read_parts_lem positive
      where
        past_length :
            ltb (length (file_header s created ++ rest)) header_size ≡ false
            → read_file_header (file_header s created ++ rest)
              ≡ read_parts magic
                  (unpack_fields layout_format
                    (field_bytes layout_format (layout_values created) ++ tail))
                  (take 16 tail)
                  (take 64 (drop 16 tail))
                  (drop 80 tail)
        past_length q =
            ap
              (λ b.
                if b
                then err Error.truncated_header
                else read_parts magic
                    (unpack_fields layout_format
                      (field_bytes layout_format (layout_values created) ++ tail))
                    (take 16 tail) (take 64 (drop 16 tail)) (drop 80 tail))
              q
