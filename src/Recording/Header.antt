-- ===== src/Recording/Header.antt =====
-- market_engine/recording/l2.py: `_encode_symbol`, `_decode_symbol`, the header that `L2Writer` writes,
-- and `_read_header`. A symbol is the list of its code points.
use market_systems_workstati.Base.{
  ℕ, zero, suc, ◌-◌, Bool, not, ◌&&◌, ◌||◌, List, [], ◌∷◌, ◌++◌, ltb, leb, ◌==◌, nat_eq, list_eq,
  if◌then◌else◌, length, take, drop, any, all, Result, ok, err, Error, and_then,
}
use market_systems_workstati.Book.Types.{price_scale, quantity_scale, uint64_max}
use market_systems_workstati.Recording.Codec.{
  pack_fields, unpack_fields, field, uint32_max, event_header_size, level_size,
}

-- `_SYMBOL_PATTERN.fullmatch`: one to fifteen of `A-Z0-9`.
abbrev pub is_symbol_char : ℕ → Bool
is_symbol_char c = (leb 65 c && leb c 90) || (leb 48 c && leb c 57)

abbrev pub is_symbol : List ℕ → Bool
is_symbol s = leb 1 (length s) && leb (length s) 15 && all is_symbol_char s

abbrev pub zeros : ℕ → List ℕ
zeros zero = []
zeros (suc n) = 0 ∷ zeros n

-- `_encode_symbol`, on text that is stripped and in upper case.
unfoldable pub encode_symbol : List ℕ → Result (List ℕ)
encode_symbol s = if is_symbol s then ok (s ++ zeros (16 - length s)) else err Error.bad_symbol

-- `value.partition(b"\0")`: what comes before the first zero byte, and what comes after it.
unfoldable pub partition_zero : List ℕ → List ℕ × List ℕ
partition_zero [] = ([], [])
partition_zero (b ∷ bs) =
    let (raw, padding) = partition_zero bs in if b == 0 then ([], bs) else (b ∷ raw, padding)

-- `_decode_symbol`
unfoldable pub decode_symbol : List ℕ → Result (List ℕ)
unfolding partition_zero
decode_symbol value =
    let (raw, padding) = partition_zero value in
    if not (length value == 16)
    then err Error.bad_symbol_size
    else if any (ltb 0) padding
    then err Error.bad_symbol_padding
    else if any (ltb 127) raw
    then err Error.symbol_not_ascii
    else if is_symbol raw
    then ok raw
    else err Error.bad_symbol_text

abbrev pub header_size : ℕ
header_size = 128

-- `b"QL2EVT1\0"`
abbrev pub magic : List ℕ
magic = 81 ∷ 76 ∷ 50 ∷ 69 ∷ 86 ∷ 84 ∷ 49 ∷ 0 ∷ []

-- What stands between the magic and the symbol: version, header size, event header size, level size,
-- price scale, quantity scale and creation time.
abbrev pub layout_format : List (ℕ × ℕ)
layout_format =
    (4, uint32_max)
    ∷ (4, uint32_max)
    ∷ (4, uint32_max)
    ∷ (4, uint32_max)
    ∷ (8, uint64_max)
    ∷ (8, uint64_max)
    ∷ (8, uint64_max)
    ∷ []

abbrev pub layout_values : ℕ → List ℕ
layout_values created =
    1 ∷ header_size ∷ event_header_size ∷ level_size ∷ price_scale ∷ quantity_scale ∷ created ∷ []

-- The header that the constructor of `L2Writer` writes.
unfoldable pub pack_file_header : List ℕ → ℕ → Result (List ℕ)
unfolding encode_symbol pack_fields
pack_file_header symbol created = and_then (encode_symbol symbol) λ name.
    and_then (pack_fields layout_format (layout_values created))
      λ layout. ok (magic ++ (layout ++ (name ++ zeros 64)))

-- The checks of `_read_header` on the fields.
unfoldable pub check_layout : List ℕ → List ℕ → List ℕ → Result (Unit {0})
check_layout start vs reserved =
    if not (start == magic) || not (field 0 vs == 1)
    then err Error.bad_magic
    else if not (field 1 vs == header_size) || not (field 2 vs == event_header_size)
    then err Error.bad_layout
    else if not (field 3 vs == level_size)
    then err Error.bad_layout
    else if not (field 4 vs == price_scale) || not (field 5 vs == quantity_scale)
    then err Error.bad_scale
    else if field 6 vs == 0
    then err Error.zero_creation_time
    else if any (ltb 0) reserved
    then err Error.bad_header_flags
    else ok tt

-- `_read_header` on the parts of the header, and what is left of the file.
unfoldable pub read_parts :
    List ℕ → List ℕ → List ℕ → List ℕ → List ℕ → Result ((List ℕ × ℕ) × List ℕ)
unfolding check_layout decode_symbol
read_parts start vs name reserved rest =
    and_then (check_layout start vs reserved)
      λ _. and_then (decode_symbol name) λ symbol. ok ((symbol, field 6 vs), rest)

-- `_read_header` on the bytes of a file: the symbol and the creation time, and what is left.
unfoldable pub read_file_header : List ℕ → Result ((List ℕ × ℕ) × List ℕ)
unfolding read_parts unpack_fields
read_file_header raw =
    if ltb (length raw) header_size
    then err Error.truncated_header
    else read_parts (take 8 raw) (unpack_fields layout_format (drop 8 raw)) (take 16 (drop 48 raw))
        (take 64 (drop 64 raw)) (drop header_size raw)
