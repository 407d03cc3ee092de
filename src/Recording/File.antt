-- ===== src/Recording/File.antt =====
-- `iter_events` of market_engine/recording/l2.py on the bytes of a whole file: the events that it
-- yields, and how it ends.
use market_systems_workstati.Base.{
  ℕ, zero, suc, ◌+◌, ◌-◌, ◌≤◌, ◌<◌, ◌≡◌, ◌≢◌, Bool, false, subst, ap, ◌∙◌, sym, true, List, [], ◌∷◌,
  ◌++◌, arith, length, length-append, drop, Option, none, some, Result, ok, err, Error, All,
  Bool-cases, Result-cases, inl, inr, if◌then◌else◌, ltb,
}
use mathlib.Core.List.{append-nil}
use market_systems_workstati.Book.Types.{uint64_max}
use market_systems_workstati.Recording.Event.{L2Event}
use market_systems_workstati.Recording.Codec.{
  read_record, read_body, check_sizes, unpack_header, event_header_size, EventHeader,
}
use market_systems_workstati.Recording.Fields.{append_assoc}
use market_systems_workstati.Recording.RoundTrip.{record_of, IsRecordable, read_record-record_of}
use market_systems_workstati.Recording.Header.{is_symbol, read_file_header}
use market_systems_workstati.Recording.HeaderTrip.{file_header, read_file_header_lem}

-- What a generator yields, and whether it ends or raises.
abbrev pub Yielded : Type 0
Yielded = List L2Event × Result (Unit {0})

length-drop : (n b : ℕ) (bs : List ℕ) → 0 < n → length (drop n (b ∷ bs)) < length (b ∷ bs)
length-drop zero b bs h = absurd (omega (arith, h))
length-drop (suc n) b bs h = at_most n bs
  where
    at_most : (n : ℕ) (bs : List ℕ) → length (drop n bs) < suc (length bs)
    at_most zero bs = omega arith
    at_most (suc n) [] = omega arith
    at_most (suc n) (b ∷ bs) = omega (arith, at_most n bs)

-- What a round of the loop yields, and what the rounds after it yield.
abbrev yielded_first : L2Event → Yielded → Yielded
yielded_first e (es, end) = (e ∷ es, end)

abbrev next : (List ℕ → Yielded) → Result (Option (L2Event × List ℕ)) → Yielded
next others (err e) = ([], err e)
next others (ok none) = ([], ok tt)
next others (ok (some (e, rest))) = yielded_first e (others rest)

abbrev past_header : (List ℕ → Yielded) → Result ((List ℕ × ℕ) × List ℕ) → Yielded
past_header loop (err e) = ([], err e)
past_header loop (ok (header, rest)) = loop rest

-- More events before those that a generator yields.
abbrev pub preceded : List L2Event → Yielded → Yielded
preceded es (more, end) = (es ++ more, end)

module _ (crc32 : List ℕ → ℕ) where
  -- The loop of `iter_events`, in at most that many rounds.
  unfoldable pub read_events : ℕ → List ℕ → Yielded
  unfolding read_record
  read_events zero raw = ([], ok tt)
  read_events (suc n) raw = next (read_events n) (read_record crc32 raw)

  -- `iter_events`: every record takes bytes, so one round for each byte is enough.
  unfoldable pub iter_events : List ℕ → Yielded
  unfolding read_file_header read_events
  iter_events raw =
      past_header (λ rest. read_events (suc (length rest)) rest) (read_file_header raw)

  -- A record that is read takes at least its header.
  read_body-drops :
      (h : EventHeader) (raw rest : List ℕ) (e : L2Event)
      → read_body crc32 h raw ≡ ok (some (e, rest))
      → (event_header_size ≤ h.record_size) × (rest ≡ drop h.record_size raw)
  unfolding read_body check_sizes
  read_body-drops h raw rest e r = ground (arith, r)

  read_record-shrinks :
      (raw rest : List ℕ) (e : L2Event)
      → read_record crc32 raw ≡ ok (some (e, rest))
      → length rest < length raw
  unfolding read_record
  read_record-shrinks [] rest e r = ground (arith, r)
  read_record-shrinks (b ∷ raw) rest e r =
      elim (Bool-cases (ltb (length (b ∷ raw)) event_header_size)) [
        | inl short ↦ absurd (ok_ne (sym (truncated short) ∙ r))
        | inr long ↦
            let (size, part) =
              read_body-drops (unpack_header (b ∷ raw)) (b ∷ raw) rest e (sym (whole long) ∙ r) in
            subst (λ bs. length bs < length (b ∷ raw)) (sym part)
              (length-drop (unpack_header (b ∷ raw)).record_size b raw (one_byte _ size))
      ]
    where
      ok_ne :
          ◌≢◌ {A = Result (Option (L2Event × List ℕ))}
            (err Error.truncated_header)
            (ok (some (e, rest)))
      ok_ne h = cc

      one_byte : (n : ℕ) → event_header_size ≤ n → 0 < n
      one_byte n h = omega (arith, h)

      tested : Bool → Result (Option (L2Event × List ℕ))
      tested c =
          if c
          then err Error.truncated_header
          else read_body crc32 (unpack_header (b ∷ raw)) (b ∷ raw)

      truncated :
          ltb (length (b ∷ raw)) event_header_size ≡ true
          → read_record crc32 (b ∷ raw) ≡ err Error.truncated_header
      truncated h = ap tested h

      whole :
          ltb (length (b ∷ raw)) event_header_size ≡ false
          → read_record crc32 (b ∷ raw) ≡ read_body crc32 (unpack_header (b ∷ raw)) (b ∷ raw)
      whole h = ap tested h

  -- As many rounds as there are bytes, and one more, are enough: more change nothing.
  read_events-enough :
      (n m : ℕ) (raw : List ℕ)
      → length raw < n
      → length raw < m
      → read_events n raw ≡ read_events m raw
  unfolding read_events
  read_events-enough zero m raw h k = absurd (omega (arith, h))
  read_events-enough (suc n) zero raw h k = absurd (omega (arith, k))
  read_events-enough (suc n) (suc m) raw h k = elim (Result-cases (read_record crc32 raw)) [
    | inr (e, failed) ↦ ap (next (read_events n)) failed ∙ sym (ap (next (read_events m)) failed)
    | inl (none, read) ↦ ap (next (read_events n)) read ∙ sym (ap (next (read_events m)) read)
    | inl (some (e, rest), read) ↦
        let shorter = read_record-shrinks raw rest e read in
        ap (next (read_events n)) read
        ∙ ap (yielded_first e)
            (read_events-enough n m rest (omega (arith, shorter, h)) (omega (arith, shorter, k)))
        ∙ sym (ap (next (read_events m)) read)
  ]

  abbrev pub records : List L2Event → List ℕ
  records [] = []
  records (e ∷ es) = record_of crc32 e ++ records es

  pub records-append :
      (es : List L2Event) (e : L2Event) → records (es ++ e ∷ []) ≡ records es ++ record_of crc32 e
  records-append [] e = append-nil (record_of crc32 e)
  records-append (f ∷ es) e =
      ap (λ bs. record_of crc32 f ++ bs) (records-append es e)
      ∙ sym (append_assoc (record_of crc32 f) (records es) (record_of crc32 e))

  pub read_events-records :
      (n : ℕ) (es : List L2Event) (tail : List ℕ)
      → All IsRecordable es
      → read_events (length es + n) (records es ++ tail) ≡ preceded es (read_events n tail)
  unfolding read_events
  read_events-records n [] tail h = ap (λ k. read_events k tail) (sum_zero n)
    where
      sum_zero : (n : ℕ) → 0 + n ≡ n
      sum_zero n = omega arith
  read_events-records n (e ∷ es) tail h =
      ap (λ k. read_events k (records (e ∷ es) ++ tail)) (sum_suc (length es) n)
      ∙ ap (read_events (suc (length es + n))) (append_assoc (record_of crc32 e) (records es) tail)
      ∙ ap (next (read_events (length es + n)))
          (read_record-record_of crc32 e (records es ++ tail) h.0)
      ∙ ap (yielded_first e) (read_events-records n es tail h.1)
    where
      sum_suc : (k n : ℕ) → suc k + n ≡ suc (k + n)
      sum_suc k n = omega arith

  length-records : (es : List L2Event) → length es ≤ length (records es)
  length-records [] = omega arith
  length-records (e ∷ es) =
      omega (arith, length-append (record_of crc32 e) (records es), length-records es)

  -- The events of a list, read from their records, whatever bytes follow them.
  pub stream-records :
      (es : List L2Event) (tail : List ℕ)
      → All IsRecordable es
      → read_events (suc (length (records es ++ tail))) (records es ++ tail)
        ≡ preceded es (read_events (suc (length tail)) tail)
  stream-records es tail h =
      let whole = length-append (records es) tail in
      let few = length-records es in
      let n = suc (length (records es ++ tail)) - length es in
      ap (λ k. read_events k (records es ++ tail))
        (regained (length es) _ (omega (arith, whole, few)))
      ∙ read_events-records n es tail h
      ∙ ap (preceded es)
          (read_events-enough n (suc (length tail)) tail (omega (arith, whole, few)) (omega arith))
    where
      regained : (k n : ℕ) → k ≤ n → n ≡ k + (n - k)
      regained k n h = omega (arith, h)

  read_record_short :
      (tail : List ℕ)
      → 0 < length tail
      → length tail < event_header_size
      → read_record crc32 tail ≡ err Error.truncated_header
  unfolding read_record
  read_record_short [] h k = absurd (omega (arith, h))
  read_record_short (b ∷ tail) h k = ap tested (short k)
    where
      tested : Bool → Result (Option (L2Event × List ℕ))
      tested c =
          if c
          then err Error.truncated_header
          else read_body crc32 (unpack_header (b ∷ tail)) (b ∷ tail)

      short :
          length (b ∷ tail) < event_header_size → ltb (length (b ∷ tail)) event_header_size ≡ true
      short k = ground (arith, k)

  module _ (symbol : List ℕ) (created : ℕ) (es : List L2Event) (good : is_symbol symbol ≡ true)
      (positive : 0 < created) (small : created ≤ uint64_max) (h : All IsRecordable es) where
    iter_events-preceded :
        (tail : List ℕ)
        → iter_events (file_header symbol created ++ (records es ++ tail))
          ≡ preceded es (read_events (suc (length tail)) tail)
    unfolding iter_events
    iter_events-preceded tail =
        ap (past_header loop)
          (read_file_header_lem symbol created good small (records es ++ tail) positive)
        ∙ stream-records es tail h
      where
        loop : List ℕ → Yielded
        loop rest = read_events (suc (length rest)) rest

    -- A file of the header that a writer packs for a valid symbol and a creation time above zero of at most
    -- 64 bits, and of the records of events that their constructors accept, with at most 20,000 levels a side,
    -- is read as these events, in order and without a raise. This includes a snapshot with levels of quantity zero,
    -- which the format document forbids.
    pub iter_events-records : iter_events (file_header symbol created ++ records es) ≡ (es, ok tt)
    unfolding read_events read_record
    iter_events-records =
        ap (λ bs. iter_events (file_header symbol created ++ bs)) (sym (append-nil (records es)))
        ∙ iter_events-preceded []
        ∙ ap (λ xs. (xs, ok tt)) (append-nil es)

    -- If such a file, also one that has a snapshot with levels of quantity zero, which the format document
    -- forbids, goes on with fewer bytes than the header of a record has, and with one at least, the
    -- events before them are still yielded, and then it raises.
    pub iter_events-truncated :
        (tail : List ℕ)
        → 0 < length tail
        → length tail < event_header_size
        → iter_events (file_header symbol created ++ (records es ++ tail))
          ≡ (es, err Error.truncated_header)
    unfolding read_events
    iter_events-truncated tail some_byte few =
        iter_events-preceded tail
        ∙ ap (λ r. preceded es (next (read_events (length tail)) r))
            (read_record_short tail some_byte few)
        ∙ ap (λ xs. (xs, err Error.truncated_header)) (append-nil es)
