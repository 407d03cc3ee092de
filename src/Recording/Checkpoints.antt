-- ===== src/Recording/Checkpoints.antt =====
-- The checkpoints that an `L2Writer` (market_engine/recording/l2.py) writes, against `read_checkpoints`.
use market_systems_workstati.Base.{
  ℕ, ◌+◌, ◌*◌, ◌≤◌, ◌<◌, ◌≡◌, refl, ap, sym, ◌∙◌, false, some, List, [], ◌∷◌, ◌++◌, nat_eq, length,
  length-append, last?, All, All-append, arith, Bool-cases, Result-cases, inl, inr, ok,
  either-keeps,
}
use market_systems_workstati.Base.Int.{ℤ, pos}
use market_systems_workstati.Book.Types.{uint64_max}
use market_systems_workstati.Recording.Event.{L2Event}
use market_systems_workstati.Recording.Codec.{pack_event}
use market_systems_workstati.Recording.Fields.{
  le_value-le_bytes, field_bytes, pack_fields-Allowed, append_assoc,
}
use market_systems_workstati.Recording.Writer.{
  Checkpoint, Writer, make_checkpoint, counted, write, write_checkpoint, append_checkpoint,
  checkpoint_format, checkpoint_size, checkpoint_values, is_not_later, unpack_checkpoints,
  is_unordered, read_checkpoint_payload, open_writer,
}

abbrev Positive64 : ℕ → Type 0
Positive64 v = (0 < v) × (v ≤ uint64_max)

abbrev pub IsCheckpoint : Checkpoint → Type 0
IsCheckpoint c = Positive64 c.event_index × (Positive64 c.update_id × Positive64 c.state_hash)

make_checkpoint-IsCheckpoint :
    (index id hash : ℤ) (c : Checkpoint) → make_checkpoint index id hash ≡ ok c → IsCheckpoint c
unfolding make_checkpoint
make_checkpoint-IsCheckpoint index id hash c h = ground (arith, h)

remade_checkpoint :
    (c : Checkpoint)
    → IsCheckpoint c
    → make_checkpoint (pos c.event_index) (pos c.update_id) (pos c.state_hash) ≡ ok c
unfolding make_checkpoint
remade_checkpoint c h = ground (arith, h)

abbrev pub checkpoint_bytes : Checkpoint → List ℕ
checkpoint_bytes c = field_bytes checkpoint_format (checkpoint_values c)

abbrev pub all_bytes : List Checkpoint → List ℕ
all_bytes [] = []
all_bytes (c ∷ cs) = checkpoint_bytes c ++ all_bytes cs

pub length-all_bytes : (cs : List Checkpoint) → length (all_bytes cs) ≡ length cs * checkpoint_size
length-all_bytes [] = refl
length-all_bytes (c ∷ cs) = omega (arith, length-all_bytes cs)

all_bytes-append :
    (cs : List Checkpoint) (c : Checkpoint)
    → all_bytes (cs ++ c ∷ []) ≡ all_bytes cs ++ checkpoint_bytes c
all_bytes-append [] c = refl
all_bytes-append (d ∷ cs) c =
    ap (λ bs. checkpoint_bytes d ++ bs) (all_bytes-append cs c)
    ∙ sym (append_assoc (checkpoint_bytes d) (all_bytes cs) (checkpoint_bytes c))

last-append : (cs : List Checkpoint) (c : Checkpoint) → last? (cs ++ c ∷ []) ≡ some c
last-append [] c = refl
last-append (d ∷ []) c = refl
last-append (d ∷ e ∷ cs) c = last-append (e ∷ cs) c

is_unordered-append :
    (cs : List Checkpoint) (c : Checkpoint)
    → is_unordered cs ≡ false
    → is_not_later c (last? cs) ≡ false
    → is_unordered (cs ++ c ∷ []) ≡ false
is_unordered-append [] c h k = refl
is_unordered-append (d ∷ []) c h k = ground (arith, k)
is_unordered-append (d ∷ e ∷ cs) c h k = ground (arith, h, is_unordered-append (e ∷ cs) c)

unpack_checkpoints-all_bytes :
    (cs : List Checkpoint)
    → All IsCheckpoint cs
    → unpack_checkpoints (length cs) (all_bytes cs) ≡ ok cs
unfolding unpack_checkpoints
unpack_checkpoints-all_bytes [] h = refl
unpack_checkpoints-all_bytes (c ∷ cs) h =
    rw
      (
        le_value-le_bytes 8 c.event_index (omega (arith, h.0.0)),
        le_value-le_bytes 8 c.update_id (omega (arith, h.0.1)),
        le_value-le_bytes 8 c.state_hash (omega (arith, h.0.1)),
        remade_checkpoint c h.0,
        unpack_checkpoints-all_bytes cs h.1,
      )
      refl

pub read_checkpoint_payload-all_bytes :
    (cs : List Checkpoint)
    → All IsCheckpoint cs
    → is_unordered cs ≡ false
    → read_checkpoint_payload (all_bytes cs) ≡ ok cs
unfolding read_checkpoint_payload
read_checkpoint_payload-all_bytes cs h o =
    ground (arith, length-all_bytes cs, unpack_checkpoints-all_bytes cs h, o)

-- What a writer holds, with the checkpoints that it wrote.
pub record IsLogged (cs : List Checkpoint) (w : Writer) : Type 0 where
  pub bytes : w.checkpoint_stream ≡ all_bytes cs
  pub last : w.last_checkpoint ≡ last? cs
  pub good : All IsCheckpoint cs
  pub ordered : is_unordered cs ≡ false
  pub number : w.checkpoint_count ≡ length cs
  pub events : w.event_count ≡ w.snapshot_count + w.depth_count + w.trade_count + w.boundary_count

-- A writer that was opened, and given events and checkpoints; some of the calls may have raised.
pub data Written (crc32 : List ℕ → ℕ) : Writer → Type 0 where
  opened :
      (symbol : List ℕ) (interval : ℤ) {w : Writer}
      → open_writer symbol interval ≡ ok w
      → Written crc32 w
  event : (e : L2Event) {w : Writer} → Written crc32 w → Written crc32 (write crc32 e w).1
  checkpoint :
      (id hash : ℤ) {w : Writer} → Written crc32 w → Written crc32 (write_checkpoint id hash w).1

abbrev pub HasLog : Writer → Type 0
HasLog w = (cs : List Checkpoint) × IsLogged cs w

pub stream_counted : (e : L2Event) (w : Writer) → (counted e w).stream ≡ w.stream
stream_counted (L2Event.snapshot e) w = refl
stream_counted (L2Event.depth e) w = refl
stream_counted (L2Event.trade e) w = refl
stream_counted (L2Event.boundary e) w = refl

pub symbol_counted : (e : L2Event) (w : Writer) → (counted e w).symbol ≡ w.symbol
symbol_counted (L2Event.snapshot e) w = refl
symbol_counted (L2Event.depth e) w = refl
symbol_counted (L2Event.trade e) w = refl
symbol_counted (L2Event.boundary e) w = refl

counted-HasLog :
    (e : L2Event) (raw : List ℕ) (w : Writer)
    → HasLog w
    → HasLog (counted e (record w { stream = w.stream ++ raw; event_count = w.event_count + 1 }))
counted-HasLog (L2Event.snapshot e) raw w (cs, l) = (
  cs,
  record {
    bytes = l.bytes;
    last = l.last;
    good = l.good;
    ordered = l.ordered;
    number = l.number;
    events = omega (arith, l.events);
  },
)
counted-HasLog (L2Event.depth e) raw w (cs, l) = (
  cs,
  record {
    bytes = l.bytes;
    last = l.last;
    good = l.good;
    ordered = l.ordered;
    number = l.number;
    events = omega (arith, l.events);
  },
)
counted-HasLog (L2Event.trade e) raw w (cs, l) = (
  cs,
  record {
    bytes = l.bytes;
    last = l.last;
    good = l.good;
    ordered = l.ordered;
    number = l.number;
    events = omega (arith, l.events);
  },
)
counted-HasLog (L2Event.boundary e) raw w (cs, l) = (
  cs,
  record {
    bytes = l.bytes;
    last = l.last;
    good = l.good;
    ordered = l.ordered;
    number = l.number;
    events = omega (arith, l.events);
  },
)

write-HasLog :
    (crc32 : List ℕ → ℕ) (e : L2Event) (w : Writer) → HasLog w → HasLog (write crc32 e w).1
unfolding write
write-HasLog crc32 e w l =
    either-keeps HasLog w.closed _ _ l (elim (Result-cases (pack_event crc32 e)) [
      | inl (raw, packed) ↦ rw packed (counted-HasLog e raw w l)
      | inr (x, failed) ↦ rw failed l
    ])

append_checkpoint-HasLog :
    (c : Checkpoint) (w : Writer)
    → IsCheckpoint c
    → is_not_later c w.last_checkpoint ≡ false
    → HasLog w
    → HasLog (append_checkpoint c w).1
unfolding append_checkpoint
append_checkpoint-HasLog c w h later (cs, l) =
    rw
      (
        pack_fields-Allowed checkpoint_format (checkpoint_values c) refl
            (omega (arith, h.0), (omega (arith, h.1), (omega (arith, h.1), tt))),
        append_checkpoint,
      )
      (
        cs ++ c ∷ [],
        record {
          bytes = ap (λ bs. bs ++ checkpoint_bytes c) l.bytes ∙ sym (all_bytes-append cs c);
          last = sym (last-append cs c);
          good = All-append IsCheckpoint cs (c ∷ []) l.good (h, tt);
          ordered = is_unordered-append cs c l.ordered (ap (is_not_later c) (sym l.last) ∙ later);
          number = omega (arith, l.number, length-append cs (c ∷ []));
          events = l.events;
        },
      )

write_checkpoint-HasLog :
    (id hash : ℤ) (w : Writer) → HasLog w → HasLog (write_checkpoint id hash w).1
unfolding write_checkpoint
write_checkpoint-HasLog id hash w l =
    either-keeps HasLog w.closed _ _ l
      (elim (Result-cases (make_checkpoint (pos w.event_count) id hash)) [
        | inr (x, failed) ↦ rw failed l
        | inl (c, made) ↦ rw made (elim (Bool-cases (is_not_later c w.last_checkpoint)) [
          | inl late ↦ rw late l
          | inr later ↦ rw later (
              append_checkpoint-HasLog c w
                (make_checkpoint-IsCheckpoint (pos w.event_count) id hash c made) later l)
        ])
      ])

opened-HasLog :
    (symbol : List ℕ) (interval : ℤ) (w : Writer) → open_writer symbol interval ≡ ok w → HasLog w
unfolding open_writer
opened-HasLog symbol interval w h = (
  [],
  record {
    bytes = ground (arith, h);
    last = ground (arith, h);
    good = tt;
    ordered = refl;
    number = ground (arith, h);
    events = ground (arith, h);
  },
)

pub Written-HasLog : (crc32 : List ℕ → ℕ) {w : Writer} → Written crc32 w → HasLog w
Written-HasLog crc32 (Written.opened symbol interval {w = w} h) = opened-HasLog symbol interval w h
Written-HasLog crc32 (Written.event e {w = w} t) = write-HasLog crc32 e w (Written-HasLog crc32 t)
Written-HasLog crc32 (Written.checkpoint id hash {w = w} t) =
    write_checkpoint-HasLog id hash w (Written-HasLog crc32 t)
