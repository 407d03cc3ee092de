-- ===== src/Recording/Metadata.antt =====
-- market_engine/recording/l2.py: `read_metadata` with its helpers. The sidecar is what `json.loads` gives;
-- a string is the list of its code points.
pub mod Reading
pub mod Finalize
pub mod Trip
pub mod CheckpointFile
pub mod Publish
pub mod Finalized
pub mod History
use market_systems_workstati.Base.{
  ℕ, ◌+◌, Bool, true, false, not, ◌&&◌, ◌||◌, Option, none, some, List, [], ◌∷◌, ◌++◌, ltb, leb,
  ◌==◌, nat_eq, list_eq, if◌then◌else◌, length, all, last?, Result, ok, err, Error, and_then,
  raise_if, first_error,
}
use market_systems_workstati.Base.Int.{ℤ, pos, pos_part, ltb_ℤ}
use market_systems_workstati.Book.{is_empty}
use market_systems_workstati.Book.Types.{
  price_scale as unit_of_price, quantity_scale as unit_of_quantity,
}
use market_systems_workstati.Recording.Event.{L2Event}
use market_systems_workstati.Recording.Header.{read_file_header}
use market_systems_workstati.Recording.File.{iter_events}
use market_systems_workstati.Recording.Writer.{Checkpoint, read_checkpoints}

-- The keys that the sidecar has, and the JSON values that stand under them.
pub data Key : Type 0 where
  schema_version binary_version source symbol stream recording_file checkpoint_file : Key
  created_unix_ns price_scale quantity_scale clean_shutdown data_complete event_count : Key
  snapshot_count depth_count trade_count boundary_count checkpoint_count final_update_id : Key
  final_state_hash sequence_gaps snapshot_retries queue_drops malformed_messages sha256 : Key
  checkpoint_sha256 : Key

pub data Json : Type 0 where
  integer : ℤ → Json
  boolean : Bool → Json
  string : List ℕ → Json
  other_value : Json

abbrev pub Sidecar : Type 0
Sidecar = Key → Option Json

-- What `json.loads` gives: an object, or another value.
pub data Document : Type 0 where
  object : Sidecar → Document
  not_object : Document

-- The directory of a recording: its own bytes, other files by name, and its sidecar as parsed, which may
-- raise.
pub record Folder : Type 0 where
  pub recording : Option (List ℕ)
  pub companion : List ℕ → Option (List ℕ)
  pub sidecar : Option (Result Document)

-- `_required_int`, `_required_bool` and `_required_string`
abbrev pub int_value : ℕ → Option Json → Result ℕ
int_value minimum (some (Json.integer z)) =
    if ltb_ℤ z (pos minimum) then err Error.below_minimum else ok (pos_part z)
int_value minimum (some (Json.boolean b)) = err Error.not_an_integer
int_value minimum (some (Json.string t)) = err Error.not_an_integer
int_value minimum (some Json.other_value) = err Error.not_an_integer
int_value minimum none = err Error.not_an_integer

abbrev pub bool_value : Option Json → Result Bool
bool_value (some (Json.boolean b)) = ok b
bool_value (some (Json.integer z)) = err Error.not_a_boolean
bool_value (some (Json.string t)) = err Error.not_a_boolean
bool_value (some Json.other_value) = err Error.not_a_boolean
bool_value none = err Error.not_a_boolean

abbrev pub string_value : Option Json → Result (List ℕ)
string_value (some (Json.string t)) = if is_empty t then err Error.not_a_string else ok t
string_value (some (Json.integer z)) = err Error.not_a_string
string_value (some (Json.boolean b)) = err Error.not_a_string
string_value (some Json.other_value) = err Error.not_a_string
string_value none = err Error.not_a_string

-- `if _required_...(sidecar, key) != expected: raise ...`
abbrev pub expect_int : ℕ → Option Json → ℕ → Error → Result (Unit {0})
expect_int minimum v expected e =
    and_then (int_value minimum v) (λ n. raise_if (not (n == expected)) e)

abbrev pub expect_string : Option Json → List ℕ → Error → Result (Unit {0})
expect_string v expected e = and_then (string_value v) (λ t. raise_if (not (t == expected)) e)

-- `"binance_spot"`, `"diff_depth_100ms+aggTrade"` and `".l2chk"`
abbrev pub source_name : List ℕ
source_name = 98 ∷ 105 ∷ 110 ∷ 97 ∷ 110 ∷ 99 ∷ 101 ∷ 95 ∷ 115 ∷ 112 ∷ 111 ∷ 116 ∷ []

abbrev pub stream_name : List ℕ
stream_name =
    100 ∷ 105 ∷ 102 ∷ 102 ∷ 95 ∷ 100 ∷ 101 ∷ 112 ∷ 116 ∷ 104 ∷ 95 ∷ 49 ∷ 48 ∷ 48 ∷ 109 ∷ 115 ∷ 43
    ∷ 97 ∷ 103 ∷ 103 ∷ 84 ∷ 114 ∷ 97 ∷ 100 ∷ 101 ∷ []

abbrev pub checkpoint_suffix : List ℕ
checkpoint_suffix = 46 ∷ 108 ∷ 50 ∷ 99 ∷ 104 ∷ 107 ∷ []

-- `re.fullmatch(r"[0-9a-f]{64}", value)`
abbrev pub is_hex : ℕ → Bool
is_hex c = (leb 48 c && leb c 57) || (leb 97 c && leb c 102)

abbrev pub is_digest : List ℕ → Bool
is_digest t = length t == 64 && all is_hex t

abbrev pub expect_digest : Option Json → Result (Unit {0})
expect_digest v = and_then (string_value v) (λ t. raise_if (not (is_digest t)) Error.bad_digest)

-- The checks that `read_metadata` does on a sidecar before it reads the events.
abbrev pub identity_checks : List ℕ → List ℕ → ℕ → Sidecar → List (Result (Unit {0}))
identity_checks name of_header created s =
    expect_int 1 (s Key.schema_version) 1 Error.bad_schema
    ∷ expect_int 1 (s Key.binary_version) 1 Error.bad_version
    ∷ expect_string (s Key.source) source_name Error.bad_source
    ∷ expect_string (s Key.stream) stream_name Error.bad_stream
    ∷ expect_string (s Key.symbol) of_header Error.other_symbol
    ∷ expect_int 1 (s Key.created_unix_ns) created Error.other_timestamp
    ∷ expect_string (s Key.recording_file) name Error.other_file
    ∷ expect_int 1 (s Key.price_scale) unit_of_price Error.other_scale
    ∷ expect_int 1 (s Key.quantity_scale) unit_of_quantity Error.other_scale
    ∷ and_then (string_value (s Key.sha256)) (λ _. ok tt)
    ∷ and_then (string_value (s Key.checkpoint_sha256)) (λ _. ok tt)
    ∷ expect_digest (s Key.sha256)
    ∷ expect_digest (s Key.checkpoint_sha256)
    ∷ []

unfoldable pub check_identity : List ℕ → List ℕ → ℕ → Sidecar → Result (Unit {0})
check_identity name of_header created s = first_error (identity_checks name of_header created s)

-- `event_counts`
pub record EventCounts : Type 0 where
  pub snapshots : ℕ
  pub depths : ℕ
  pub trades : ℕ
  pub boundaries : ℕ

abbrev pub no_events : EventCounts
no_events = record { snapshots = 0; depths = 0; trades = 0; boundaries = 0 }

abbrev pub count_event : L2Event → EventCounts → EventCounts
count_event (L2Event.snapshot e) n = record n { snapshots = n.snapshots + 1 }
count_event (L2Event.depth e) n = record n { depths = n.depths + 1 }
count_event (L2Event.trade e) n = record n { trades = n.trades + 1 }
count_event (L2Event.boundary e) n = record n { boundaries = n.boundaries + 1 }

abbrev pub count_events : List L2Event → EventCounts → EventCounts
count_events [] n = n
count_events (e ∷ es) n = count_events es (count_event e n)

abbrev pub all_events : EventCounts → ℕ
all_events n = n.snapshots + n.depths + n.trades + n.boundaries

abbrev pub count_checks : EventCounts → Sidecar → List (Result (Unit {0}))
count_checks n s =
    expect_int 0 (s Key.event_count) (all_events n) Error.count_mismatch
    ∷ expect_int 0 (s Key.snapshot_count) n.snapshots Error.count_mismatch
    ∷ expect_int 0 (s Key.depth_count) n.depths Error.count_mismatch
    ∷ expect_int 0 (s Key.trade_count) n.trades Error.count_mismatch
    ∷ expect_int 0 (s Key.boundary_count) n.boundaries Error.count_mismatch
    ∷ []

abbrev pub check_counts : EventCounts → Sidecar → Result (Unit {0})
check_counts n s = first_error (count_checks n s)

-- The checkpoint file with its bytes, and its checkpoints.
abbrev pub Companion : Type 0
Companion = Option (List ℕ × List ℕ) × List Checkpoint

-- The last part of the sidecar.
pub record Totals : Type 0 where
  pub clean_shutdown : Bool
  pub data_complete : Bool
  pub final_update_id : ℕ
  pub final_state_hash : ℕ
  pub sequence_gaps : ℕ
  pub snapshot_retries : ℕ
  pub queue_drops : ℕ
  pub malformed_messages : ℕ

unfoldable pub read_totals : Sidecar → Result Totals
read_totals s = and_then (bool_value (s Key.clean_shutdown)) λ clean.
    and_then (bool_value (s Key.data_complete)) λ complete.
      and_then (int_value 0 (s Key.final_update_id)) λ id.
        and_then (int_value 0 (s Key.final_state_hash)) λ hash.
          and_then (int_value 0 (s Key.sequence_gaps)) λ gaps.
            and_then (int_value 0 (s Key.snapshot_retries)) λ retries.
              and_then (int_value 0 (s Key.queue_drops)) λ drops.
                and_then (int_value 0 (s Key.malformed_messages)) λ malformed. ok (record {
                  clean_shutdown = clean;
                  data_complete = complete;
                  final_update_id = id;
                  final_state_hash = hash;
                  sequence_gaps = gaps;
                  snapshot_retries = retries;
                  queue_drops = drops;
                  malformed_messages = malformed;
                })

-- `expected_complete`
abbrev pub expected_complete : EventCounts → List Checkpoint → Totals → Bool
expected_complete n cs t =
    t.clean_shutdown
    && t.queue_drops == 0
    && t.malformed_messages == 0
    && ltb 0 (all_events n)
    && ltb 0 n.snapshots
    && ltb 0 n.depths
    && not (is_empty cs)
    && ltb 0 t.final_update_id
    && ltb 0 t.final_state_hash

abbrev pub check_last : Option Checkpoint → EventCounts → Totals → Result (Unit {0})
check_last none n t = err Error.no_final_checkpoint
check_last (some c) n t =
    if not (c.event_index == all_events n)
    then err Error.no_final_checkpoint
    else raise_if
        (not (c.update_id == t.final_update_id) || not (c.state_hash == t.final_state_hash))
        Error.final_checkpoint_differs

unfoldable pub check_complete : EventCounts → List Checkpoint → Totals → Result (Unit {0})
check_complete n cs t =
    if (t.data_complete && not (expected_complete n cs t))
      || (not t.data_complete && expected_complete n cs t)
    then err Error.inconsistent_complete
    else if t.data_complete
    then check_last (last? cs) n t
    else ok tt
