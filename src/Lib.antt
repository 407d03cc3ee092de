-- ===== src/Lib.antt =====
-- Market Systems Workstation: the Level-2 market data path and the execution simulator.
--
-- The program receives exchange snapshots and depth updates, rebuilds an order book from them with a
-- synchronizer, records the events that the synchronizer accepted, and replays a recording to verify it
-- or through an execution simulator. The book is shared by the synchronizer, the verification and the
-- simulator.
--
-- Base and its children: names of the library passed on, Boolean tests, integers with a sign over the
-- native numbers, dicts as association lists, sorting, the results of calls that may raise, and the
-- little-endian fields of `struct`. An action gives its result and the state, also when it raises,
-- since Python keeps the changes that were made before a raise.
--
-- Book (market_engine/market_data/l2_order_book.py, `L2OrderBook` and the values): Types has
-- `_validate_u64` and `Level`, `Snapshot`, `DepthUpdate`, `Trade` with the checks of their
-- `__post_init__`; Book has `clear`, `install_snapshot`, `apply`, `_set_level`, `validate`,
-- `best_bid`, `best_ask`, `bids`, `asks`, `quantity_at` and `state_hash`; Hash is the mixing of
-- `state_hash`. Levels, Views and Invariant hold what is proved of them.
--
-- Sync (the same file, `DepthSynchronizer`): `reset`, `ingest`, `install_snapshot`, `_buffer_event` and
-- `_apply_live`. Chain describes update-ID continuity without the code: the events that a stream
-- contributes after an update ID (`accepted`) and where it breaks off (`beyond_gap`). Live, Bridge and
-- Install give the branches in these terms; Buffer, Soundness and Session are about every history of
-- calls, for any predicates that hold of the updates received and of the snapshots fetched.
--
-- Recording (market_engine/recording/l2.py): Event has the events and the boundaries, Codec
-- `_level_payload`, `_pack_event`, `_read_levels` and one round of the loop of `iter_events`, Header the
-- header of a file and `_read_header`, File the whole of `iter_events`: the events that the generator
-- yields and how it ends. A file is the list of its bytes, and `zlib.crc32` is a parameter. Fields,
-- RoundTrip and HeaderTrip are about reading back what was packed. Writer has `Checkpoint`, the
-- constructor's checks, `write`, `write_checkpoint` and `read_checkpoints`; Checkpoints is about reading
-- back what a writer wrote, StateHash about the hash of a book in a checkpoint. Metadata has the
-- sidecar and its checks, Reading `read_metadata` over the directory of a recording, Finalize
-- `finalize` and `abort`; Trip, Publish, Finalized and History are about the metadata that a finalized
-- writer leaves, CheckpointFile about its whole checkpoint file. The sidecar is the document that `json.loads`
-- gives, a table over the keys that the code uses; SHA-256 and `Path(...).name` are parameters. Writing
-- to a file does not fail here, and what is written is what is read.
--
-- Replay (market_engine/cli/verify_l2_replay.py): `replay` and the comparison of trials. Steps and Books
-- relate its loop to a fold of the events over the book, Checked is about the checkpoints and the counts.
-- The hex digest of SHA-256 is a parameter.
--
-- Capture (market_engine/market_data/l2_capture.py, `SymbolCapture` and the end of `capture`): the clock
-- and the snapshot fetcher are functions of the number of the call, since each call may give another
-- answer; a fetcher may raise. The theorems ask of the fetcher only that what it gives passed the
-- constructor of `Snapshot`. Contract, Applied, Installing, Synchronizing and Faithful carry one
-- invariant through the methods: the stream holds records that rebuild some book, which is the
-- synchronizer's own while that is live. Session, Stopping and Finalizing put it together with Recording
-- and Replay. Queue is the loop of `capture` over the items of its queue, for all symbols, and Running is
-- about it. Ending is the last loop of `capture`, with the directory of each recording, and Ending/Closed is
-- about it. Backoff is `ReconnectBackoff`, over floats, with the attempts of a client as a list.
--
-- Floats: Python's float is a parameter, a record of the operations that the simulator uses. No
-- property rests on how they round; the tests use whole numbers.
--
-- Sim (market_engine/execution/simulator.py, `ExecutionSimulator`): Types has the orders, cancels and
-- fills, State the configuration and the fields, Submit `submit` and `cancel`, Fills `_record_fill` and
-- `_execute_taker`, Passive `_process_trade`, `_process_depth_depletion` and
-- `_refresh_consumed_liquidity`, Lifecycle `_expire_orders`, `_cancel_all` and `_check_kill_switch`,
-- Activation `_activate_next_request`, Controls `_process_next_cancel` and `_process_controls`, Run
-- `_update_mid_and_markouts`, `_finalize_pending_requests` and `run`. Orders are shared objects in the
-- code; here the dict of orders holds them, and a method that changes an order writes it back. Ledger
-- and its children carry one invariant through every operation; Settling is about the control loop (Rounds:
-- how many rounds it needs; Timed: what it leaves); Refusal is about a refused passive fill.
--
-- Bounds and fuel: integers are unbounded as in Python, with the checks against 64 bits written out and
-- the hash reduced modulo 2 ^ 64. The loops follow lists, but for three on fuel. `control_loop`, the
-- `while` loop of `_process_controls`, has a round for each pending order and cancel: each round takes
-- one of them away (Settling). `read_events`, the loop of `iter_events`, has a round for each byte: a
-- record has at least 80 (File). `attempt` has the number of rounds that the code has.
--
-- Not modelled: the isinstance checks (a field has its type here), the texts of the exceptions (an
-- enumeration stands for them), the parsing of decimal strings and of JSON, paths and temporary files,
-- `SimulationResult.summary` and the command lines, the sockets and threads of the capture, the research
-- and statistics code, the user interface and the native engine. `run` takes the flag `data_complete`
-- that the metadata has, the events that the reader of the recording yields, and how the reader ends.
-- Symbols are given stripped and in upper case, as `strip().upper()` leaves them.
pub mod Base
pub mod Book
pub mod Sync
pub mod Floats
pub mod Recording
pub mod Replay
pub mod Capture
pub mod Sim
mod Tests
