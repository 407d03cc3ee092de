-- ===== src/Sim.antt =====
-- market_engine/execution/simulator.py: the event-driven execution simulator.
pub mod Types
pub mod State
pub mod Submit
pub mod Fills
pub mod Passive
pub mod Lifecycle
pub mod Activation
pub mod Controls
pub mod Run
pub mod Settling
pub mod Ledger
pub mod Refusal
