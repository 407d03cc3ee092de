-- ===== src/Tests.antt =====
-- Concrete runs of the modelled code, and the theorems at inputs that meet their hypotheses.
mod Books
mod Streams
mod Orders
mod Records
mod Captures
mod Artifacts
mod Endings
mod Hashes
mod Backoffs
