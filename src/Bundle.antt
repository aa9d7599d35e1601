-- ===== src/Bundle.antt =====
-- A bundle, the documents that a replay of the capture leaves: its rows and what the report reads from
-- them.
pub mod Rows
pub mod Passes
pub mod Usage
pub mod Detect
