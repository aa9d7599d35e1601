-- ===== src/Tests.antt =====
-- Runs of the theorems on small streams, files and ledgers.
mod Frames
mod Passes
mod Barriers
mod Pages
mod Containers
mod Ledgers
mod Images
mod Finds
mod Heaps
mod Bundles
mod Records
