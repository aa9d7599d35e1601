-- ===== src/Stream.antt =====
-- src/py/rdc_stream.py: the frame stream.
pub mod Words
pub mod Frame
pub mod Walk
pub mod Check
pub mod Lz4
