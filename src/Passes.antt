-- ===== src/Passes.antt =====
-- The passes of a frame: src/py/rdc_passdiff.py, which reads them from the stream's markers and lines up
-- those of two captures.
pub mod Markers
pub mod Paths
pub mod Align
