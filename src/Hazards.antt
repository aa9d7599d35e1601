-- ===== src/Hazards.antt =====
-- src/py/rdc_hazards.py: the state that each use of a resource needs, against the state that the
-- command list's own barriers left it in.
pub mod States
pub mod Track
pub mod Scan
