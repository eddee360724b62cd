-- ===== src/Util.antt =====
-- vmnetx/util.py: the consolidation of runs of numbers (Ranges) and the reconnection timer
-- (Backoff).
pub mod Ranges
pub mod Backoff
