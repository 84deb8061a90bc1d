-- ===== src/Execution/Cycles/Skip.antt =====
-- The time that a skip takes is the time for what it skips.
