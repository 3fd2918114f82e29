-- ===== src/Tests/Admission.antt =====
-- The transfer of 8 enters an empty pool.
