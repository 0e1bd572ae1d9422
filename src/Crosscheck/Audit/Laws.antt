-- ===== src/Crosscheck/Audit/Laws.antt =====
-- What an audit says of the pages that were filled.
