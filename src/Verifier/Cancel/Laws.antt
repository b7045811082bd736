-- ===== src/Verifier/Cancel/Laws.antt =====
-- What an accepted cancellation leaves.
