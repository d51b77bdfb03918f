-- ===== src/Retrieval.antt =====
-- src/retrieval/: what a reader of archived documents relies on.
pub mod Leases
