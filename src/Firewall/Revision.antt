-- ===== src/Firewall/Revision.antt =====
-- The immutable revisions and the last-known-good marker, src/core/firewall/revision_store.cpp: the
-- operations (`Store`) and what they do to the disk (`Effect`).
pub mod Store
pub mod Effect
