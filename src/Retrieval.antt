-- ===== src/Retrieval.antt =====
-- The retrieval package (packages/retrieval/python/mamagift_retrieval).
pub mod Errors
pub mod Scope
pub mod Budget
pub mod Chunk
pub mod Chunking
pub mod Provenance
pub mod Evidence
pub mod ArchiveScope
pub mod ArchiveEvidence
pub mod Expansion
pub mod Fusion
pub mod Rerank
pub mod Freshness
pub mod ArchiveRetriever
