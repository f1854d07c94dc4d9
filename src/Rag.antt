-- ===== src/Rag.antt =====
-- packages/rag: the answers to questions.
pub mod Validation
pub mod Injection
pub mod Prompt
pub mod Providers
pub mod Service
pub mod ArchiveService
