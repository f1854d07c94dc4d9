-- ===== src/Docpipe.antt =====
-- The document pipeline (packages/docpipe/python/mamagift_docpipe).
pub mod Errors
pub mod Canonical
