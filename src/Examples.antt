-- ===== src/Examples.antt =====
-- Runs of the modelled code on concrete inputs, and instances of the theorems.
mod Samples
mod Scope
mod Evidence
mod Machines
mod Queue
mod Runs
mod Chunks
mod Archive
mod Answers
mod Fusing
mod Corrections
mod Reranking
mod Building
mod ArchiveAnswers
