-- ===== src/Lib.antt =====
-- MamaGift: an archive of administrative documents that are uploaded, parsed, indexed and questioned.
--
-- The program's parts and how they interact. The API (services/api/app) stores an uploaded file and
-- queues a parse job for it; a worker leases jobs, runs the document pipeline of packages/docpipe on
-- each and records the outcome on the job, the document and a new parse run. The retrieval package
-- (packages/retrieval) cuts a parsed document into chunks, fuses the lists of two searches for a
-- question, adds the ancestors of what was found and assembles it, checked against the scope of the
-- request and bounded by a character budget, into evidence. The question answering package
-- (packages/rag) sends the evidence to a model and checks the citations of its answer against it: one
-- service answers from a selected document, a sibling from the current documents of the whole archive.
--
-- Which file models which part (paths from the root of the repository, P for
-- packages/retrieval/python/mamagift_retrieval and S for services/api/app):
-- - Base: names that the others share: Boolean tests, lists over the native numbers, results,
--   decimal numerals.
-- - Retrieval.Scope: P/scope.py, with scope_matches and resolve_conflict; Retrieval.Scope.Laws
--   has the scope rule as a relation.
-- - Retrieval.Budget: P/budget.py, with assemble_bounded_context.
-- - Retrieval.Chunk: P/chunk.py and ScoredChunk of P/index/entries.py; Retrieval.Chunk.Tree has
--   validate_chunk_tree.
-- - Retrieval.Provenance: the scope that fusion, expansion and the assemblers build for a chunk.
-- - Retrieval.Fusion: P/search/fusion.py, with both fusions; Merge, Sort, Laws and Sound hold the
--   proofs on the entries, their order, the lists and the entry points.
-- - Retrieval.Expansion: P/evidence/expansion.py, with expand_evidence.
-- - Retrieval.Evidence: P/evidence/assembler.py, with assemble_evidence.
-- - Retrieval.ArchiveScope: validate_archive_scope of P/archive/protocol.py.
-- - Retrieval.ArchiveEvidence: P/evidence/archive_assembler.py, with assemble_archive_evidence
--   and group_evidence_by_document.
-- - Retrieval.Rerank: the two candidate checks of P/rerank/protocol.py.
-- - Retrieval.Errors: the ValueErrors and TypeErrors of the package, one constructor for each
--   message.
-- - Rag.Validation: validation.py and schema.py of packages/rag/python/mamagift_rag, with
--   parse_and_validate_answer.
-- - Rag.Injection, Rag.Prompt: injection.py and prompt.py of the same package: the escaped blocks
--   and the messages.
-- - Rag.Service: service.py of the same package: QaService.answer is answer_question, with
--   Answers for what each step promises; its parameters and texts are in Rag.Providers.
-- - Retrieval.Chunking: P/chunking: Quoting and Identifiers for chunk_id, Legal, Fallback and
--   Plan for the three builders (Plan.Patterns the regular expressions of a plan, Plan.Chunks its
--   lines and chunks), Builder for build_chunks.
-- - Retrieval.ArchiveRetriever: P/archive/retriever.py with the rows of P/archive/protocol.py:
--   ArchiveRetriever.retrieve is retrieve_archive, with retrieve_from behind the allow-list and
--   search_archive behind the early returns; Boost is step 9.
-- - Retrieval.Freshness: P/archive/freshness.py, with resolve_freshness.
-- - Rag.ArchiveService: archive_service.py of packages/rag/python/mamagift_rag:
--   ArchiveQaService.answer is answer_archive; Grouping has _build_groups and _filter_relations,
--   with their proofs in Groups and Relations; Answers has what each step promises.
-- - Docpipe.Canonical: packages/docpipe/python/mamagift_docpipe/canonical.py, with its three
--   validators.
-- - Docpipe.Errors: packages/docpipe/python/mamagift_docpipe/errors.py.
-- - Api.StateMachine: S/state_machine.py, both transition tables and their guards.
-- - Api.Models: the rows of S/models.py and the settings that the queue reads.
-- - Api.Jobs: the status moves and enqueue_parse_job of S/ingestion.py.
-- - Api.Leases: release_expired_leases, _claim_job and lease_next_job of S/ingestion.py; Race has
--   the loop against other sessions.
-- - Api.Run: run_job, _fail_job, _record_parse_run and reprocess_document of S/ingestion.py.
-- - Api.Worker: process_next_job, _handle_job_failure and drain of S/worker.py.
-- - Api.Feedback: S/feedback.py, with validate_feedback, submit_feedback and apply_corrections.
-- - Examples: instances of the theorems on sample documents.
--
-- Bounds and fuel:
-- - path_from (the labels on the way up from a node of the hierarchy) runs on two turns more than
--   there are nodes: every turn but the last sees another node.
-- - search_key (the loop over the generations of an idempotency key) runs on fuel, one more than
--   the number of jobs: every turn meets another job, so no more are needed.
-- - lease_loop runs on one turn more than there are queued jobs: a turn is lost only to a session
--   that took a queued job. Where other sessions also put jobs into the queue meanwhile, no bound
--   holds.
-- - walk_up (the way up the parents of a chunk) runs on two turns more than there are chunks:
--   every turn but the last visits another chunk of the set.
--
-- How the state corresponds. A database table is a list of records in the order of insertion, a
-- session's effect is the pair of the new tables and the value returned, and an exception is an `err`
-- of Base.Results. Times are natural numbers. A text that the code measures is a list of code points
-- (Text), a text that it only compares is a native string. The score of a retrieved chunk is a
-- parameter, since the code computes floating-point scores.
--
-- Not modelled: the web front end, the HTTP routers, the database engine and its migrations, the
-- file storage, the model providers, the parsers behind the adapters, the searches with
-- floating-point scores, the administrative document parser with its regular expressions and the
-- evaluation tools. Where modelled code calls them, their answers are arguments.
mod Base
pub mod Retrieval
pub mod Docpipe
pub mod Rag
pub mod Api
mod Examples
