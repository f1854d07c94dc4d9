-- ===== src/Examples/ArchiveAnswers.antt =====
-- Instances of archive_service.py, archive/retriever.py and archive/freshness.py.
use mathlib.Core.List.{Perm}
use mama_gift.Base.{
  Bool, List, Option, Result, String, Text, [], arith, codes, decimal, err, false, if◌then◌else◌,
  list_eq, map, nat_eq, none, ok, option_eq, refl, some, string_eq, true, ℕ, ◌==◌, ◌∷◌, ◌≡◌,
}
use mama_gift.Examples.Answers.{bare_citation, honest}
use mama_gift.Examples.Archive.{family}
use mama_gift.Examples.Evidence.{two_set}
use mama_gift.Examples.Fusing.{chunk_a, chunk_b, ranked_first, whole_scores}
use mama_gift.Rag.ArchiveService.{
  ArchiveChat, ArchiveQaAnswer, ArchiveQaConfig, answer_archive, archive_budget,
  validate_archive_request,
}
use mama_gift.Rag.ArchiveService.Answers.{ArchiveTrusted}
use mama_gift.Rag.ArchiveService.Grouping.{
  ArchiveDocumentGroup, ArchiveRelationRef, build_groups, group_for,
}
use mama_gift.Rag.ArchiveService.Groups.{Grouped}
use mama_gift.Rag.ArchiveService.Groups.Sound.{build_groups-Grouped}
use mama_gift.Rag.ArchiveService.Laws.{FromRetrieval, answer_archive-Trusted}
use mama_gift.Rag.Prompt.{build_grounded_prompt}
use mama_gift.Rag.Providers.{Failure, read}
use mama_gift.Rag.Validation.{
  Citation, RawAnswer, ai_worker_unavailable, answered, parse_and_validate_answer,
  validate_citations,
}
use mama_gift.Retrieval.ArchiveEvidence.{
  assemble_archive_evidence, group_evidence_by_document, render_evidence_text, surviving,
  validate_archive_candidates,
}
use mama_gift.Retrieval.ArchiveRetriever.{
  ArchiveDocumentRef, ArchiveProviders, ArchiveRetrievalResult, boost, result_of, retrieve_archive,
}
use mama_gift.Retrieval.ArchiveRetriever.Boost.{Falling, RanksFrom, boost_lem, scored_chunks}
use mama_gift.Retrieval.ArchiveRetriever.Laws.{ArchiveRetrieved, retrieve_archive-Retrieved}
use mama_gift.Retrieval.ArchiveScope.{validate_archive_scope}
use mama_gift.Retrieval.Budget.{assemble_bounded_context}
use mama_gift.Retrieval.Chunk.{ScoredChunk}
use mama_gift.Retrieval.Evidence.{
  assemble_evidence, bounded_text, cite, join, split_evidence, validate_candidates,
}
use mama_gift.Retrieval.Freshness.{FreshnessAnswer, newest_caveat, resolve_freshness}
use mama_gift.Retrieval.Freshness.Laws.{NewestOk, OrderedFor, resolve_freshness_lem}
use mama_gift.Retrieval.Fusion.{archive_reciprocal_rank_fusion}
use mama_gift.Retrieval.Fusion.Sort.{Asymmetric}
use mama_gift.Retrieval.Provenance.{chunk_scope}
use mama_gift.Retrieval.Rerank.{validate_archive_rerank_candidates}
use mama_gift.Retrieval.Scope.{scope_matches}

abbrev reference : String → String → Option ℕ → ArchiveDocumentRef
reference id run day = record {
  document_id = id;
  parse_run_id = run;
  document_version = 1;
  document_type = none;
  document_number = none;
  title = none;
  issuer = none;
  issued_date = day;
  requires_user_review = false;
}

abbrev doc_reference : ArchiveDocumentRef
doc_reference = reference "doc" "run" (some 20)

abbrev references : List ArchiveDocumentRef
references = reference "undated" "r1" none ∷ reference "early" "r2" (some 10) ∷ doc_reference ∷ []

-- An index with three documents and one chunk for each search; a question with identifiers, which
-- match the chunk of the second search better.
abbrev archive_providers : ArchiveProviders ℕ
archive_providers = record {
  current_documents = λ scope. ok references;
  search_lexical = λ scope query k. ok (ranked_first chunk_a ∷ []);
  stats = λ scope. ok (record {
    total_documents = 3;
    total_chunks = 2;
    embedded_chunks = 2;
    embedding_model = none;
    embedding_version = some "e1";
  });
  embedding_version = "e1";
  embed_query = λ query. ok (record { embedding_version = none; vectors = (1 ∷ []) ∷ [] });
  search_dense = λ scope vector k. ok (ranked_first chunk_b ∷ []);
  has_identifiers = λ query. true;
  match_score = λ query chunk. if chunk.chunk_id == chunk_b.chunk_id then 1 else 0;
  rerank = λ query candidates k. ok candidates;
}

abbrev archive_chat : RawAnswer → ArchiveChat
archive_chat raw = record {
  complete = λ messages n. ok (record { text = []; provider = "local"; model = "m" });
  reading = λ t. read raw;
}

abbrev archive_config : ArchiveQaConfig
archive_config = record {
  retriever = record { lexical_top_k = 50; dense_top_k = 50; rerank_top_k = 12 };
  budget = archive_budget;
  max_output_tokens = 512;
}

-- every question asks for the newest
abbrev newest_only : Text → String → Bool
newest_only query phrase = phrase == "mới nhất"

-- one relation whose citation is of the answer, and one without a citation
abbrev relation_to : List Text → ArchiveRelationRef
relation_to ids = record {
  relation_type = "replaces";
  review_state = "unverified";
  source_document_id = "doc";
  target_document_id = none;
  target_document_number = none;
  citation_ids = ids;
}

abbrev given_relations : List ArchiveRelationRef
given_relations = relation_to [] ∷ relation_to (codes "c1" ∷ []) ∷ []

abbrev archive_answer_to : RawAnswer → ArchiveQaAnswer
archive_answer_to raw =
    answer_archive whole_scores archive_providers (archive_chat raw) archive_config newest_only
      given_relations (65 ∷ []) family "q"

abbrev cited_answer : ArchiveQaAnswer
cited_answer = archive_answer_to (record honest { citations = bare_citation (codes "c1") ∷ [] })

-- the citation's document, its relation that has a citation, and the caveat for a list with a gap
cited_answer_groups :
    (cited_answer.status ≡ answered)
    × (map {B = String × List Text}
          (λ g. (g.document_id, g.citation_ids))
          cited_answer.document_groups
        ≡ ("doc", codes "c1" ∷ []) ∷ [])
    × (cited_answer.relations ≡ relation_to (codes "c1" ∷ []) ∷ [])
    × (cited_answer.freshness_caveat ≡ some newest_caveat)
unfolding answer_archive validate_archive_request validate_archive_scope retrieve_archive
    archive_reciprocal_rank_fusion validate_archive_rerank_candidates assemble_archive_evidence
    validate_archive_candidates assemble_bounded_context split_evidence join bounded_text surviving
    scope_matches chunk_scope render_evidence_text build_grounded_prompt parse_and_validate_answer
    validate_citations cite decimal group_evidence_by_document
cited_answer_groups = (refl, refl, refl, refl)

-- An answer that the model calls unavailable needs no citation, and the service calls it answered.
abbrev uncited : ArchiveQaAnswer
uncited = archive_answer_to (record honest { status = ai_worker_unavailable; citations = [] })

uncited_answer : (uncited.status ≡ answered) × (uncited.citations ≡ [])
unfolding answer_archive validate_archive_request validate_archive_scope retrieve_archive
    archive_reciprocal_rank_fusion validate_archive_rerank_candidates assemble_archive_evidence
    validate_archive_candidates assemble_bounded_context split_evidence join bounded_text surviving
    scope_matches chunk_scope render_evidence_text build_grounded_prompt parse_and_validate_answer
    validate_citations cite decimal group_evidence_by_document
uncited_answer = (refl, refl)

answer_archive-Trusted_example :
    ArchiveTrusted
      (FromRetrieval whole_scores archive_providers archive_config (65 ∷ []) family "q")
      (ok references)
      family
      given_relations
      "q"
      (archive_answer_to honest)
answer_archive-Trusted_example =
    answer_archive-Trusted whole_scores archive_providers (archive_chat honest) archive_config
      newest_only given_relations (65 ∷ []) family "q"

abbrev retrieval : Result Failure (ArchiveRetrievalResult ℕ)
retrieval =
    retrieve_archive whole_scores archive_providers archive_config.retriever (65 ∷ []) family

abbrev nothing_retrieved : ArchiveRetrievalResult ℕ
nothing_retrieved = result_of [] [] 0 0

abbrev retrieved : ArchiveRetrievalResult ℕ
retrieved = elim retrieval [ err e ↦ nothing_retrieved | ok r ↦ r ]

retrieval_ok : retrieval ≡ ok retrieved
unfolding answer_archive validate_archive_request validate_archive_scope retrieve_archive
    archive_reciprocal_rank_fusion validate_archive_rerank_candidates assemble_archive_evidence
    validate_archive_candidates assemble_bounded_context split_evidence join bounded_text surviving
    scope_matches chunk_scope render_evidence_text build_grounded_prompt parse_and_validate_answer
    validate_citations cite decimal group_evidence_by_document
retrieval_ok = refl

retrieve_archive-Retrieved_example : ArchiveRetrieved family retrieved
retrieve_archive-Retrieved_example =
    retrieve_archive-Retrieved whole_scores archive_providers archive_config.retriever (65 ∷ [])
      family retrieved retrieval_ok

abbrev two_candidates : List (ScoredChunk ℕ)
two_candidates = ranked_first chunk_a ∷ ranked_first chunk_b ∷ []

whole_scores-Asymmetric : Asymmetric whole_scores
whole_scores-Asymmetric a b h = ground arith

boost_lem_example :
    Perm
      (scored_chunks (boost whole_scores archive_providers [] two_candidates))
      (scored_chunks two_candidates)
    × RanksFrom 1 (boost whole_scores archive_providers [] two_candidates)
    × Falling whole_scores
        (archive_providers.match_score [])
        (boost whole_scores archive_providers [] two_candidates)
boost_lem_example =
    boost_lem whole_scores archive_providers [] two_candidates whole_scores-Asymmetric refl

abbrev freshness : FreshnessAnswer
freshness = resolve_freshness newest_only references (65 ∷ [])

resolve_freshness_lem_example :
    Perm freshness.ordered references
    × OrderedFor freshness.intent freshness.ordered references
    × NewestOk freshness.intent freshness.newest_document freshness.ordered
resolve_freshness_lem_example = resolve_freshness_lem newest_only references (65 ∷ [])

abbrev archive_citation : Citation
archive_citation = record {
  citation_id = codes "c1";
  document_id = "doc";
  page_number = 1;
  block_ids = [];
  quote = none;
}

abbrev citation_groups : Option (List ArchiveDocumentGroup)
citation_groups = build_groups (archive_citation ∷ []) two_set references

abbrev one_group : List ArchiveDocumentGroup
one_group = group_for doc_reference (codes "c1" ∷ []) ∷ []

one_group_built : citation_groups ≡ some one_group
unfolding build_groups group_for group_evidence_by_document assemble_evidence validate_candidates
    assemble_bounded_context split_evidence join chunk_scope scope_matches bounded_text decimal cite
one_group_built = refl

build_groups-Grouped_example : Grouped (archive_citation ∷ []) references one_group
build_groups-Grouped_example =
    build_groups-Grouped (archive_citation ∷ []) two_set references one_group one_group_built
