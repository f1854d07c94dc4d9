-- ===== src/Examples/Archive.antt =====
-- Instances of evidence/archive_assembler.py and archive/protocol.py.
use mama_gift.Base.{
  All, List, Result, String, [], codes, distinct, list_eq, map, nat_eq, none, ok, option_eq, refl,
  some, string_eq, true, ℕ, ◌∷◌, ◌≡◌, ◌≤◌,
}
use mama_gift.Examples.Evidence.{or_empty}
use mama_gift.Examples.Samples.{one_document, sample_chunk, scored, small_budget}
use mama_gift.Retrieval.ArchiveEvidence.{
  assemble_archive_evidence, group_evidence_by_document, is_allowed_document, render_evidence_text,
  surviving, validate_archive_candidates,
}
use mama_gift.Retrieval.ArchiveEvidence.Groups.{
  group_evidence_by_document_lem, group_of, items_of, keys,
}
use mama_gift.Retrieval.ArchiveEvidence.Laws.{ArchiveGrounded, assemble_archive_evidence_sound}
use mama_gift.Retrieval.ArchiveScope.{IsArchive, validate_archive_scope}
use mama_gift.Retrieval.Budget.{assemble_bounded_context}
use mama_gift.Retrieval.Chunk.{Chunk, ScoredChunk, meta_text}
use mama_gift.Retrieval.Errors.{RetrievalError}
use mama_gift.Retrieval.Evidence.{Evidence, EvidenceSet, bounded_text, join, split_evidence}
use mama_gift.Retrieval.Evidence.Laws.{Acceptable, Versioned, chunks_of}
use mama_gift.Retrieval.Provenance.{chunk_scope}
use mama_gift.Retrieval.Scope.{EvidenceScope, scope_matches}

abbrev pub family : EvidenceScope
family = record one_document {
  family_id = "mamagift";
  document_id = none;
  document_version = none;
  parse_run_id = none;
  archive_scope = true;
}

-- a task with its owner, and a blank value that has no line
abbrev owned : Chunk
owned = record (sample_chunk "a" (some 1) (1 ∷ 2 ∷ 3 ∷ [])) {
  metadata = ("owner", meta_text (32 ∷ 65 ∷ [])) ∷ ("ordinal", meta_text (32 ∷ [])) ∷ [];
}

rendered_owner : render_evidence_text owned ≡ 1 ∷ 2 ∷ 3 ∷ b'\n' ∷ codes "Đơn vị chủ trì: A"
unfolding render_evidence_text
rendered_owner = refl

abbrev three_candidates : List (ScoredChunk ℕ)
three_candidates =
    scored owned
    ∷ scored (record (sample_chunk "b" (some 2) (4 ∷ [])) { document_id = "other" })
    ∷ scored (sample_chunk "c" (some 1) (5 ∷ []))
    ∷ []

-- one document at most, with three characters
abbrev archive_answer : Result RetrievalError EvidenceSet
archive_answer = assemble_archive_evidence three_candidates family small_budget "q" none 1 4

abbrev archive_set : EvidenceSet
archive_set = or_empty archive_answer

archive_ok : archive_answer ≡ ok archive_set
unfolding assemble_archive_evidence validate_archive_candidates validate_archive_scope
    assemble_bounded_context split_evidence join bounded_text surviving scope_matches chunk_scope
    render_evidence_text
archive_ok = refl

archive_texts : map (λ e. e.text) archive_set.evidence ≡ (1 ∷ 2 ∷ 3 ∷ b'\n' ∷ []) ∷ [] ∷ []
unfolding assemble_archive_evidence validate_archive_candidates validate_archive_scope
    assemble_bounded_context split_evidence join bounded_text surviving scope_matches chunk_scope
    render_evidence_text
archive_texts = refl

assemble_archive_evidence_sound_example :
    IsArchive family
    × (1 ≤ 1)
    × (1 ≤ 4)
    × Acceptable family three_candidates
    × All (λ c. is_allowed_document none c.document_id ≡ true) (chunks_of three_candidates)
    × ((vs : List (Chunk × ℕ)) × (survivors : List (Chunk × ℕ)) × (map (λ v. v.0) vs
          ≡ chunks_of three_candidates)
        × All Versioned vs
        × ArchiveGrounded small_budget 1 4 vs survivors archive_set.evidence archive_set.budget)
assemble_archive_evidence_sound_example =
    assemble_archive_evidence_sound three_candidates family small_budget "q" none 1 4
      {es = archive_set} archive_ok

abbrev groups : Result RetrievalError (List (String × List Evidence))
groups = group_evidence_by_document archive_set

groups_ok : groups ≡ ok (("doc", archive_set.evidence) ∷ [])
unfolding group_evidence_by_document assemble_archive_evidence validate_archive_candidates
    validate_archive_scope assemble_bounded_context split_evidence join bounded_text surviving
    scope_matches chunk_scope render_evidence_text
groups_ok = refl

group_evidence_by_document_lem_example :
    (distinct (keys (("doc", archive_set.evidence) ∷ [])) ≡ true)
    × ((doc_id : String)
        → group_of doc_id (("doc", archive_set.evidence) ∷ [])
          ≡ items_of doc_id archive_set.evidence)
group_evidence_by_document_lem_example = group_evidence_by_document_lem archive_set groups_ok
