-- ===== src/Retrieval/Evidence.antt =====
-- evidence/assembler.py: retrieved chunks, checked against the request's scope, become a bounded list
-- of evidence items. The last loop and the citation identifiers serve evidence/archive_assembler.py
-- too, which measures another text of the chunk.
pub mod Slices
pub mod Laws
use mama_gift.Base.{
  List, Result, String, Text, [], contains, decimal, drop, err, guard, length, list_eq, lookup, map,
  min, nat_eq, none, not, ok, option_eq, some, string_eq, take, ℕ, ◌++◌, ◌+◌, ◌-◌, ◌>>=◌, ◌>>◌, ◌∷◌,
}
use mama_gift.Retrieval.Budget.{BudgetBreakdown, EvidenceBudget, assemble_bounded_context, offer}
use mama_gift.Retrieval.Chunk.{Chunk, ScoredChunk}
use mama_gift.Retrieval.Errors.{RetrievalError, duplicate_chunk, missing_version, scope_violation}
use mama_gift.Retrieval.Provenance.{chunk_scope}
use mama_gift.Retrieval.Scope.{EvidenceScope, scope_matches}

pub record Evidence : Type 0 where
  pub citation_id : Text
  pub chunk_id : String
  pub document_id : String
  pub parse_run_id : String
  pub document_version : ℕ
  pub page_numbers : List ℕ
  pub source_block_ids : List String
  pub section_path : List String
  pub text : Text

pub record EvidenceSet : Type 0 where
  pub scope : EvidenceScope
  pub evidence : List Evidence
  pub budget : BudgetBreakdown
  pub query_id : String

-- f"c{index}"
unfoldable pub cite : ℕ → Text
cite index = b'c' ∷ decimal index

-- "".join(texts)
unfoldable pub join : List Text → Text
join [] = []
join (t ∷ ts) = t ++ join ts

-- bounded_text[offset:end]
unfoldable pub slice : ℕ → ℕ → Text → Text
slice start end t = take (end - start) (drop start t)

-- `bounded[category]`, a key that the assembler of budget.py always sets
unfoldable pub bounded_text : String → List (String × Text) → Text
bounded_text category bounded = elim (lookup category bounded) [ none ↦ [] | some t ↦ t ]

unfoldable pub evidence_of : ℕ → Chunk → ℕ → Text → Evidence
evidence_of index chunk version text = record {
  citation_id = cite index;
  chunk_id = chunk.chunk_id;
  document_id = chunk.document_id;
  parse_run_id = chunk.parse_run_id;
  document_version = version;
  page_numbers = chunk.source_page_numbers;
  source_block_ids = chunk.source_block_ids;
  section_path = chunk.section_path;
  text = text;
}

-- The loop that splits the bounded text back over the chunks, `text_of` the text that was offered.
unfoldable pub split_evidence : (Chunk → Text) → Text → ℕ → ℕ → List (Chunk × ℕ) → List Evidence
unfolding evidence_of slice
split_evidence text_of bounded offset index [] = []
split_evidence text_of bounded offset index ((chunk, version) ∷ rest) =
    let end = min (offset + length (text_of chunk)) (length bounded) in
    evidence_of index chunk version (slice offset end bounded)
    ∷ split_evidence text_of bounded (offset + length (text_of chunk)) (index + 1) rest

module _ {Score : Type 0} where
  -- the guards of the first loop on one candidate; the version of a chunk that has one
  unfoldable pub checked_version :
      EvidenceScope → List String → ScoredChunk Score → Result RetrievalError ℕ
  checked_version scope seen candidate = do
    guard (not (contains candidate.chunk.chunk_id seen)) (duplicate_chunk candidate.chunk.chunk_id)
    guard (scope_matches (chunk_scope scope candidate.chunk) scope)
        (scope_violation candidate.chunk.chunk_id)
    elim candidate.chunk.document_version [
      | none ↦ err (missing_version candidate.chunk.chunk_id)
      | some version ↦ ok version
    ]

  unfoldable pub validate_candidates :
      EvidenceScope
      → List String
      → List (ScoredChunk Score)
      → Result RetrievalError (List (Chunk × ℕ))
  unfolding checked_version
  validate_candidates scope seen [] = ok []
  validate_candidates scope seen (candidate ∷ rest) = do
    version ← checked_version scope seen candidate
    others ← validate_candidates scope (candidate.chunk.chunk_id ∷ seen) rest
    ok ((candidate.chunk, version) ∷ others)

  unfoldable pub assemble_evidence :
      List (ScoredChunk Score)
      → EvidenceScope
      → EvidenceBudget
      → String
      → Result RetrievalError EvidenceSet
  assemble_evidence candidates scope budget query_id = do
    validated ← validate_candidates scope [] candidates
    result ←
        assemble_bounded_context budget
          (("selected_document", offer (join (map (λ v. v.0.text) validated))) ∷ [])
    ok (record {
      scope = scope;
      evidence =
          split_evidence (λ c. c.text) (bounded_text "selected_document" result.0) 0 1 validated;
      budget = result.1;
      query_id = query_id;
    })
