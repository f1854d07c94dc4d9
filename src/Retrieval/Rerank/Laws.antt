-- ===== src/Retrieval/Rerank/Laws.antt =====
-- What the checks in front of a reranker accept.
use mama_gift.Base.{
  >>=-eq-ok, All, List, [], arith, distinct, eq_iff, guard, guard-eq-ok, list_eq, map, nat_eq, ok,
  option_beq_iff, option_eq, refl, string_eq, true, ◌↔◌, ◌∷◌, ◌≡◌,
}
use mama_gift.Retrieval.Chunk.{Chunk, ScoredChunk}
use mama_gift.Retrieval.Rerank.{all_of, one_provenance, same_provenance, validate_rerank_candidates}

abbrev pub Shares : Chunk → Chunk → Type 0
Shares a b =
    (a.document_id ≡ b.document_id)
    × (a.document_version ≡ b.document_version)
    × (a.parse_run_id ≡ b.parse_run_id)

-- Every chunk has the provenance of the first.
abbrev pub AllShare : List Chunk → Type 0
AllShare [] = Unit
AllShare (c ∷ cs) = All (λ d. Shares d c) cs

same_provenance_iff : (a b : Chunk) → (same_provenance a b ≡ true) ↔ Shares a b
same_provenance_iff a b = ground (
  arith,
  eq_iff a.document_id b.document_id,
  eq_iff a.parse_run_id b.parse_run_id,
  option_beq_iff a.document_version b.document_version,
)

all_of_iff :
    (first : Chunk) (cs : List Chunk) → (all_of first cs ≡ true) ↔ All (λ d. Shares d first) cs
unfolding all_of
all_of_iff first [] = (λ h. tt, λ h. refl)
all_of_iff first (c ∷ cs) =
    let s = same_provenance_iff c first in
    let ih = all_of_iff first cs in
    (λ h. (s.0 (ground arith), ih.0 (ground arith)), λ h. rw (s.1 h.0, ih.1 h.1) refl)

one_provenance_iff : (cs : List Chunk) → (one_provenance cs ≡ true) ↔ AllShare cs
unfolding one_provenance
one_provenance_iff [] = (λ h. tt, λ h. refl)
one_provenance_iff (c ∷ cs) = all_of_iff c cs

module _ {Score : Type 0} where
  -- The check passes exactly the candidates of distinct chunks that share the document, the version and
  -- the parse run of the first.
  pub validate_rerank_candidates_iff :
      (candidates : List (ScoredChunk Score))
      → (validate_rerank_candidates candidates ≡ ok tt) ↔ (
          (distinct (map (λ c. c.chunk.chunk_id) candidates) ≡ true)
          × AllShare (map (λ c. c.chunk) candidates))
  unfolding validate_rerank_candidates
  validate_rerank_candidates_iff candidates =
      let shares = one_provenance_iff (map (λ c. c.chunk) candidates) in
      (
        λ h.
            let (u, g, k) =
              >>=-eq-ok (guard (distinct (map (λ c. c.chunk.chunk_id) candidates)) _) _ h in
            (guard-eq-ok _ _ g, shares.0 (guard-eq-ok _ _ k)),
        λ h. rw (h.0, shares.1 h.1) refl,
      )
