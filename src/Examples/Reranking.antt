-- ===== src/Examples/Reranking.antt =====
-- Instances of rerank/protocol.py.
use mama_gift.Base.{
  All, List, [], distinct, list_eq, map, nat_eq, ok, option_eq, refl, some, string_eq, true, ℕ, ◌∷◌,
  ◌≡◌,
}
use mama_gift.Examples.Fusing.{chunk_a, chunk_b, ranked_first}
use mama_gift.Retrieval.ArchiveEvidence.{is_allowed_document, is_blank}
use mama_gift.Retrieval.Chunk.{ScoredChunk}
use mama_gift.Retrieval.Rerank.{validate_archive_rerank_candidates}
use mama_gift.Retrieval.Rerank.Archive.{
  AllConsistent, Complete, validate_archive_rerank_candidates_sound,
}

abbrev pair : List (ScoredChunk ℕ)
pair = ranked_first chunk_a ∷ ranked_first chunk_b ∷ []

pair_passes : validate_archive_rerank_candidates pair (some ("doc" ∷ [])) ≡ ok tt
unfolding validate_archive_rerank_candidates is_blank is_allowed_document
pair_passes = refl

validate_archive_rerank_candidates_sound_example :
    (distinct (map (λ c. c.chunk.chunk_id) pair) ≡ true)
    × All (Complete (some ("doc" ∷ []))) (map (λ c. c.chunk) pair)
    × AllConsistent (map (λ c. c.chunk) pair)
validate_archive_rerank_candidates_sound_example =
    validate_archive_rerank_candidates_sound pair (some ("doc" ∷ [])) pair_passes
