-- ===== src/Examples/Fusing.antt =====
-- Instances of search/fusion.py, over whole numbers as scores.
use mama_gift.Base.{
  List, [], list_eq, ltb, nat_eq, none, ok, option_eq, refl, some, string_eq, true, ℕ, ◌+◌, ◌-◌,
  ◌∷◌, ◌≡◌, ◌⊎◌,
}
use mama_gift.Examples.Samples.{one_document, sample_chunk}
use mama_gift.Retrieval.Chunk.{Chunk, Retriever, ScoredChunk}
use mama_gift.Retrieval.Fusion.{ScoreOps, all_empty, reciprocal_rank_fusion}
use mama_gift.Retrieval.Fusion.Sound.{FusedSound, IsPinned, reciprocal_rank_fusion_sound}
use mama_gift.Retrieval.Provenance.{chunk_scope}
use mama_gift.Retrieval.Scope.{scope_matches}

abbrev pub whole_scores : ScoreOps ℕ
whole_scores = record {
  zero_score = 0;
  add_rank = λ acc rank. acc + (100 - rank);
  greater = λ a b. ltb b a;
}

abbrev pub ranked_first : Chunk → ScoredChunk ℕ
ranked_first c = record { chunk = c; score = 7; rank = 1; retriever = Retriever.dense }

abbrev pub chunk_a : Chunk
chunk_a = sample_chunk "a" (some 1) (1 ∷ [])

abbrev pub chunk_b : Chunk
chunk_b = sample_chunk "b" (some 1) (2 ∷ [])

abbrev two_lists : List (List (ScoredChunk ℕ))
two_lists =
    (ranked_first chunk_a ∷ [])
    ∷ (ranked_first chunk_b ∷ record (ranked_first chunk_a) { rank = 2 } ∷ [])
    ∷ []

abbrev fused_lists : List (ScoredChunk ℕ)
fused_lists =
    record { chunk = chunk_a; score = 197; rank = 1; retriever = Retriever.fused }
    ∷ record { chunk = chunk_b; score = 99; rank = 2; retriever = Retriever.fused }
    ∷ []

two_fused : reciprocal_rank_fusion whole_scores two_lists (some one_document) ≡ ok fused_lists
unfolding reciprocal_rank_fusion scope_matches chunk_scope
two_fused = refl

reciprocal_rank_fusion_sound_example :
    ((all_empty two_lists ≡ true) ⊎ IsPinned one_document)
    × FusedSound whole_scores one_document none two_lists fused_lists
reciprocal_rank_fusion_sound_example =
    reciprocal_rank_fusion_sound whole_scores two_lists one_document two_fused
