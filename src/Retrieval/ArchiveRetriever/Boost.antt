-- ===== src/Retrieval/ArchiveRetriever/Boost.antt =====
-- The boost by exact identifiers orders the candidates anew and changes nothing else.
use mathlib.Core.List.{Perm}
use mathlib.Core.List.Perm
use mama_gift.Base.{
  Bool-cases, List, Text, [], ap, arith, false, inl, inr, list_eq, map, nat_eq, option_eq, refl,
  string_eq, subst, sym, true, ℕ, ◌+◌, ◌∷◌, ◌≡◌,
}
use mama_gift.Retrieval.ArchiveRetriever.{
  ArchiveProviders, boost, comes_first, insert_candidate, renumber, sort_candidates,
}
use mama_gift.Retrieval.Chunk.{Chunk, ScoredChunk, fused}
use mama_gift.Retrieval.Fusion.{ScoreOps}
use mama_gift.Retrieval.Fusion.Sort.{Asymmetric}

abbrev pub scored_chunks : {Score : Type 0} → List (ScoredChunk Score) → List (Chunk × Score)
scored_chunks cs = map (λ c. (c.chunk, c.score)) cs

-- The ranks count up by one from `n`, and every candidate is marked as fused.
abbrev pub RanksFrom : {Score : Type 0} → ℕ → List (ScoredChunk Score) → Type 0
RanksFrom n [] = Unit
RanksFrom n (c ∷ cs) = (c.rank ≡ n) × ((c.retriever ≡ fused) × RanksFrom (n + 1) cs)

-- No candidate has a greater score than the one in front of it.
abbrev pub Falling :
    {Score : Type 0} → ScoreOps Score → (Chunk → Score) → List (ScoredChunk Score) → Type 0
Falling ops score [] = Unit
Falling ops score (a ∷ []) = Unit
Falling ops score (a ∷ b ∷ rest) =
    (ops.greater (score b.chunk) (score a.chunk) ≡ false) × Falling ops score (b ∷ rest)

module _ {Score : Type 0} where
  insert_candidate-Perm :
      (ops : ScoreOps Score) (score : Chunk → Score) (a : ScoredChunk Score)
      (cs : List (ScoredChunk Score))
      → Perm (insert_candidate ops score a cs) (a ∷ cs)
  unfolding insert_candidate
  insert_candidate-Perm ops score a [] = Perm.refl (a ∷ [])
  insert_candidate-Perm ops score a (b ∷ bs) = elim (Bool-cases (comes_first ops score b a)) [
    | inl e ↦
        rw e (Perm.trans (Perm.cons b (insert_candidate-Perm ops score a bs)) (Perm.swap a b bs))
    | inr e ↦ rw e (Perm.refl (a ∷ b ∷ bs))
  ]

  sort_candidates-Perm :
      (ops : ScoreOps Score) (score : Chunk → Score) (cs : List (ScoredChunk Score))
      → Perm (sort_candidates ops score cs) cs
  unfolding sort_candidates
  sort_candidates-Perm ops score [] = Perm.refl []
  sort_candidates-Perm ops score (c ∷ cs) =
      Perm.trans (insert_candidate-Perm ops score c (sort_candidates ops score cs))
        (Perm.cons c (sort_candidates-Perm ops score cs))

  renumber-chunks :
      (n : ℕ) (cs : List (ScoredChunk Score)) → scored_chunks (renumber n cs) ≡ scored_chunks cs
  unfolding renumber
  renumber-chunks n [] = refl
  renumber-chunks n (c ∷ cs) = ap (λ t. (c.chunk, c.score) ∷ t) (renumber-chunks (n + 1) cs)

  renumber-RanksFrom : (n : ℕ) (cs : List (ScoredChunk Score)) → RanksFrom n (renumber n cs)
  unfolding renumber
  renumber-RanksFrom n [] = tt
  renumber-RanksFrom n (c ∷ cs) = (refl, (refl, renumber-RanksFrom (n + 1) cs))

  renumber-Falling :
      (ops : ScoreOps Score) (score : Chunk → Score) (n : ℕ) (cs : List (ScoredChunk Score))
      → Falling ops score cs
      → Falling ops score (renumber n cs)
  unfolding renumber
  renumber-Falling ops score n [] f = tt
  renumber-Falling ops score n (a ∷ []) f = tt
  renumber-Falling ops score n (a ∷ b ∷ rest) f =
      (f.0, renumber-Falling ops score (n + 1) (b ∷ rest) f.1)

  insert_nil :
      (ops : ScoreOps Score) (score : Chunk → Score) (a : ScoredChunk Score)
      → insert_candidate ops score a [] ≡ a ∷ []
  unfolding insert_candidate
  insert_nil ops score a = refl

  insert_here :
      (ops : ScoreOps Score) (score : Chunk → Score) (a b : ScoredChunk Score)
      (bs : List (ScoredChunk Score))
      → comes_first ops score b a ≡ false
      → insert_candidate ops score a (b ∷ bs) ≡ a ∷ b ∷ bs
  unfolding insert_candidate
  insert_here ops score a b bs e = rw e refl

  insert_later :
      (ops : ScoreOps Score) (score : Chunk → Score) (a b : ScoredChunk Score)
      (bs : List (ScoredChunk Score))
      → comes_first ops score b a ≡ true
      → insert_candidate ops score a (b ∷ bs) ≡ b ∷ insert_candidate ops score a bs
  unfolding insert_candidate
  insert_later ops score a b bs e = rw e refl

  not_first :
      (ops : ScoreOps Score) (score : Chunk → Score) (a b : ScoredChunk Score)
      → comes_first ops score b a ≡ false
      → ops.greater (score b.chunk) (score a.chunk) ≡ false
  unfolding comes_first
  not_first ops score a b e = ground arith

  first :
      (ops : ScoreOps Score) (score : Chunk → Score) (a b : ScoredChunk Score)
      → Asymmetric ops
      → comes_first ops score b a ≡ true
      → ops.greater (score a.chunk) (score b.chunk) ≡ false
  unfolding comes_first
  first ops score a b asym e = ground (arith, asym (score b.chunk) (score a.chunk))

  insert_candidate-Falling :
      (ops : ScoreOps Score) (score : Chunk → Score) (a : ScoredChunk Score)
      (cs : List (ScoredChunk Score))
      → Asymmetric ops
      → Falling ops score cs
      → Falling ops score (insert_candidate ops score a cs)
  insert_candidate-Falling ops score a [] asym f = rw (insert_nil ops score a) tt
  insert_candidate-Falling ops score a (b ∷ []) asym f =
      elim (Bool-cases (comes_first ops score b a)) [
        | inl e ↦
            rw (insert_later ops score a b [] e, insert_nil ops score a)
              (first ops score a b asym e, tt)
        | inr e ↦ rw (insert_here ops score a b [] e) (not_first ops score a b e, tt)
      ]
  insert_candidate-Falling ops score a (b ∷ c ∷ cs) asym f =
      let ih = insert_candidate-Falling ops score a (c ∷ cs) asym f.1 in
      elim (Bool-cases (comes_first ops score b a)) [
        | inr e ↦ rw (insert_here ops score a b (c ∷ cs) e) (not_first ops score a b e, f)
        | inl e ↦ elim (Bool-cases (comes_first ops score c a)) [
          | inl k ↦
              rw (insert_later ops score a b (c ∷ cs) e, insert_later ops score a c cs k)
                (f.0, subst (Falling ops score) (insert_later ops score a c cs k) ih)
          | inr k ↦
              rw (insert_later ops score a b (c ∷ cs) e, insert_here ops score a c cs k)
                (first ops score a b asym e, (not_first ops score a c k, f.1))
        ]
      ]

  sort_candidates-Falling :
      (ops : ScoreOps Score) (score : Chunk → Score) (cs : List (ScoredChunk Score))
      → Asymmetric ops
      → Falling ops score (sort_candidates ops score cs)
  unfolding sort_candidates
  sort_candidates-Falling ops score [] asym = tt
  sort_candidates-Falling ops score (c ∷ cs) asym =
      insert_candidate-Falling ops score c (sort_candidates ops score cs) asym
        (sort_candidates-Falling ops score cs asym)

  -- For a question with identifiers, the boost returns the same chunks with their scores in another
  -- order, by falling match with the identifiers, under the ranks 1, 2, … and as fused candidates.
  pub boost_lem :
      (ops : ScoreOps Score) (providers : ArchiveProviders Score) (query : Text)
      (candidates : List (ScoredChunk Score))
      → Asymmetric ops
      → providers.has_identifiers query ≡ true
      → Perm (scored_chunks (boost ops providers query candidates)) (scored_chunks candidates)
        × RanksFrom 1 (boost ops providers query candidates)
        × Falling ops (providers.match_score query) (boost ops providers query candidates)
  unfolding boost
  boost_lem ops providers query candidates asym h =
      let score = providers.match_score query in
      let sorted = sort_candidates ops score candidates in
      rw h (
        subst (λ cs. Perm cs (scored_chunks candidates)) (sym (renumber-chunks 1 sorted))
            (Perm.map (λ c. (c.chunk, c.score)) (sort_candidates-Perm ops score candidates)),
        renumber-RanksFrom 1 sorted,
        renumber-Falling ops score 1 sorted (sort_candidates-Falling ops score candidates asym),
      )
