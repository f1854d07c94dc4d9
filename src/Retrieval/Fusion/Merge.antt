-- ===== src/Retrieval/Fusion/Merge.antt =====
-- The entries that the results of the lists add up to: each chunk once.
use mama_gift.Base.{
  All, Bool-cases, List, String, [], arith, beq_sym, contains, contains-append, distinct, eq_iff,
  inl, inr, list_eq, map, nat_eq, option_eq, refl, string_eq, true, ◌++◌, ◌==◌, ◌||◌, ◌∷◌, ◌≡◌,
}
use mama_gift.Retrieval.Chunk.{Chunk, ScoredChunk}
use mama_gift.Retrieval.Expansion.{result_ids}
use mama_gift.Retrieval.Fusion.{FusedEntry, ScoreOps, add_lists, add_result, add_results}

complete_step :
    (id r : String) (rs ids es : List String)
    → contains id es ≡ contains id (rs ++ (r ∷ ids))
    → contains id es ≡ contains id ((r ∷ rs) ++ ids)
complete_step id r rs ids es h =
    ground (arith, contains-append id rs (r ∷ ids), contains-append id rs ids)

module _ {Score : Type 0} where
  abbrev pub entry_ids : List (FusedEntry Score) → List String
  entry_ids = map (λ e. e.chunk.chunk_id)

  -- the chunk of an entry has a property
  abbrev pub Known : (Chunk → Type 0) → FusedEntry Score → Type 0
  Known P e = P e.chunk

  contains-add_result :
      (id : String) (ops : ScoreOps Score) (r : ScoredChunk Score) (es : List (FusedEntry Score))
      → contains id (entry_ids (add_result ops r es))
        ≡ (contains id (entry_ids es) || id == r.chunk.chunk_id)
  unfolding add_result
  contains-add_result id ops r [] = ground arith
  contains-add_result id ops r (e ∷ es) = ground (
    arith,
    eq_iff r.chunk.chunk_id e.chunk.chunk_id,
    contains-add_result id ops r es,
    eq_iff id e.chunk.chunk_id,
    eq_iff id r.chunk.chunk_id,
  )

  distinct-add_result :
      (ops : ScoreOps Score) (r : ScoredChunk Score) (es : List (FusedEntry Score))
      → distinct (entry_ids es) ≡ true
      → distinct (entry_ids (add_result ops r es)) ≡ true
  unfolding add_result
  distinct-add_result ops r [] d = refl
  distinct-add_result ops r (e ∷ es) d = ground (
    arith,
    beq_sym r.chunk.chunk_id e.chunk.chunk_id,
    contains-add_result e.chunk.chunk_id ops r es,
    distinct-add_result ops r es,
  )

  add_result-Known :
      (ops : ScoreOps Score) (P : Chunk → Type 0) (r : ScoredChunk Score)
      (es : List (FusedEntry Score))
      → P r.chunk
      → All (Known P) es
      → All (Known P) (add_result ops r es)
  unfolding add_result
  add_result-Known ops P r [] i a = (i, tt)
  add_result-Known ops P r (e ∷ es) i a = elim (Bool-cases (r.chunk.chunk_id == e.chunk.chunk_id)) [
    | inl y ↦ rw y (a.0, a.1)
    | inr n ↦ rw n (a.0, add_result-Known ops P r es i a.1)
  ]

  -- What the entries hold after the lists were added to none.
  pub record Merged (P : Chunk → Type 0) (ids : List String) (es : List (FusedEntry Score))
      : Type 0 where
    pub unique : distinct (entry_ids es) ≡ true
    pub origin : All (Known P) es
    pub complete : (id : String) → contains id (entry_ids es) ≡ contains id ids

  add_results-Merged :
      (ops : ScoreOps Score) (P : Chunk → Type 0) (ids : List String)
      (rs : List (ScoredChunk Score)) (es : List (FusedEntry Score))
      → All (λ r. P r.chunk) rs
      → Merged P ids es
      → Merged P (result_ids rs ++ ids) (add_results ops rs es)
  unfolding add_results
  add_results-Merged ops P ids [] es i m = m
  add_results-Merged ops P ids (r ∷ rs) es i m =
      let n =
        add_results-Merged ops P (r.chunk.chunk_id ∷ ids) rs (add_result ops r es) i.1 (record {
          unique = distinct-add_result ops r es m.unique;
          origin = add_result-Known ops P r es i.0 m.origin;
          complete = λ id. ground (arith, contains-add_result id ops r es, m.complete id);
        }) in
      record {
        unique = n.unique;
        origin = n.origin;
        complete = λ id. complete_step id r.chunk.chunk_id (result_ids rs) ids _ (n.complete id);
      }

  -- the identifiers of all lists, the last list first
  abbrev pub all_ids : List (List (ScoredChunk Score)) → List String → List String
  all_ids [] ids = ids
  all_ids (rs ∷ lists) ids = all_ids lists (result_ids rs ++ ids)

  pub add_lists-Merged :
      (ops : ScoreOps Score) (P : Chunk → Type 0) (ids : List String)
      (lists : List (List (ScoredChunk Score))) (es : List (FusedEntry Score))
      → All (All (λ r. P r.chunk)) lists
      → Merged P ids es
      → Merged P (all_ids lists ids) (add_lists ops lists es)
  unfolding add_lists
  add_lists-Merged ops P ids [] es i m = m
  add_lists-Merged ops P ids (rs ∷ lists) es i m =
      add_lists-Merged ops P (result_ids rs ++ ids) lists (add_results ops rs es) i.1
        (add_results-Merged ops P ids rs es i.0 m)
