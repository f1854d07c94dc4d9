-- ===== src/Retrieval/Fusion/Laws.antt =====
-- What the fusion of the lists of several retrievers accepts and returns.
use mama_gift.Base.{
  >>=-eq-ok, All, All-map, Fresh, Fresh-cons, List, Option, String, [], ap, arith, contains,
  distinct, false, guard, guard-eq-ok, list_eq, nat_eq, not, ok, option_eq, refl, string_eq, subst,
  sym, true, ℕ, ◌+◌, ◌==◌, ◌∙◌, ◌∷◌, ◌≡◌,
}
use mama_gift.Retrieval.ArchiveEvidence.{is_allowed_document}
use mama_gift.Retrieval.Chunk.{Chunk, ScoredChunk}
use mama_gift.Retrieval.Expansion.{result_ids}
use mama_gift.Retrieval.Fusion.{
  FusedEntry, ScoreOps, add_lists, fuse_by_rank, ranked, sort_entries, validate_result,
  validate_result_list, validate_result_lists,
}
use mama_gift.Retrieval.Fusion.Merge.{Known, Merged, add_lists-Merged, all_ids, entry_ids}
use mama_gift.Retrieval.Fusion.Sort.{Asymmetric, Ordered, sort_entries-Merged, sort_entries-Ordered}
use mama_gift.Retrieval.Provenance.{InRequest, chunk_scope-InScope}
use mama_gift.Retrieval.Scope.{EvidenceScope}

abbrev AnyChunk : Chunk → Type 0
AnyChunk c = Unit

module _ {Score : Type 0} where
  abbrev pub OfChunk : (Chunk → Type 0) → ScoredChunk Score → Type 0
  OfChunk P r = P r.chunk

  -- the results are ranked from `n` on without a gap
  abbrev pub Ranks : ℕ → List (ScoredChunk Score) → Type 0
  Ranks n [] = Unit
  Ranks n (r ∷ rs) = (r.rank ≡ n) × Ranks (n + 1) rs

  -- no result has a greater score than the one in front of it
  abbrev pub Descending : ScoreOps Score → List (ScoredChunk Score) → Type 0
  Descending ops [] = Unit
  Descending ops (r ∷ []) = Unit
  Descending ops (r ∷ s ∷ rs) = (ops.greater s.score r.score ≡ false) × Descending ops (s ∷ rs)

  -- The fused list of the lists: each chunk of them once, every property of their chunks kept, ranked
  -- densely and by falling score.
  pub record FusedList (ops : ScoreOps Score) (lists : List (List (ScoredChunk Score)))
      (out : List (ScoredChunk Score)) : Type 1 where
    pub unique : distinct (result_ids out) ≡ true
    pub complete : (id : String) → contains id (result_ids out) ≡ contains id (all_ids lists [])
    pub origin : (P : Chunk → Type 0) → All (All (OfChunk P)) lists → All (OfChunk P) out
    pub dense_ranks : Ranks 1 out
    pub descending : Asymmetric ops → Descending ops out

  ranked-ids : (n : ℕ) (es : List (FusedEntry Score)) → result_ids (ranked n es) ≡ entry_ids es
  unfolding ranked
  ranked-ids n [] = refl
  ranked-ids n (e ∷ es) = ap (λ t. e.chunk.chunk_id ∷ t) (ranked-ids (n + 1) es)

  ranked-All :
      (P : Chunk → Type 0) (n : ℕ) (es : List (FusedEntry Score))
      → All (Known P) es
      → All (OfChunk P) (ranked n es)
  unfolding ranked
  ranked-All P n [] a = tt
  ranked-All P n (e ∷ es) a = (a.0, ranked-All P (n + 1) es a.1)

  ranked-Ranks : (n : ℕ) (es : List (FusedEntry Score)) → Ranks n (ranked n es)
  unfolding ranked
  ranked-Ranks n [] = tt
  ranked-Ranks n (e ∷ es) = (refl, ranked-Ranks (n + 1) es)

  ranked-Descending :
      (ops : ScoreOps Score) (n : ℕ) (es : List (FusedEntry Score))
      → Ordered ops es
      → Descending ops (ranked n es)
  unfolding ranked
  ranked-Descending ops n [] o = tt
  ranked-Descending ops n (e ∷ []) o = tt
  ranked-Descending ops n (e ∷ f ∷ es) o = (o.0, ranked-Descending ops (n + 1) (f ∷ es) o.1)

  any_result : (rs : List (ScoredChunk Score)) → All (OfChunk AnyChunk) rs
  any_result [] = tt
  any_result (r ∷ rs) = (tt, any_result rs)

  any_list : (lists : List (List (ScoredChunk Score))) → All (All (OfChunk AnyChunk)) lists
  any_list [] = tt
  any_list (rs ∷ lists) = (any_result rs, any_list lists)

  merged :
      (ops : ScoreOps Score) (P : Chunk → Type 0) (lists : List (List (ScoredChunk Score)))
      → All (All (OfChunk P)) lists
      → Merged P (all_ids lists []) (sort_entries ops (add_lists ops lists []))
  merged ops P lists a = sort_entries-Merged ops P _ _ (
      add_lists-Merged ops P [] lists [] a
        (record { unique = refl; origin = tt; complete = λ id. refl }))

  pub fuse_by_rank-FusedList :
      (ops : ScoreOps Score) (lists : List (List (ScoredChunk Score)))
      → FusedList ops lists (fuse_by_rank ops lists)
  unfolding fuse_by_rank
  fuse_by_rank-FusedList ops lists =
      let es = sort_entries ops (add_lists ops lists []) in
      let m = merged ops AnyChunk lists (any_list lists) in
      record {
        unique = subst (λ t. distinct t ≡ true) (sym (ranked-ids 1 es)) m.unique;
        complete = λ id. ap (contains id) (ranked-ids 1 es) ∙ m.complete id;
        origin = λ P a. ranked-All P 1 es (merged ops P lists a).origin;
        dense_ranks = ranked-Ranks 1 es;
        descending = λ asym.
            ranked-Descending ops 1 es (sort_entries-Ordered ops (add_lists ops lists []) asym);
      }

  -- What the check asks of one list, from an expected rank on.
  pub record GoodList (scope : EvidenceScope) (allowed : Option (List String))
      (rs : List (ScoredChunk Score)) : Type 0 where
    pub own_ranks : Ranks 1 rs
    pub own_ids : distinct (result_ids rs) ≡ true
    pub allowed_documents : All (λ r. is_allowed_document allowed r.chunk.document_id ≡ true) rs
    pub own_scope : All (OfChunk (InRequest scope)) rs

  validate_result_list_lem :
      (scope : EvidenceScope) (allowed : Option (List String)) (n : ℕ) (seen : List String)
      (rs : List (ScoredChunk Score))
      → validate_result_list scope allowed n seen rs ≡ ok tt
      → Ranks n rs
        × Fresh seen (result_ids rs)
        × (distinct (result_ids rs) ≡ true)
        × All (λ r. is_allowed_document allowed r.chunk.document_id ≡ true) rs
        × All (OfChunk (InRequest scope)) rs
  unfolding validate_result_list validate_result
  validate_result_list_lem scope allowed n seen [] h = (tt, tt, refl, tt, tt)
  validate_result_list_lem scope allowed n seen (r ∷ rs) h =
      let (u, g, h') = >>=-eq-ok (validate_result scope allowed n seen r) _ h in
      let (u1, g1, k1) = >>=-eq-ok (guard (r.rank == n) _) _ g in
      let (u2, g2, k2) = >>=-eq-ok (guard (not (contains r.chunk.chunk_id seen)) _) _ k1 in
      let (u3, g3, k3) =
        >>=-eq-ok (guard (is_allowed_document allowed r.chunk.document_id) _) _ k2 in
      let (ranks, fresh, unique, alloweds, scoped) =
        validate_result_list_lem scope allowed (n + 1) (r.chunk.chunk_id ∷ seen) rs h' in
      let (older, new) = (Fresh-cons r.chunk.chunk_id seen (result_ids rs)).0 fresh in
      let unseen : contains r.chunk.chunk_id seen ≡ false = ground (arith, guard-eq-ok _ _ g2) in
      (
        ((nat_eq.beq_iff _ _).0 (guard-eq-ok _ _ g1), ranks),
        (unseen, older),
        rw (new, unique),
        (guard-eq-ok _ _ g3, alloweds),
        (chunk_scope-InScope scope r.chunk (guard-eq-ok _ _ k3), scoped),
      )

  pub validate_result_lists_lem :
      (scope : EvidenceScope) (allowed : Option (List String))
      (lists : List (List (ScoredChunk Score)))
      → validate_result_lists scope allowed lists ≡ ok tt
      → All (GoodList scope allowed) lists
  unfolding validate_result_lists
  validate_result_lists_lem scope allowed [] h = tt
  validate_result_lists_lem scope allowed (rs ∷ lists) h =
      let (u, g, h') = >>=-eq-ok (validate_result_list scope allowed 1 [] rs) _ h in
      let (ranks, fresh, unique, alloweds, scoped) =
        validate_result_list_lem scope allowed 1 [] rs g in
      (
        record {
          own_ranks = ranks;
          own_ids = unique;
          allowed_documents = alloweds;
          own_scope = scoped;
        },
        validate_result_lists_lem scope allowed lists h',
      )

  pub lists_in_scope :
      (scope : EvidenceScope) (allowed : Option (List String))
      (lists : List (List (ScoredChunk Score)))
      → All (GoodList scope allowed) lists
      → All (All (OfChunk (InRequest scope))) lists
  lists_in_scope scope allowed lists =
      All-map (GoodList scope allowed) (All (OfChunk (InRequest scope))) lists (λ rs g. g.own_scope)
