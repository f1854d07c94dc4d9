-- ===== src/Retrieval/Fusion/Sound.antt =====
-- The two entry points of fusion.py.
use mama_gift.Base.{
  >>=-eq-ok, All, Bool-cases, List, Option, String, [], arith, beq_of_ne, false, inl, inr, list_eq,
  nat_eq, none, ok, ok-injective, option_beq_iff, option_eq, refl, some, string_eq, subst, true,
  ◌↔◌, ◌∙◌, ◌∷◌, ◌≡◌, ◌≢◌, ◌⊎◌,
}
use mama_gift.Retrieval.ArchiveScope.{
  IsArchive, validate_archive_scope, validate_archive_scope-IsArchive,
}
use mama_gift.Retrieval.Chunk.{ScoredChunk}
use mama_gift.Retrieval.Fusion.{
  ScoreOps, add_lists, add_results, all_empty, archive_reciprocal_rank_fusion, fuse_by_rank,
  fuse_in_archive, fuse_in_scope, ranked, reciprocal_rank_fusion, sort_entries,
  validate_fusion_scope, validate_result_lists,
}
use mama_gift.Retrieval.Fusion.Laws.{
  FusedList, GoodList, OfChunk, fuse_by_rank-FusedList, lists_in_scope, validate_result_lists_lem,
}
use mama_gift.Retrieval.Provenance.{InRequest}
use mama_gift.Retrieval.Scope.{EvidenceScope}

-- The scope of one document, version and parse run.
pub record IsPinned (scope : EvidenceScope) : Type 0 where
  pub single : scope.archive_scope ≡ false
  pub has_document : scope.document_id ≢ none
  pub has_version : scope.document_version ≢ none
  pub has_run : scope.parse_run_id ≢ none

pub validate_fusion_scope-IsPinned :
    (scope : EvidenceScope) → (validate_fusion_scope scope ≡ ok tt) ↔ IsPinned scope
unfolding validate_fusion_scope
validate_fusion_scope-IsPinned scope = (
  λ h. record {
    single = ground arith;
    has_document = λ e. ground (arith, option_beq_iff scope.document_id none);
    has_version = λ e. ground (arith, option_beq_iff scope.document_version none);
    has_run = λ e. ground (arith, option_beq_iff scope.parse_run_id none);
  },
  λ p.
      rw
        (
          p.single,
          beq_of_ne scope.document_id none p.has_document,
          beq_of_ne scope.document_version none p.has_version,
          beq_of_ne scope.parse_run_id none p.has_run,
        )
        refl,
)

module _ {Score : Type 0} where
  add_lists-nil :
      (ops : ScoreOps Score) (lists : List (List (ScoredChunk Score)))
      → all_empty lists ≡ true
      → add_lists ops lists [] ≡ []
  unfolding all_empty add_lists add_results
  add_lists-nil ops [] h = refl
  add_lists-nil ops ([] ∷ lists) h = add_lists-nil ops lists h
  add_lists-nil ops ((r ∷ rs) ∷ lists) h = absurd (ground arith)

  fuse_by_rank-nil :
      (ops : ScoreOps Score) (lists : List (List (ScoredChunk Score)))
      → all_empty lists ≡ true
      → fuse_by_rank ops lists ≡ []
  unfolding fuse_by_rank sort_entries ranked
  fuse_by_rank-nil ops lists h = rw (add_lists-nil ops lists h) refl

  all_empty-GoodList :
      (scope : EvidenceScope) (allowed : Option (List String))
      (lists : List (List (ScoredChunk Score)))
      → all_empty lists ≡ true
      → All (GoodList scope allowed) lists
  unfolding all_empty
  all_empty-GoodList scope allowed [] h = tt
  all_empty-GoodList scope allowed ([] ∷ lists) h = (
    record { own_ranks = tt; own_ids = refl; allowed_documents = tt; own_scope = tt },
    all_empty-GoodList scope allowed lists h,
  )
  all_empty-GoodList scope allowed ((r ∷ rs) ∷ lists) h = absurd (ground arith)

  -- The result of a fusion of good lists, in the request's scope.
  pub record FusedSound (ops : ScoreOps Score) (scope : EvidenceScope)
      (allowed : Option (List String)) (lists : List (List (ScoredChunk Score)))
      (out : List (ScoredChunk Score)) : Type 1 where
    pub good : All (GoodList scope allowed) lists
    pub fused_list : FusedList ops lists out
    pub in_request : All (OfChunk (InRequest scope)) out

  FusedSound-of :
      (ops : ScoreOps Score) (scope : EvidenceScope) (allowed : Option (List String))
      (lists : List (List (ScoredChunk Score))) {out : List (ScoredChunk Score)}
      → All (GoodList scope allowed) lists
      → fuse_by_rank ops lists ≡ out
      → FusedSound ops scope allowed lists out
  FusedSound-of ops scope allowed lists g e =
      let f = fuse_by_rank-FusedList ops lists in
      subst (FusedSound ops scope allowed lists) e (record {
        good = g;
        fused_list = f;
        in_request = f.origin (InRequest scope) (lists_in_scope scope allowed lists g);
      })

  -- A successful fusion was given lists of unique chunks of the request under dense ranks, and, unless
  -- they are all empty, a scope that is no wildcard and pins the document, version and parse run.
  -- Its result holds each chunk of the lists once and no other, ranked densely and by falling score,
  -- and every chunk is of the request.
  pub reciprocal_rank_fusion_sound :
      (ops : ScoreOps Score) (lists : List (List (ScoredChunk Score))) (scope : EvidenceScope)
      {out : List (ScoredChunk Score)}
      → reciprocal_rank_fusion ops lists (some scope) ≡ ok out
      → ((all_empty lists ≡ true) ⊎ IsPinned scope) × FusedSound ops scope none lists out
  unfolding reciprocal_rank_fusion fuse_in_scope
  reciprocal_rank_fusion_sound ops lists scope {out} h = elim (Bool-cases (all_empty lists)) [
    | inl e ↦
        let nothing : ok [] ≡ ok out = rw e at h in
        (
          inl e,
          FusedSound-of ops scope none lists (all_empty-GoodList scope none lists e)
              (fuse_by_rank-nil ops lists e ∙ ok-injective nothing),
        )
    | inr e ↦
        let run = rw e at h in
        let (u, g, h1) = >>=-eq-ok (validate_fusion_scope scope) _ run in
        let (v, good, h2) = >>=-eq-ok (validate_result_lists scope none lists) _ h1 in
        (
          inr ((validate_fusion_scope-IsPinned scope).0 g),
          FusedSound-of ops scope none lists (validate_result_lists_lem scope none lists good)
              (ok-injective h2),
        )
  ]

  -- A successful fusion over the archive was given lists of unique chunks of allowed documents of the
  -- request under dense ranks, and, unless they are all empty, an archive scope. Its result holds each
  -- chunk of the lists once and no other, ranked densely and by falling score, and every chunk is of
  -- the request.
  pub archive_reciprocal_rank_fusion_sound :
      (ops : ScoreOps Score) (lists : List (List (ScoredChunk Score))) (scope : EvidenceScope)
      (allowed : Option (List String)) {out : List (ScoredChunk Score)}
      → archive_reciprocal_rank_fusion ops lists (some scope) allowed ≡ ok out
      → ((all_empty lists ≡ true) ⊎ IsArchive scope) × FusedSound ops scope allowed lists out
  unfolding archive_reciprocal_rank_fusion fuse_in_archive
  archive_reciprocal_rank_fusion_sound ops lists scope allowed {out} h =
      elim (Bool-cases (all_empty lists)) [
        | inl e ↦
            let nothing : ok [] ≡ ok out = rw e at h in
            (
              inl e,
              FusedSound-of ops scope allowed lists (all_empty-GoodList scope allowed lists e)
                  (fuse_by_rank-nil ops lists e ∙ ok-injective nothing),
            )
        | inr e ↦
            let run = rw e at h in
            let (u, g, h1) = >>=-eq-ok (validate_archive_scope scope) _ run in
            let (v, good, h2) = >>=-eq-ok (validate_result_lists scope allowed lists) _ h1 in
            (
              inr ((validate_archive_scope-IsArchive scope).0 g),
              FusedSound-of ops scope allowed lists
                  (validate_result_lists_lem scope allowed lists good) (ok-injective h2),
            )
      ]
