-- ===== src/Retrieval/Chunking/Builder/Sound.antt =====
-- The chunks that the builder returns.
use mama_gift.Base.{
  >>=-eq-ok, All, Bool-cases, Fresh, In, List, Option, Text, ap, contains, distinct, false, inl,
  inr, list_eq, map, nat_eq, ok, ok-injective, option_eq, string_eq, subst, true, ℕ, ◌++◌, ◌∙◌, ◌≡◌,
}
use mama_gift.Docpipe.Canonical.{CanonicalBlock, CanonicalDocument, CanonicalPage}
use mama_gift.Retrieval.Chunk.{Chunk}
use mama_gift.Retrieval.Chunk.Tree.{validate_chunk_tree}
use mama_gift.Retrieval.Chunk.Tree.Laws.{ParentOk, Rooted}
use mama_gift.Retrieval.Chunk.Tree.Sound.{validate_chunk_tree_sound}
use mama_gift.Retrieval.Chunking.{has_text}
use mama_gift.Retrieval.Chunking.Builder.{all_chunks, build_chunks, claimed_block_ids, claimed_ids}
use mama_gift.Retrieval.Chunking.Builder.Coverage.{
  build_fallback_chunks-Fresh, build_fallback_chunks-covers, claimed_ids-append, in_append,
}
use mama_gift.Retrieval.Chunking.Builder.Origin.{BuiltFor, all_chunks-BuiltFor}
use mama_gift.Retrieval.Chunking.Fallback.{build_fallback_chunks, is_skipped}
use mama_gift.Retrieval.Chunking.Legal.{build_legal_chunks}
use mama_gift.Retrieval.Chunking.Plan.Chunks.{build_plan_chunks}

build_chunks-all :
    (date : Text → Option Text) (document : CanonicalDocument) (version : Option ℕ)
    {chunks : List Chunk}
    → build_chunks date document version ≡ ok chunks
    → (validate_chunk_tree chunks ≡ ok tt) × (all_chunks date document version ≡ chunks)
unfolding build_chunks
build_chunks-all date document version h =
    let (u, v, e) = >>=-eq-ok (validate_chunk_tree (all_chunks date document version)) _ h in
    (subst (λ cs. validate_chunk_tree cs ≡ ok tt) (ok-injective e) v, ok-injective e)

all_chunks-covers :
    (date : Text → Option Text) (document : CanonicalDocument) (version : Option ℕ)
    (page : CanonicalPage) (block : CanonicalBlock)
    → In page document.pages
    → In block page.blocks
    → has_text block.text ≡ true
    → is_skipped block.type ≡ false
    → contains block.id (claimed_ids (all_chunks date document version)) ≡ true
unfolding all_chunks claimed_block_ids
all_chunks-covers date document version page block i j t s =
    let legal = build_legal_chunks document version in
    let plan = build_plan_chunks date document version in
    let claimed = claimed_block_ids date document version in
    in_append block.id (legal ++ plan) (build_fallback_chunks document claimed version)
      (elim (Bool-cases (contains block.id claimed)) [
        | inl c ↦ inl (ap (contains block.id) (claimed_ids-append legal plan) ∙ c)
        | inr c ↦ inr (build_fallback_chunks-covers document claimed version page block i j t s c)
      ])

-- Chunks that the builder returns all carry the document, its parse run and the version asked for;
-- their identifiers are distinct, every parent is another of the chunks, the way up from each ends at
-- one without a parent; and no block is the source both of a fallback chunk and of one of the legal
-- or the plan chunks.
pub build_chunks_sound :
    (date : Text → Option Text) (document : CanonicalDocument) (version : Option ℕ)
    (chunks : List Chunk)
    → build_chunks date document version ≡ ok chunks
    → All (BuiltFor document version) chunks
      × (distinct (map (λ c. c.chunk_id) chunks) ≡ true)
      × All (ParentOk chunks) chunks
      × All (Rooted chunks) chunks
      × Fresh (claimed_block_ids date document version) (
          claimed_ids
            (build_fallback_chunks document (claimed_block_ids date document version) version))
build_chunks_sound date document version chunks h =
    let (valid, same) = build_chunks-all date document version h in
    let (d, p, r) = validate_chunk_tree_sound chunks valid in
    let built =
      subst (λ cs. All (BuiltFor document version) cs) same
        (all_chunks-BuiltFor document version date) in
    let apart =
      build_fallback_chunks-Fresh document (claimed_block_ids date document version) version in
    (built, d, p, r, apart)

-- Every block of the document with text that is no header, footer, page number or
-- stamp is the source of one of the chunks that the builder returns.
pub build_chunks_covers :
    (date : Text → Option Text) (document : CanonicalDocument) (version : Option ℕ)
    (chunks : List Chunk) (page : CanonicalPage) (block : CanonicalBlock)
    → build_chunks date document version ≡ ok chunks
    → In page document.pages
    → In block page.blocks
    → has_text block.text ≡ true
    → is_skipped block.type ≡ false
    → contains block.id (claimed_ids chunks) ≡ true
build_chunks_covers date document version chunks page block h i j t s =
    let (valid, same) = build_chunks-all date document version h in
    subst (λ cs. contains block.id (claimed_ids cs) ≡ true) same
      (all_chunks-covers date document version page block i j t s)
