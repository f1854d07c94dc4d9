-- ===== src/Retrieval/Chunking/Builder/Coverage.antt =====
-- Which blocks the chunks of a document have as their sources.
use mama_gift.Base.{
  Bool-cases, Fresh, In, List, Option, String, [], ap, append-Fresh, append_assoc, arith, at_head,
  beq_refl, contains, contains-append, false, in_tail, inl, inr, leb, list_eq, nat_eq, option_eq,
  refl, string_eq, subst, sym, true, ℕ, ◌++◌, ◌||◌, ◌∙◌, ◌∷◌, ◌≡◌, ◌⊎◌,
}
use mama_gift.Docpipe.Canonical.{CanonicalBlock, CanonicalDocument, CanonicalPage}
use mama_gift.Retrieval.Chunk.{Chunk}
use mama_gift.Retrieval.Chunking.{chunk_of, has_text, insert_block, sort_blocks}
use mama_gift.Retrieval.Chunking.Builder.{claimed_ids}
use mama_gift.Retrieval.Chunking.Fallback.{
  build_fallback_chunks, fallback_blocks, fallback_chunk, fallback_pages, is_skipped,
}

pub claimed_ids-append :
    (xs ys : List Chunk) → claimed_ids (xs ++ ys) ≡ claimed_ids xs ++ claimed_ids ys
unfolding claimed_ids
claimed_ids-append [] ys = refl
claimed_ids-append (x ∷ xs) ys =
    ap (λ t. x.source_block_ids ++ t) (claimed_ids-append xs ys)
    ∙ sym (append_assoc x.source_block_ids (claimed_ids xs) (claimed_ids ys))

-- a source of one of two lists of chunks
pub in_append :
    (id : String) (xs ys : List Chunk)
    → (contains id (claimed_ids xs) ≡ true) ⊎ (contains id (claimed_ids ys) ≡ true)
    → contains id (claimed_ids (xs ++ ys)) ≡ true
in_append id xs ys h =
    ap (contains id) (claimed_ids-append xs ys)
    ∙ contains-append id (claimed_ids xs) (claimed_ids ys)
    ∙ either h
  where
    either :
        (contains id (claimed_ids xs) ≡ true) ⊎ (contains id (claimed_ids ys) ≡ true)
        → (contains id (claimed_ids xs) || contains id (claimed_ids ys)) ≡ true
    either (inl e) = ground arith
    either (inr e) = ground arith

past_head :
    (c b d : CanonicalBlock) (ds : List CanonicalBlock)
    → (In c (b ∷ ds) → In c (insert_block b ds))
    → In c (b ∷ d ∷ ds)
    → In c (d ∷ insert_block b ds)
past_head c b d ds within (at_head _) = in_tail d (within (at_head ds))
past_head c b d ds within (in_tail _ (at_head _)) = at_head (insert_block b ds)
past_head c b d ds within (in_tail _ (in_tail _ i)) = in_tail d (within (in_tail b i))

insert_block-In :
    (c b : CanonicalBlock) (blocks : List CanonicalBlock)
    → In c (b ∷ blocks)
    → In c (insert_block b blocks)
unfolding insert_block
insert_block-In c b [] i = i
insert_block-In c b (d ∷ ds) i = elim (Bool-cases (leb b.reading_order d.reading_order)) [
  | inl le ↦ rw le i
  | inr gt ↦ rw gt (past_head c b d ds (insert_block-In c b ds) i)
]

sort_blocks-In :
    (c : CanonicalBlock) (blocks : List CanonicalBlock) → In c blocks → In c (sort_blocks blocks)
unfolding sort_blocks
sort_blocks-In c [] i = i
sort_blocks-In c (b ∷ bs) (at_head _) =
    insert_block-In c b (sort_blocks bs) (at_head (sort_blocks bs))
sort_blocks-In c (b ∷ bs) (in_tail _ i) =
    insert_block-In c b (sort_blocks bs) (in_tail b (sort_blocks-In c bs i))

module _ (document : CanonicalDocument) (claimed : List String) (version : Option ℕ) where
  -- a block that is in nobody's claim becomes the source of a fallback chunk
  fallback_blocks-covers :
      (n : ℕ) (blocks : List CanonicalBlock) (b : CanonicalBlock)
      → In b blocks
      → has_text b.text ≡ true
      → is_skipped b.type ≡ false
      → contains b.id claimed ≡ false
      → contains b.id (claimed_ids (fallback_blocks document claimed version n blocks)) ≡ true
  unfolding fallback_blocks fallback_chunk chunk_of claimed_ids
  fallback_blocks-covers n [] b i t s c = elim i [ ]
  fallback_blocks-covers n (b ∷ bs) _ (at_head _) t s c = ground (arith, beq_refl b.id)
  fallback_blocks-covers n (x ∷ xs) b (in_tail _ i) t s c =
      ground (arith, fallback_blocks-covers n xs b i t s c)

  fallback_pages-covers :
      (pages : List CanonicalPage) (page : CanonicalPage) (b : CanonicalBlock)
      → In page pages
      → In b page.blocks
      → has_text b.text ≡ true
      → is_skipped b.type ≡ false
      → contains b.id claimed ≡ false
      → contains b.id (claimed_ids (fallback_pages document claimed version pages)) ≡ true
  unfolding fallback_pages
  fallback_pages-covers [] page b i j t s c = elim i [ ]
  fallback_pages-covers (p ∷ ps) _ b (at_head _) j t s c =
      in_append b.id (fallback_blocks document claimed version p.page_number (sort_blocks p.blocks))
        (fallback_pages document claimed version ps)
        (inl (
          fallback_blocks-covers p.page_number (sort_blocks p.blocks) b
            (sort_blocks-In b p.blocks j) t s c))
  fallback_pages-covers (p ∷ ps) page b (in_tail _ i) j t s c =
      in_append b.id (fallback_blocks document claimed version p.page_number (sort_blocks p.blocks))
        (fallback_pages document claimed version ps)
        (inr (fallback_pages-covers ps page b i j t s c))

  fallback_blocks-Fresh :
      (n : ℕ) (blocks : List CanonicalBlock)
      → Fresh claimed (claimed_ids (fallback_blocks document claimed version n blocks))
  unfolding fallback_blocks fallback_chunk chunk_of claimed_ids
  fallback_blocks-Fresh n [] = tt
  fallback_blocks-Fresh n (b ∷ bs) = ground (arith, fallback_blocks-Fresh n bs)

  pub build_fallback_chunks-covers :
      (page : CanonicalPage) (b : CanonicalBlock)
      → In page document.pages
      → In b page.blocks
      → has_text b.text ≡ true
      → is_skipped b.type ≡ false
      → contains b.id claimed ≡ false
      → contains b.id (claimed_ids (build_fallback_chunks document claimed version)) ≡ true
  unfolding build_fallback_chunks
  build_fallback_chunks-covers = fallback_pages-covers document.pages

  fallback_pages-Fresh :
      (pages : List CanonicalPage)
      → Fresh claimed (claimed_ids (fallback_pages document claimed version pages))
  unfolding fallback_pages claimed_ids
  fallback_pages-Fresh [] = tt
  fallback_pages-Fresh (p ∷ ps) =
      subst (Fresh claimed)
        (sym (
          claimed_ids-append
            (fallback_blocks document claimed version p.page_number (sort_blocks p.blocks))
            (fallback_pages document claimed version ps)))
        (append-Fresh claimed _ _ (fallback_blocks-Fresh p.page_number (sort_blocks p.blocks))
          (fallback_pages-Fresh ps))

  pub build_fallback_chunks-Fresh :
      Fresh claimed (claimed_ids (build_fallback_chunks document claimed version))
  unfolding build_fallback_chunks
  build_fallback_chunks-Fresh = fallback_pages-Fresh document.pages
