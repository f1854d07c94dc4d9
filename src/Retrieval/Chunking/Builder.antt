-- ===== src/Retrieval/Chunking/Builder.antt =====
-- chunking/builder.py: the chunks of a document, and the check of their tree.
pub mod Origin
pub mod Coverage
pub mod Sound
use mama_gift.Base.{
  List, Option, Result, String, Text, [], list_eq, nat_eq, ok, option_eq, string_eq, ℕ, ◌++◌, ◌>>=◌,
  ◌>>◌, ◌∷◌,
}
use mama_gift.Docpipe.Canonical.{CanonicalDocument}
use mama_gift.Retrieval.Chunk.{Chunk}
use mama_gift.Retrieval.Chunk.Tree.{validate_chunk_tree}
use mama_gift.Retrieval.Chunking.Fallback.{build_fallback_chunks}
use mama_gift.Retrieval.Chunking.Legal.{build_legal_chunks}
use mama_gift.Retrieval.Chunking.Plan.Chunks.{build_plan_chunks}
use mama_gift.Retrieval.Errors.{RetrievalError}

-- the source blocks of some chunks
unfoldable pub claimed_ids : List Chunk → List String
claimed_ids [] = []
claimed_ids (chunk ∷ chunks) = chunk.source_block_ids ++ claimed_ids chunks

unfoldable pub claimed_block_ids : (Text → Option Text) → CanonicalDocument → Option ℕ → List String
unfolding claimed_ids build_legal_chunks build_plan_chunks
claimed_block_ids date document version =
    claimed_ids (build_legal_chunks document version)
    ++ claimed_ids (build_plan_chunks date document version)

-- legal_chunks + plan_chunks + fallback_chunks
unfoldable pub all_chunks : (Text → Option Text) → CanonicalDocument → Option ℕ → List Chunk
unfolding build_legal_chunks build_plan_chunks build_fallback_chunks claimed_block_ids
all_chunks date document version =
    (build_legal_chunks document version ++ build_plan_chunks date document version)
    ++ build_fallback_chunks document (claimed_block_ids date document version) version

unfoldable pub build_chunks :
    (Text → Option Text) → CanonicalDocument → Option ℕ → Result RetrievalError (List Chunk)
unfolding all_chunks validate_chunk_tree
build_chunks date document version = do
  validate_chunk_tree (all_chunks date document version)
  ok (all_chunks date document version)
