-- ===== src/Retrieval/Chunk.antt =====
-- chunk.py: the retrieval chunk and the structural check of a chunk set; index/entries.py: a scored
-- chunk, its score left abstract.
pub mod Tree
use mama_gift.Base.{
  List, Option, String, Text, [], if◌then◌else◌, list_eq, nat_eq, none, option_eq, some, string_eq,
  ℕ, ◌==◌, ◌∷◌,
}

pub data ChunkType : Type 0 where
  legal_chapter legal_section legal_article legal_clause legal_point : ChunkType
  appendix plan_section plan_task paragraph : ChunkType

-- A value of `metadata`: the code only asks whether it is a text.
pub data MetaValue : Type 0 where
  meta_text : Text → MetaValue
  meta_other : MetaValue

pub record Chunk : Type 0 where
  pub chunk_id : String
  pub parent_chunk_id : Option String
  pub document_id : String
  pub parse_run_id : String
  pub document_version : Option ℕ
  pub document_type : Option String
  pub document_number : Option String
  pub issuer : Option String
  pub issued_date : Option String
  pub section_path : List String
  pub chunk_type : ChunkType
  pub text : Text
  pub source_block_ids : List String
  pub source_page_numbers : List ℕ
  pub metadata : List (String × MetaValue)

pub data Retriever : Type 0 where
  dense lexical fused reranked : Retriever

pub record ScoredChunk (Score : Type 0) : Type 0 where
  pub chunk : Chunk
  pub score : Score
  pub rank : ℕ
  pub retriever : Retriever

-- `by_id`, a dictionary from identifiers to chunks, with its first entry per key
unfoldable pub find_chunk : String → List Chunk → Option Chunk
find_chunk id [] = none
find_chunk id (c ∷ cs) = if id == c.chunk_id then some c else find_chunk id cs
