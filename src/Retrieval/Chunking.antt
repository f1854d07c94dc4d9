-- ===== src/Retrieval/Chunking.antt =====
-- chunking/ of the retrieval package: the builders that cut a canonical document into chunks; here
-- field_value of _shared.py and what the builders share.
pub mod Quoting
pub mod Identifiers
pub mod Legal
pub mod Fallback
pub mod Plan
pub mod Builder
use mama_gift.Base.{
  Bool, List, Option, String, Text, [], false, if◌then◌else◌, leb, list_eq, nat_eq, none, option_eq,
  some, string_eq, true, ℕ, ◌==◌, ◌∷◌,
}
use mama_gift.Docpipe.Canonical.{CanonicalBlock, CanonicalDocument, CanonicalField}
use mama_gift.Retrieval.ArchiveEvidence.{strip}
use mama_gift.Retrieval.Chunk.{Chunk, ChunkType, MetaValue}

-- `or` on two optional texts: the empty text counts as missing
unfoldable pub text_or : Option String → Option String → Option String
text_or none other = other
text_or (some text) other = if text == "" then other else some text

unfoldable pub field_in : String → List CanonicalField → Option String
unfolding text_or
field_in name [] = none
field_in name (extracted ∷ rest) =
    if extracted.name == name
    then text_or extracted.normalized_value extracted.raw_value
    else field_in name rest

unfoldable pub field_value : CanonicalDocument → String → Option String
unfolding field_in
field_value document name = field_in name document.extracted_fields

-- sorted(page.blocks, key=lambda item: item.reading_order)
unfoldable pub insert_block : CanonicalBlock → List CanonicalBlock → List CanonicalBlock
insert_block b [] = b ∷ []
insert_block b (c ∷ cs) =
    let rest = insert_block b cs in
    if leb b.reading_order c.reading_order then b ∷ c ∷ cs else c ∷ rest

unfoldable pub sort_blocks : List CanonicalBlock → List CanonicalBlock
unfolding insert_block
sort_blocks [] = []
sort_blocks (b ∷ bs) = insert_block b (sort_blocks bs)

-- `text.strip()` is not empty
unfoldable pub has_text : Text → Bool
unfolding strip
has_text text = elim (strip text) [ [] ↦ false | c ∷ cs ↦ true ]

-- The keywords that every builder gives to `Chunk` in the same way.
unfoldable pub chunk_of :
    CanonicalDocument
    → Option ℕ
    → String
    → Option String
    → List String
    → ChunkType
    → Text
    → List String
    → List ℕ
    → List (String × MetaValue)
    → Chunk
unfolding field_value
chunk_of document version id parent path type text blocks pages metadata = record {
  chunk_id = id;
  parent_chunk_id = parent;
  document_id = document.document_id;
  parse_run_id = document.parser_run_id;
  document_version = version;
  document_type = field_value document "document_type";
  document_number = field_value document "document_number";
  issuer = field_value document "issuer";
  issued_date = field_value document "issue_date";
  section_path = path;
  chunk_type = type;
  text = text;
  source_block_ids = blocks;
  source_page_numbers = pages;
  metadata = metadata;
}
