-- ===== src/Retrieval/Errors.antt =====
-- The `ValueError`s and the `TypeError` that the retrieval package raises, one constructor for each
-- message, with the identifier that the message names.
use mama_gift.Base.{List, String, Text, list_eq, nat_eq, option_eq, string_eq, ℕ}

pub data RetrievalError : Type 0 where
  duplicate_chunk scope_violation missing_version document_not_allowed : String → RetrievalError
  unknown_categories : List String → RetrievalError
  missing_limit not_text : String → RetrievalError
  scope_required archive_wildcard no_document_id no_document_version no_parse_run_id :
      RetrievalError
  no_family foreign_family not_archive_scope pinned_document pinned_parse_run pinned_version :
      RetrievalError
  rank_not_dense : ℕ → ℕ → RetrievalError
  two_chunk_sources bad_max_depth bad_max_documents bad_char_cap : RetrievalError
  self_parent unknown_parent parent_other_document parent_other_run parent_other_version :
      String → RetrievalError
  parent_cycle walk_unfinished : String → RetrievalError
  duplicate_identities mixed_provenance : RetrievalError
  blank_document_id : Text → RetrievalError
  missing_document_id missing_run_id mixed_versions : String → RetrievalError
