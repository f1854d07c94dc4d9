-- ===== src/Retrieval/Provenance.antt =====
-- The scope that fusion, expansion and the two assemblers build for a chunk before they ask
-- `scope_matches`: the family and the user of the request, the provenance of the chunk.
use mama_gift.Base.{false, list_eq, nat_eq, option_eq, some, string_eq, true, ◌≡◌}
use mama_gift.Retrieval.Chunk.{Chunk}
use mama_gift.Retrieval.Scope.{EvidenceScope, scope_matches}
use mama_gift.Retrieval.Scope.Laws.{InScope, scope_matches-InScope}

unfoldable pub chunk_scope : EvidenceScope → Chunk → EvidenceScope
chunk_scope scope chunk = record {
  family_id = scope.family_id;
  user_id = scope.user_id;
  thread_id = scope.thread_id;
  document_id = some chunk.document_id;
  document_version = chunk.document_version;
  parse_run_id = some chunk.parse_run_id;
  archive_scope = false;
}

-- A chunk of this provenance may be used for the request.
abbrev pub InRequest : EvidenceScope → Chunk → Type 0
InRequest scope chunk = InScope (chunk_scope scope chunk) scope

pub chunk_scope-InScope :
    (scope : EvidenceScope) (chunk : Chunk)
    → scope_matches (chunk_scope scope chunk) scope ≡ true
    → InRequest scope chunk
chunk_scope-InScope scope chunk h = (scope_matches-InScope (chunk_scope scope chunk) scope).0 h
