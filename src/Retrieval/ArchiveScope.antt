-- ===== src/Retrieval/ArchiveScope.antt =====
-- archive/protocol.py: the scope of a question to the whole archive.
use mama_gift.Base.{
  Result, String, arith, eq_iff, guard, list_eq, nat_eq, none, not, ok, option_beq_iff, option_eq,
  refl, string_eq, true, ◌==◌, ◌>>◌, ◌↔◌, ◌≡◌,
}
use mama_gift.Retrieval.Errors.{
  RetrievalError, foreign_family, no_family, not_archive_scope, pinned_document, pinned_parse_run,
  pinned_version,
}
use mama_gift.Retrieval.Scope.{EvidenceScope}

abbrev pub authoritative_family_id : String
authoritative_family_id = "mamagift"

unfoldable pub validate_archive_scope : EvidenceScope → Result RetrievalError (Unit {0})
validate_archive_scope scope = do
  guard (not (scope.family_id == "")) no_family
  guard (scope.family_id == authoritative_family_id) foreign_family
  guard scope.archive_scope not_archive_scope
  guard (scope.document_id == none) pinned_document
  guard (scope.parse_run_id == none) pinned_parse_run
  guard (scope.document_version == none) pinned_version

-- A wildcard over the documents of the authoritative family, which pins nothing.
pub record IsArchive (scope : EvidenceScope) : Type 0 where
  pub family : scope.family_id ≡ authoritative_family_id
  pub archive : scope.archive_scope ≡ true
  pub any_document : scope.document_id ≡ none
  pub any_run : scope.parse_run_id ≡ none
  pub any_version : scope.document_version ≡ none

-- The check passes exactly the scopes of the authoritative family that are archive wildcards and pin
-- neither a document nor a parse run nor a version.
pub validate_archive_scope-IsArchive :
    (scope : EvidenceScope) → (validate_archive_scope scope ≡ ok tt) ↔ IsArchive scope
unfolding validate_archive_scope
validate_archive_scope-IsArchive scope = (
  λ h. record {
    family = ground (arith, eq_iff scope.family_id authoritative_family_id);
    archive = ground arith;
    any_document = ground (arith, option_beq_iff scope.document_id none);
    any_run = ground (arith, option_beq_iff scope.parse_run_id none);
    any_version = ground (arith, option_beq_iff scope.document_version none);
  },
  λ a. rw (a.family, a.archive, a.any_document, a.any_run, a.any_version) refl,
)
