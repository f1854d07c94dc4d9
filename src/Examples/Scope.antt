-- ===== src/Examples/Scope.antt =====
-- Instances of scope.py.
use mama_gift.Base.{false, list_eq, nat_eq, option_eq, refl, some, string_eq, true, ◌↔◌, ◌≡◌}
use mama_gift.Examples.Samples.{one_document}
use mama_gift.Retrieval.Scope.{EvidenceScope, scope_matches}
use mama_gift.Retrieval.Scope.Laws.{InScope, scope_matches-InScope}

abbrev other_version : EvidenceScope
other_version = record one_document { document_version = some 2 }

stale_version_refused : scope_matches other_version one_document ≡ false
unfolding scope_matches
stale_version_refused = refl

scope_matches-InScope_example :
    (scope_matches one_document one_document ≡ true) ↔ InScope one_document one_document
scope_matches-InScope_example = scope_matches-InScope one_document one_document
