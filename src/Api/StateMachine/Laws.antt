-- ===== src/Api/StateMachine/Laws.antt =====
-- What the two machines allow over any number of steps.
use mama_gift.Api.StateMachine.{
  DocumentStatus, JobStatus, can_transition_document, can_transition_job, document_status_eq,
  indexing, inspecting, job_status_eq, normalizing, parse_failed, parsing, queued_for_parse, ready,
  ready_for_review, structuring, unsupported, uploaded,
}
use mama_gift.Base.{
  List, [], list_eq, nat_eq, option_eq, refl, string_eq, subst, true, ◌∷◌, ◌≡◌, ◌≢◌,
}

-- Runs of the document machine that the guard accepts.
pub data DocumentRun : DocumentStatus → DocumentStatus → Type 0 where
  halt : {s : DocumentStatus} → DocumentRun s s
  advance :
      {s t u : DocumentStatus}
      → can_transition_document s t ≡ true
      → DocumentRun t u
      → DocumentRun s u

-- Runs of the job machine that the guard accepts.
pub data JobRun : JobStatus → JobStatus → Type 0 where
  stay : {s : JobStatus} → JobRun s s
  move : {s t u : JobStatus} → can_transition_job s t ≡ true → JobRun t u → JobRun s u

unsupported_step : (t : DocumentStatus) → can_transition_document unsupported t ≡ true → ⊥
unfolding can_transition_document
unsupported_step t h = cc

-- An unsupported document stays unsupported: no sequence of legal transitions leaves it.
pub unsupported_absorbs :
    {s t : DocumentStatus} → s ≡ unsupported → DocumentRun s t → t ≡ unsupported
unsupported_absorbs e halt = e
unsupported_absorbs e (advance {t = t} h r) =
    absurd (unsupported_step t (subst (λ s. can_transition_document s t ≡ true) e h))

queue_to_review : DocumentRun queued_for_parse ready_for_review
unfolding can_transition_document
queue_to_review = advance {t = parsing} refl (
    advance {t = normalizing} refl
      (advance {t = structuring} refl (advance {t = ready_for_review} refl halt)))

-- Every document that is not unsupported can still reach review by legal transitions.
pub review_reachable : (s : DocumentStatus) → s ≢ unsupported → DocumentRun s ready_for_review
unfolding can_transition_document
review_reachable uploaded n = advance {t = queued_for_parse} refl queue_to_review
review_reachable inspecting n = advance {t = queued_for_parse} refl queue_to_review
review_reachable queued_for_parse n = queue_to_review
review_reachable parsing n = advance {t = queued_for_parse} refl queue_to_review
review_reachable normalizing n =
    advance {t = structuring} refl (advance {t = ready_for_review} refl halt)
review_reachable structuring n = advance {t = ready_for_review} refl halt
review_reachable ready_for_review n = halt
review_reachable indexing n =
    advance {t = ready} refl (advance {t = queued_for_parse} refl queue_to_review)
review_reachable ready n = advance {t = queued_for_parse} refl queue_to_review
review_reachable parse_failed n = advance {t = queued_for_parse} refl queue_to_review
review_reachable unsupported n = absurd (n refl)

-- The statuses that a document has before its first review, or after a failure.
abbrev pub unreviewed : List DocumentStatus
unreviewed =
    uploaded ∷ inspecting ∷ queued_for_parse ∷ parsing ∷ normalizing ∷ structuring ∷ parse_failed
    ∷ unsupported ∷ []
