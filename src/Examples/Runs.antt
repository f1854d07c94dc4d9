-- ===== src/Examples/Runs.antt =====
-- Instances of the execution of a job, in ingestion.py and worker.py.
use mama_gift.Api.Jobs.{add_job, illegal, key_of, search_for, search_key}
use mama_gift.Api.Leases.{
  claim_job, claim_row, count_queued, get_job, is_expirable, is_runnable, lease_loop,
  lease_next_job, next_runnable, release_expired_leases, sweep,
}
use mama_gift.Api.Models.{
  Db, Document, Job, ParseRun, from_exception, get_document, put_document, put_job,
}
use mama_gift.Api.Run.{
  IngestionResult, crashed_parsing, parser_failed, record_parse_run, reprocess_document, run_job,
}
use mama_gift.Api.Run.Outcomes.{
  EndsAs, Reprocessed, Tried, reprocess_document_outcome, run_job_ends,
}
use mama_gift.Api.Run.Versions.{UpTo, current_runs, record_parse_run_lem, runs_of_others, unmarked}
use mama_gift.Api.StateMachine.{
  document_status_eq, failed_terminal, illegal_document, indexing, job_status_eq, leased,
  parse_failed, queued_for_parse, running, structuring,
}
use mama_gift.Api.Worker.{Raised, Turn, code_of, process_next_job, settle}
use mama_gift.Api.Worker.Ends.{Settled, crash_recorded, process_next_job-Settled}
use mama_gift.Base.{
  Option, String, [], decimal, err, false, list_eq, map, nat_eq, none, ok, option_eq, refl, some,
  string_eq, true, ℕ, ◌++◌, ◌+◌, ◌-◌, ◌<◌, ◌∷◌, ◌≡◌,
}
use mama_gift.Docpipe.Errors.{ParserError, parse_timeout}
use mama_gift.Examples.Samples.{sample_document, sample_job, sample_settings, waiting_db}

abbrev no_dates : String → Option ℕ
no_dates s = none

abbrev timeout_error : ParserError
timeout_error = record {
  code = parse_timeout;
  message = "slow";
  retryable = true;
  parser_name = "mineru";
}

abbrev good_result : IngestionResult
good_result = record {
  extracted_fields = record { name = "title"; normalized_value = some "T" } ∷ [];
  requires_user_review = false;
  route = "born_digital";
  strategy_decided = false;
  degraded = true;
}

run_job_ends_example :
    EndsAs sample_settings 4
      (sample_job leased)
      (sample_document queued_for_parse)
      (parser_failed timeout_error)
      (run_job no_dates sample_settings 4 "r1" []
        (sample_job leased)
        (sample_document queued_for_parse)
        (parser_failed timeout_error))
run_job_ends_example =
    run_job_ends no_dates sample_settings 4 "r1" [] (sample_job leased)
      (sample_document queued_for_parse) (parser_failed timeout_error) refl refl

abbrev a_crash : Raised
a_crash = record { code = none; message = "boom" }

crash_recorded_example :
    (j : Job) × (d : Document) × (settle waiting_db
        (run_job no_dates sample_settings 4 "r1" []
          (sample_job leased)
          (sample_document queued_for_parse)
          (crashed_parsing "boom"))
        a_crash
      ≡ ok (record waiting_db {
        jobs = put_job j waiting_db.jobs;
        documents = put_document d waiting_db.documents;
      }))
    × Tried (sample_job leased) j
    × (j.status ≡ failed_terminal)
    × (d.status ≡ parse_failed)
    × (d.error_code ≡ some (from_exception (code_of a_crash)))
crash_recorded_example =
    crash_recorded no_dates sample_settings 4 "r1" [] (sample_job leased)
      (sample_document queued_for_parse) "boom" a_crash waiting_db refl refl

-- a turn of a worker that is alone and whose parser is too slow
abbrev slow_turn : Turn
slow_turn = record {
  others = λ n jobs. jobs;
  attempt = parser_failed timeout_error;
  exc = a_crash;
  now = 7;
  fresh_id = "r1";
}

abbrev leased_job : Job
leased_job = record (sample_job leased) { leased_by = some "w1"; lease_expires_at = some (7 + 300) }

abbrev leased_db : Db
leased_db = record waiting_db { jobs = leased_job ∷ [] }

slow_turn_leases :
    lease_next_job slow_turn.others waiting_db "w1" sample_settings 7
    ≡ ok (some (leased_db, some leased_job))
unfolding lease_next_job release_expired_leases sweep is_expirable lease_loop claim_job claim_row
    next_runnable is_runnable get_job count_queued
slow_turn_leases = refl

process_next_job-Settled_example :
    (after : Db) × (j : Job) × (process_next_job no_dates sample_settings "w1" waiting_db slow_turn
      ≡ ok (after, true))
    × (get_job "job" after.jobs ≡ some j)
    × Tried leased_job j
    × Settled j
unfolding get_job get_document
process_next_job-Settled_example =
    process_next_job-Settled no_dates sample_settings "w1" waiting_db leased_db slow_turn leased_job
      (sample_document queued_for_parse) slow_turn_leases refl refl refl refl

abbrev old_run : ParseRun
old_run = record {
  id = "r0";
  document_id = "doc";
  job_id = none;
  version = 1;
  is_current = true;
  strategy_decided = false;
  degraded = false;
  route = "scanned";
  requires_user_review = false;
}

record_parse_run_lem_example :
    let (runs', document', run) =
      record_parse_run
        (old_run ∷ [])
        (sample_document structuring)
        (sample_job running)
        good_result
        "r1" in
    (current_runs "doc" runs' ≡ run ∷ [])
    × (document'.current_parse_run_id ≡ some run.id)
    × UpTo (run.version - 1) "doc" (old_run ∷ [])
    × (0 < run.version)
    × (map unmarked runs' ≡ map unmarked (old_run ∷ []) ++ (unmarked run ∷ []))
    × (runs_of_others "doc" runs' ≡ runs_of_others "doc" (old_run ∷ []))
record_parse_run_lem_example =
    record_parse_run_lem (old_run ∷ []) (sample_document structuring) (sample_job running)
      good_result "r1"

-- A document that is being indexed, with no job of the next version.
abbrev indexing_db : Db
indexing_db = record { documents = sample_document indexing ∷ []; jobs = []; parse_runs = [] }

reprocess_indexing_raises :
    reprocess_document indexing_db (sample_document indexing) sample_settings "reprocess" "j9" 4
    ≡ err (illegal (illegal_document indexing queued_for_parse))
unfolding reprocess_document search_for search_key add_job key_of decimal
reprocess_indexing_raises = refl

reprocess_document_outcome_example :
    Reprocessed indexing indexing_db
      (sample_document indexing)
      3
      (reprocess_document indexing_db (sample_document indexing) sample_settings "r" "j9" 4)
unfolding get_document
reprocess_document_outcome_example =
    reprocess_document_outcome indexing_db (sample_document indexing) sample_settings "r" "j9" 4
      refl
