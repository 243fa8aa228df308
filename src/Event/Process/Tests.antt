-- ===== src/Event/Process/Tests.antt =====
-- Witnesses and runs of the job.
use crashlens.Base.{◌≡◌, ◌⊎◌, ◌↔◌, refl, true, false, none, some}
use crashlens.Json.{obj, get, assign, revise}
use crashlens.Event.Fingerprint.{compute_fingerprint}
use crashlens.Event.Normalize.{normalize_envelope}
use crashlens.SourceMap.Symbolicate.{symbolicate_envelope}
use crashlens.Store.{Tenant, unresolved, regressed}
use crashlens.Store.Coherence.{IsCoherent}
use crashlens.Samples.{rows-IsCoherent, plain_runtime, no_maps, envelope, rows, prepared, columns}
use crashlens.Event.Process.{
  decide_regression, Signal, duplicate, poison, store_event, process_event, stored, prepare,
  prepare_copy,
}
use crashlens.Event.Rows.{prior_issue, bump_issue, upsert_release}
use crashlens.Event.Process.Regression.{
  IsStraggler, decide_regression_iff, alert_job-store_event, Told,
}
use crashlens.Event.Process.Counts.{process_event-IsCoherent}
use crashlens.Event.Process.Accepted.{prepared_envelope, process_event-accepted}
use crashlens.Ingest.Envelope.{validate_envelope, is_rfc3339}
use crashlens.Ingest.Envelope.Shape.{WellShaped, validate_envelope_iff}
use crashlens.Event.Process.Idempotent.{process_event_resend}

decide_regression_iff_example :
    (decide_regression (some "1.0") (some "0.9") (some 3) (some 5) ≡ false)
    ↔ IsStraggler (some "1.0") (some "0.9") (some 3) (some 5)
decide_regression_iff_example = decide_regression_iff (some "1.0") (some "0.9") (some 3) (some 5)

alert_job-store_event_example :
    Told 9 8 "p" prepared columns rows
      (prior_issue rows "p" prepared.fingerprint)
      (store_event 9 8 "p" prepared columns rows).0
alert_job-store_event_example = alert_job-store_event 9 8 "p" prepared columns rows

-- The new release brings the issue back.
comes_back : (store_event 9 8 "p" prepared columns rows).0.status ≡ regressed
unfolding store_event bump_issue decide_regression upsert_release
comes_back = refl

process_event-IsCoherent_example :
    IsCoherent (process_event plain_runtime no_maps 10 "maps" 9 "o" "p" "now" (obj envelope) rows).1
process_event-IsCoherent_example =
    process_event-IsCoherent plain_runtime no_maps 10 "maps" 9 "o" "p" "now" (obj envelope) rows
      rows-IsCoherent

abbrev signal : Signal
signal = record {
  issue_id = 1;
  status = unresolved;
  created = true;
  regressed = false;
  regressed_in_release = none;
  event_count = 1;
}

stored_first :
    (process_event plain_runtime no_maps 10 "maps" 9 "o" "p" "now" (obj envelope) rows).0
    ≡ stored signal
unfolding process_event prepare prepare_copy compute_fingerprint get symbolicate_envelope
    normalize_envelope revise assign store_event
stored_first = refl

abbrev after : Tenant
after = (process_event plain_runtime no_maps 10 "maps" 9 "o" "p" "now" (obj envelope) rows).1

process_event_resend_example :
    let again =
      process_event plain_runtime no_maps 10 "maps" 20 "o" "p" "later" (obj envelope) after in
    (again.1 ≡ after) × ((again.0 ≡ duplicate) ⊎ (again.0 ≡ poison))
process_event_resend_example =
    process_event_resend plain_runtime no_maps no_maps 10 10 "maps" 9 20 "o" "p" "now" "later"
      (obj envelope) rows signal stored_first

envelope-WellShaped : WellShaped plain_runtime envelope
unfolding validate_envelope get is_rfc3339
envelope-WellShaped = (validate_envelope_iff plain_runtime envelope).0 refl

process_event-accepted_example :
    let stored_envelope = prepared_envelope plain_runtime no_maps 10 "maps" "o" "p" envelope in
    let r = (process_event plain_runtime no_maps 10 "maps" 9 "o" "p" "now" (obj envelope) rows).0 in
    ((r ≡ poison) × (compute_fingerprint plain_runtime stored_envelope ≡ none))
    ⊎ ((r ≡ duplicate) ⊎ ((s : Signal) × (r ≡ stored s)))
unfolding get
process_event-accepted_example =
    process_event-accepted plain_runtime no_maps 10 "maps" "o" "p" envelope 9 "now" "e-2" "e-2"
      "production" (some "1.1") rows envelope-WellShaped refl refl refl refl refl refl refl refl
      refl refl
