-- ===== src/Ingest/Tests.antt =====
-- Witnesses and runs of the ingest endpoint.
use crashlens.Base.{◌≡◌, ◌↔◌, refl, true, [], ◌∷◌}
use crashlens.Json.{str, arr, nil, get, get_or_null, assign}
use crashlens.Ingest.Body.{decompress_gzip, drain}
use crashlens.Ingest.Body.Cap.{Capped, decompress_gzip-Capped}
use crashlens.Ingest.Envelope.{
  valid, type_error, validate_envelope, is_uuid, is_timestamp, nonempty_str, is_rfc3339,
}
use crashlens.Ingest.Envelope.Shape.{WellShaped, validate_envelope_iff}
use crashlens.Ingest.Envelope.Crash.{HasNoHash, validate_envelope-crashes_iff}
use crashlens.Ingest.Endpoint.{ingest_event, resolve_dsn_key, sampled_out, accepted}
use crashlens.Ingest.Endpoint.Queue.{Served, ingest_event-Served}
use crashlens.Ingest.Endpoint.Order.{Charged, authenticated, ingest_event-Charged}
use crashlens.RateLimit.{check_rate_limit, token_bucket, visible, refilled}
use crashlens.Samples.{plain_runtime, plain_zlib, plain_web, envelope, world, moment, request}

decompress_gzip-Capped_example : Capped (decompress_gzip plain_zlib (1 ∷ 2 ∷ []))
decompress_gzip-Capped_example = decompress_gzip-Capped plain_zlib (1 ∷ 2 ∷ [])

validate_envelope_iff_example :
    (validate_envelope plain_runtime envelope ≡ valid) ↔ WellShaped plain_runtime envelope
validate_envelope_iff_example = validate_envelope_iff plain_runtime envelope

validate_envelope-crashes_iff_example :
    (validate_envelope plain_runtime (assign "level" (arr nil) envelope) ≡ type_error) ↔ (
      (is_uuid plain_runtime (get_or_null "event_id" (assign "level" (arr nil) envelope)) ≡ true)
      × ((is_timestamp plain_runtime (get_or_null "timestamp" (assign "level" (arr nil) envelope))
            ≡ true)
          × ((nonempty_str (get_or_null "platform" (assign "level" (arr nil) envelope)) ≡ true)
              × HasNoHash (get_or_null "level" (assign "level" (arr nil) envelope)))))
validate_envelope-crashes_iff_example =
    validate_envelope-crashes_iff plain_runtime (assign "level" (arr nil) envelope)

crash : validate_envelope plain_runtime (assign "level" (arr nil) envelope) ≡ type_error
unfolding validate_envelope get assign is_rfc3339
crash = refl

ingest_event-Served_example :
    Served plain_web "p" world (ingest_event plain_web moment "p" request world)
ingest_event-Served_example = ingest_event-Served plain_web moment "p" request world

ingest_event-Charged_example :
    Charged moment world
      (authenticated "p" request.public_key world)
      (ingest_event plain_web moment "p" request world)
ingest_event-Charged_example = ingest_event-Charged plain_web moment "p" request world

taken : (ingest_event plain_web moment "p" request world).0 ≡ accepted (str "e-2")
unfolding ingest_event resolve_dsn_key check_rate_limit token_bucket visible refilled sampled_out
    decompress_gzip drain validate_envelope get is_rfc3339
taken = refl
