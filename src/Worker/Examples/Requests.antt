-- ===== src/Worker/Examples/Requests.antt =====
-- The requests of the worker at concrete inputs (workers/worker-node/src/apiClient.js).
use shore_sentinel_app.Base.{String, [], ◌∷◌, some, ◌≡◌, refl, gives}
use shore_sentinel_app.Value.{Value, str, obj, end, field}
use shore_sentinel_app.Worker.Examples.{plain}
use shore_sentinel_app.Worker.Clients.{
  Request, internal_headers, capability_headers, capability_post, emit_run_event_request,
  upload_artifact_request,
}
use shore_sentinel_app.Worker.Clients.Laws.{IsCredentialed, writes-IsCredentialed}

abbrev content : Value
content = obj (field "runId" (str "r1") end)

abbrev sent_to : String → Request
sent_to url = record {
  method = "POST";
  url = url;
  headers =
      ("content-type", "application/json")
      ∷ ("authorization", "Bearer t")
      ∷ ("x-worker-capability", "c")
      ∷ [];
  body = some "{}";
}

reported :
    emit_run_event_request plain "http://api" "t" content (str "c")
    ≡ gives (sent_to "http://api/runs/r1/events")
unfolding emit_run_event_request capability_post internal_headers capability_headers
reported = refl

stored :
    upload_artifact_request plain "http://api" "t" content (str "c")
    ≡ gives (sent_to "http://api/artifacts")
unfolding upload_artifact_request capability_post internal_headers capability_headers
stored = refl

writes-IsCredentialed_example :
    IsCredentialed "t" (str "c") (sent_to "http://api/runs/r1/events")
    × IsCredentialed "t" (str "c") (sent_to "http://api/artifacts")
writes-IsCredentialed_example =
    writes-IsCredentialed plain "http://api" "t" content (str "c")
      (sent_to "http://api/runs/r1/events") (sent_to "http://api/artifacts") reported stored
