-- ===== src/Worker/Clients/Laws.antt =====
-- What every request that changes a run carries (workers/worker-node/src/apiClient.js).
use Prim.Native.String.{◌++◌}
use shore_sentinel_app.Base.{
  String, true, false, ◌≡◌, sym, ap, List, [], ◌∷◌, str_eq, Bool-cases, inl, inr, gives,
}
use shore_sentinel_app.Value.{Value, get, is_filled_text, text_of}
use shore_sentinel_app.Runtime.{Runtime, text_from, Serialized, text, nothing, throws}
use shore_sentinel_app.Worker.Clients.{
  Request, internal_headers, capability_headers, post_request, capability_post,
  emit_run_event_request, upload_artifact_request,
}

-- A request with a token and a capability, neither of them empty.
pub record IsCredentialed (token : String) (capability : Value) (r : Request) : Type 0 where
  pub trusted : str_eq token "" ≡ false
  pub capable : is_filled_text capability ≡ true
  pub method : r.method ≡ "POST"
  pub headers :
      r.headers
      ≡ ("content-type", "application/json")
        ∷ ("authorization", "Bearer " ++ token)
        ∷ ("x-worker-capability", text_of capability)
        ∷ []

gives_inj : {a b : Request} → gives a ≡ gives b → a ≡ b
gives_inj h = cc h

post_request-made :
    (url : String) (headers : List (String × String)) (s : Serialized) (r : Request)
    → post_request url headers s ≡ gives r
    → (r.method ≡ "POST") × (r.headers ≡ ("content-type", "application/json") ∷ headers)
post_request-made url headers (text body) r h =
    (sym (ap (λ x. x.method) (gives_inj h)), sym (ap (λ x. x.headers) (gives_inj h)))
post_request-made url headers nothing r h =
    (sym (ap (λ x. x.method) (gives_inj h)), sym (ap (λ x. x.headers) (gives_inj h)))
post_request-made url headers throws r h = cc h

capability_post-IsCredentialed :
    (rt : Runtime) (token url : String) (capability payload : Value) (r : Request)
    → capability_post rt token url capability payload ≡ gives r
    → IsCredentialed token capability r
unfolding capability_post internal_headers capability_headers
capability_post-IsCredentialed rt token url capability payload r h =
    elim (Bool-cases (str_eq token "")) [
      | inl empty ↦ cc (rw (capability_post, internal_headers, empty) at h)
      | inr trusted ↦ elim (Bool-cases (is_filled_text capability)) [
        | inr missing ↦
            cc (rw (capability_post, internal_headers, capability_headers, trusted, missing) at h)
        | inl capable ↦
            let (m, hs) =
              post_request-made url
                (("authorization", "Bearer " ++ token)
                  ∷ ("x-worker-capability", text_of capability)
                  ∷ [])
                (rt.stringify payload) r
                (rw (capability_post, internal_headers, capability_headers, trusted, capable) at
                  h) in
            record { trusted = trusted; capable = capable; method = m; headers = hs }
      ]
    ]

-- An event or an artifact is sent only with a token and a capability: where a request is made at
-- all, neither is empty and the headers carry both.
pub writes-IsCredentialed :
    (rt : Runtime) (api_url token : String) (content capability : Value) (event upload : Request)
    (reported : emit_run_event_request rt api_url token content capability ≡ gives event)
    (stored : upload_artifact_request rt api_url token content capability ≡ gives upload)
    → IsCredentialed token capability event × IsCredentialed token capability upload
unfolding emit_run_event_request upload_artifact_request
writes-IsCredentialed rt api_url token content capability event upload reported stored = (
  capability_post-IsCredentialed rt token
      (api_url ++ "/runs/" ++ rt.encode (text_from rt (get "runId" content)) ++ "/events")
      capability content event reported,
  capability_post-IsCredentialed rt token (api_url ++ "/artifacts") capability content upload
      stored,
)
