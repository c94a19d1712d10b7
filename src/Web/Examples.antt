-- ===== src/Web/Examples.antt =====
-- The pages, the proxies and the filters at concrete inputs (web/lib, web/app/api).
use shore_sentinel_app.Base.{◌≤◌, true, false, ◌≡◌, refl, ◌⊎◌, some, List, [], ◌∷◌, All, arith}
use shore_sentinel_app.Value.{Value, undef, num, str, arr, obj, nil, cons, end, field, whole, pos}
use shore_sentinel_app.Worker.Examples.{plain}
use shore_sentinel_app.Web.Preferences.{
  Preferences, normalize_display_preferences, bootstrap_preferences, absent, parsed,
}
use shore_sentinel_app.Web.Preferences.Laws.{
  AreOptions, stored_value, normalize_display_preferences_stable, bootstrap_preferences_agree,
}
use shore_sentinel_app.Web.Middleware.{PageRequest, without_base_path, middleware}
use shore_sentinel_app.Web.Middleware.Laws.{IsGuardedPage, middleware-IsGuardedPage}
use shore_sentinel_app.Web.Proxy.{Incoming, Call, Answer, answered, identity_call}
use shore_sentinel_app.Web.Proxy.Targets.{allowed_roles, encoded_path, proxy_target_request}
use shore_sentinel_app.Web.Proxy.ScanRuns.{allowed_path, read_roles, run_call, get_scan_run}
use shore_sentinel_app.Web.Proxy.Mutations.{
  edit_roles, create_roles, status_roles, post_cancel, post_target, post_remediation_status,
}
use shore_sentinel_app.Web.Proxy.Contract.{IsCancellation, IsEnrollment, IsStatusChange}
use shore_sentinel_app.Web.Proxy.Authorized.{IsAuthorized}
use shore_sentinel_app.Web.Proxy.Laws.{
  IsTargetCall, IsGuarded, proxy_target-IsTargetCall, get_scan_run_guarded, mutations-IsGuarded,
}
use shore_sentinel_app.Web.Proxy.Roles.{MayUse, allowed_roles-MayUse}
use shore_sentinel_app.Web.Filters.{
  normalize_severity, severity_levels, index_of, keeps_run, run_severity, environment_of,
  parse_time_range_param,
}

abbrev finished_run : Value
finished_run = obj (field "status" (str "succeeded") (field "highest_severity" (str "high") end))

abbrev runs : List Value
runs = finished_run ∷ obj (field "status" (str "running") end) ∷ []

abbrev stored : Value
stored = obj (field "density" (str "compact") (field "effects" (num (whole (pos 3))) end))

abbrev normal : Preferences
normal = record { density = "compact"; contrast = "standard"; effects = "full" }

normalized : normalize_display_preferences stored ≡ some normal
unfolding normalize_display_preferences
normalized = refl

normalize_display_preferences_stable_example :
    AreOptions normal × (normalize_display_preferences (stored_value normal) ≡ some normal)
normalize_display_preferences_stable_example =
    normalize_display_preferences_stable stored normal normalized

bootstrap_preferences_agree_example :
    AreOptions (bootstrap_preferences (absent true false))
    × (bootstrap_preferences (parsed stored) ≡ normal)
bootstrap_preferences_agree_example =
    bootstrap_preferences_agree (absent true false) stored normal normalized

abbrev page : PageRequest
page = record { method = "GET"; pathname = "/shore-sentinel/inventory"; session = "" }

middleware-IsGuardedPage_example :
    IsGuardedPage page
      (without_base_path "/shore-sentinel" "/shore-sentinel/inventory")
      (middleware "/shore-sentinel" page)
middleware-IsGuardedPage_example = middleware-IsGuardedPage "/shore-sentinel" page

abbrev request : Incoming
request = record {
  method = "DELETE";
  cookie = "shore_session=1";
  authorization = "";
  content_type = "";
  body = some "";
}

-- An API that knows every caller as an administrator.
abbrev api : Call → Answer
api call =
    answered 200 "application/json" "" (some "{}")
      (some (obj (field "roles" (arr (cons (str "admin") nil)) end)))

proxy_target-IsTargetCall_example :
    All
      (λ call.
        (call ≡ identity_call "http://api" request)
        ⊎ IsTargetCall plain api "http://api" request ("t1" ∷ []) call)
      (proxy_target_request plain api "http://api" request ("t1" ∷ [])).calls
proxy_target-IsTargetCall_example =
    proxy_target-IsTargetCall plain api "http://api" request ("t1" ∷ [])

get_scan_run_guarded_example :
    All
      (λ call.
        (call ≡ identity_call "http://api" request)
        ⊎ ((call ≡ run_call "http://api" request (encoded_path plain ("r1" ∷ "events" ∷ [])))
            × (allowed_path ("r1" ∷ "events" ∷ []) ≡ true)
            × IsAuthorized plain api "http://api" read_roles request))
      (get_scan_run plain api "http://api" request ("r1" ∷ "events" ∷ [])).calls
get_scan_run_guarded_example =
    get_scan_run_guarded plain api "http://api" request ("r1" ∷ "events" ∷ [])

mutations-IsGuarded_example :
    All
      (IsGuarded plain api "http://api" request edit_roles
        (IsCancellation plain "http://api" request (str "r1")))
      (post_cancel plain api "http://api" request (str "r1")).calls
    × All
        (IsGuarded plain api "http://api" request create_roles
          (IsEnrollment plain "http://api" request (some (("status", str "open") ∷ []))))
        (post_target plain api "http://api" "/base" request
          (some (("status", str "open") ∷ []))).calls
    × All
        (IsGuarded plain api "http://api" request status_roles
          (IsStatusChange plain "http://api" request "m1" (some (("status", str "open") ∷ []))))
        (post_remediation_status plain api "http://api" "/base" request "m1"
          (some (("status", str "open") ∷ []))).calls
mutations-IsGuarded_example =
    mutations-IsGuarded plain api "http://api" request (str "r1") "/base" "m1"
      (some (("status", str "open") ∷ []))

allowed_roles-MayUse_example : MayUse "PATCH" ("admin" ∷ "operator" ∷ [])
unfolding allowed_roles
allowed_roles-MayUse_example =
    allowed_roles-MayUse "PATCH" ("t1" ∷ []) ("admin" ∷ "operator" ∷ []) refl

in_order :
    index_of severity_levels (normalize_severity plain (str "high"))
    ≤ index_of severity_levels (normalize_severity plain (str "low"))
unfolding normalize_severity
in_order = omega arith

kept : keeps_run plain 0 undef (str "high") undef undef finished_run ≡ true
unfolding keeps_run normalize_severity run_severity environment_of parse_time_range_param
kept = refl
