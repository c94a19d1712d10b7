-- ===== src/Web/Proxy/Mutations.antt =====
-- web/app/api/scan-runs/[id]/cancel, remediations/[id]/status and targets (route.js each): the
-- routes that change one thing.
use Prim.Native.String.{◌++◌}
use shore_sentinel_app.Base.{
  String, not, ◌||◌, Option, none, some, List, [], ◌∷◌, str_eq, if◌then◌else◌,
}
use shore_sentinel_app.Value.{
  Value, undef, null, str, obj, Fields, end, field, get, is_text, text_of, nullish,
}
use shore_sentinel_app.Runtime.{Runtime, text_from, Serialized, text, nothing, throws}
use shore_sentinel_app.Web.Paths.{app_path}
use shore_sentinel_app.Web.Proxy.{
  Incoming, Call, Answer, unreachable, answered, Reply, message, redirected, rejected, Outcome,
  at_once, after, is_ok, authorize, edit_refusal, forward,
}

abbrev pub edit_roles : List String
edit_roles = "admin" ∷ "operator" ∷ []

-- `CREATE_ROLES` of the enrollment.
abbrev pub create_roles : List String
create_roles = "admin" ∷ "operator" ∷ []

abbrev pub status_roles : List String
status_roles = "admin" ∷ "operator" ∷ "analyst" ∷ []

abbrev pub auth_unavailable : Reply
auth_unavailable = message 503 "Authorization service unavailable"

-- A call with the caller's credentials.
abbrev pub credentialed : String → String → String → Incoming → Option String → Call
credentialed method url content_type request body = record {
  method = method;
  url = url;
  cookie = request.cookie;
  authorization = request.authorization;
  content_type = content_type;
  body = body;
}

-- The cancellation's `POST`, with `params?.id`.
abbrev pub cancel_call : Runtime → String → Incoming → String → Call
cancel_call rt base request run_id =
    credentialed "POST" (base ++ "/scan-runs/" ++ rt.encode run_id ++ "/cancel") "" request none

unfoldable pub post_cancel : Runtime → (Call → Answer) → String → Incoming → Value → Outcome
post_cancel rt fetch base request id =
    authorize rt fetch base edit_refusal auth_unavailable edit_roles request (
      let run_id = text_of id in
      if str_eq run_id ""
      then at_once (message 400 "Scan run is required")
      else forward fetch (message 503 "Scan cancellation service unavailable")
          (cancel_call rt base request run_id))

-- The entries of a form: texts, and files as objects.
abbrev pub Form : Type 0
Form = List (String × Value)

-- `formData.get(name)`.
abbrev pub form_value : String → Form → Value
form_value name [] = null
form_value name ((k, v) ∷ rest) = if str_eq k name then v else form_value name rest

abbrev pub status_call : String → Incoming → String → Option String → Call
status_call base request id body =
    credentialed "PATCH" (base ++ "/remediations/" ++ id ++ "/status") "application/json" request
      body

-- `new Response(null, { status: 303, headers: { location: appPath(path) } })`.
abbrev pub see : String → String → Reply
see web_base path = redirected (app_path web_base path) ""

-- What the API's answer to a form's call leads to.
abbrev pub see_status : String → String → Answer → Reply
see_status web_base id unreachable = see web_base ("/remediation/" ++ id ++ "?status=unavailable")
see_status web_base id (answered status content_type set_cookie body json) =
    if is_ok status
    then see web_base ("/remediation/" ++ id)
    else see web_base ("/remediation/" ++ id ++ "?status=failed")

-- A call with a JSON body: serialising it stands inside the `try`.
abbrev pub send_json :
    (Call → Answer) → (Answer → Reply) → (Option String → Call) → Serialized → Outcome
send_json fetch reply call (text body) =
    after (call (some body)) (at_once (reply (fetch (call (some body)))))
send_json fetch reply call nothing = after (call none) (at_once (reply (fetch (call none))))
send_json fetch reply call throws = at_once (reply unreachable)

-- The remediation's `POST`; the form is `none` where reading it throws.
abbrev pub post_status_form :
    Runtime → (Call → Answer) → String → String → Incoming → String → Option Form → Outcome
post_status_form rt fetch base web_base request id none = at_once rejected
post_status_form rt fetch base web_base request id (some form) =
    let status = form_value "status" form in
    if not (is_text status) || str_eq (rt.trim (text_of status)) "" || str_eq id ""
    then at_once (see web_base ("/remediation/" ++ id ++ "?status=failed"))
    else send_json fetch (see_status web_base id) (status_call base request id)
        (rt.stringify (obj (field "status" status end)))

unfoldable pub post_remediation_status :
    Runtime → (Call → Answer) → String → String → Incoming → String → Option Form → Outcome
post_remediation_status rt fetch base web_base request id form =
    authorize rt fetch base edit_refusal auth_unavailable status_roles request
      (post_status_form rt fetch base web_base request id form)

-- `Object.fromEntries`: a later entry replaces the value of an earlier one of its name.
abbrev pub set_field : String → Value → Fields → Fields
set_field k v end = field k v end
set_field k v (field j w fs) =
    let rest = set_field k v fs in if str_eq j k then field j v fs else field j w rest

abbrev pub from_entries_onto : Fields → Form → Fields
from_entries_onto acc [] = acc
from_entries_onto acc ((k, v) ∷ rest) = from_entries_onto (set_field k v acc) rest

abbrev pub blank_to_null : Value → Value
blank_to_null (str s) = if str_eq s "" then null else str s
blank_to_null undef = undef
blank_to_null v = v

abbrev pub blanks_to_null : Fields → Fields
blanks_to_null end = end
blanks_to_null (field k v fs) = field k (blank_to_null v) (blanks_to_null fs)

-- `coercePayload`.
unfoldable pub coerce_payload : Form → Fields
coerce_payload form = blanks_to_null (from_entries_onto end form)

abbrev pub enrollment_call : String → Incoming → Option String → Call
enrollment_call base request body =
    credentialed "POST" (base ++ "/targets") "application/json" request body

abbrev pub creation_unavailable : String → Reply
creation_unavailable web_base = see web_base "/inventory/new?create=unavailable"

-- Reading `id` of null or undefined throws.
abbrev pub see_created : Runtime → String → Value → Reply
see_created rt web_base created =
    if nullish created
    then creation_unavailable web_base
    else let id = get "id" created in
      see web_base ("/inventory/machines/" ++ (if nullish id then "" else text_from rt id))

abbrev pub see_creation : Runtime → String → Answer → Reply
see_creation rt web_base unreachable = creation_unavailable web_base
see_creation rt web_base (answered status content_type set_cookie body json) =
    if not (is_ok status) then see web_base "/inventory/new?create=failed" else elim json [
      | none ↦ creation_unavailable web_base
      | some created ↦ see_created rt web_base created
    ]

abbrev pub post_enrollment_form :
    Runtime → (Call → Answer) → String → String → Incoming → Option Form → Outcome
post_enrollment_form rt fetch base web_base request none = at_once rejected
post_enrollment_form rt fetch base web_base request (some form) =
    send_json fetch (see_creation rt web_base) (enrollment_call base request)
      (rt.stringify (obj (coerce_payload form)))

-- The enrollment's `POST`.
unfoldable pub post_target :
    Runtime → (Call → Answer) → String → String → Incoming → Option Form → Outcome
post_target rt fetch base web_base request form =
    authorize rt fetch base edit_refusal auth_unavailable create_roles request
      (post_enrollment_form rt fetch base web_base request form)
