-- ===== src/Web/Proxy/Contract.antt =====
-- What the calls of the proxies of web/app/api have to be, written out field by field.
use Prim.Native.String.{◌++◌}
use shore_sentinel_app.Base.{
  String, false, ◌≡◌, Option, none, some, List, [], ◌∷◌, one_of, str_eq, if◌then◌else◌,
}
use shore_sentinel_app.Value.{Value, obj, str, Fields, end, field, text_of}
use shore_sentinel_app.Runtime.{Runtime, Serialized, text, nothing, throws}
use shore_sentinel_app.Web.Proxy.{Incoming, Call}
use shore_sentinel_app.Web.Proxy.Targets.{encoded_path}
use shore_sentinel_app.Web.Proxy.Mutations.{Form, form_value}
use shore_sentinel_app.Web.Proxy.Forms.{AreFormFields}

-- A call with the credentials of the caller.
pub record IsSent (request : Incoming) (method url content_type : String) (call : Call)
    : Type 0 where
  pub same_method : call.method ≡ method
  pub same_url : call.url ≡ url
  pub same_content_type : call.content_type ≡ content_type
  pub same_cookie : call.cookie ≡ request.cookie
  pub same_authorization : call.authorization ≡ request.authorization

-- The request passed on below a path of targets: the caller's method, content type and body, and no
-- body with a method that reads.
abbrev pub IsPassedOn : Runtime → String → Incoming → List String → Call → Type 0
IsPassedOn rt base request segments call =
    IsSent request request.method (base ++ "/targets/" ++ encoded_path rt segments)
      request.content_type call
    × (call.body ≡ (if one_of ("GET" ∷ "HEAD" ∷ []) request.method then none else request.body))

abbrev pub IsCancellation : Runtime → String → Incoming → Value → Call → Type 0
IsCancellation rt base request id call =
    IsSent request "POST" (base ++ "/scan-runs/" ++ rt.encode (text_of id) ++ "/cancel") "" call
    × (call.body ≡ none)
    × (str_eq (text_of id) "" ≡ false)

-- The body that a serialised value is sent as, unless serialising it throws.
abbrev pub body_of : Serialized → Option (Option String)
body_of (text s) = some (some s)
body_of nothing = some none
body_of throws = none

-- The fields of a form as JSON.
pub record IsEnrollment (rt : Runtime) (base : String) (request : Incoming) (form : Option Form)
    (call : Call) : Type 0 where
  pub sent : IsSent request "POST" (base ++ "/targets") "application/json" call
  pub entries : Form
  pub given : form ≡ some entries
  pub fields : Fields
  pub complete : AreFormFields entries fields
  pub serialized : body_of (rt.stringify (obj fields)) ≡ some call.body

-- The status of the form, a text that is not blank, as JSON.
pub record IsStatusChange (rt : Runtime) (base : String) (request : Incoming) (id : String)
    (form : Option Form) (call : Call) : Type 0 where
  pub sent :
      IsSent request "PATCH" (base ++ "/remediations/" ++ id ++ "/status") "application/json" call
  pub named : str_eq id "" ≡ false
  pub entries : Form
  pub given : form ≡ some entries
  pub status : String
  pub asked : form_value "status" entries ≡ str status
  pub filled : str_eq (rt.trim status) "" ≡ false
  pub serialized : body_of (rt.stringify (obj (field "status" (str status) end))) ≡ some call.body
