-- ===== src/Web/Proxy/Laws.antt =====
-- Which calls the proxies of web/app/api make for which callers.
use shore_sentinel_app.Base.{
  String, Bool, true, false, not, ◌||◌, ◌≡◌, refl, sym, ap, ◌∙◌, ◌⊎◌, inl, inr, Option, none, some,
  List, [], ◌∷◌, All, one_of, str_eq, Bool-cases, Option-cases, if◌then◌else◌,
}
use shore_sentinel_app.Value.{Value, undef, str, obj, end, field, is_text, text_of}
use shore_sentinel_app.Runtime.{Runtime, Serialized, text, nothing, throws}
use shore_sentinel_app.Web.Proxy.{
  Incoming, Call, Answer, Reply, message, Outcome, at_once, identity_call, read_refusal,
  edit_refusal, forward,
}
use shore_sentinel_app.Web.Proxy.Targets.{
  allowed_roles, encoded_path, target_call, send_target, proxy_target_request,
}
use shore_sentinel_app.Web.Proxy.ScanRuns.{
  allowed_path, read_roles, run_call, progress_unavailable, get_scan_run,
}
use shore_sentinel_app.Web.Proxy.Mutations.{
  Form, edit_roles, create_roles, status_roles, auth_unavailable, cancel_call, status_call,
  enrollment_call, send_json, post_cancel, form_value, see_status, see_creation, coerce_payload,
  post_status_form, post_remediation_status, post_enrollment_form, post_target,
}
use shore_sentinel_app.Web.Proxy.Authorized.{IsAuthorized, authorize-calls}
use shore_sentinel_app.Web.Proxy.Contract.{
  IsSent, IsPassedOn, IsCancellation, body_of, IsEnrollment, IsStatusChange,
}
use shore_sentinel_app.Web.Proxy.Forms.{coerce_payload-AreFormFields}

-- A text stays itself.
a_text : (v : Value) → not (is_text v) ≡ false → v ≡ str (text_of v)
a_text (str s) h = refl
a_text undef h = cc h
a_text _ h = cc h

or_false_left : (a b : Bool) → (a || b) ≡ false → a ≡ false
or_false_left true b h = cc h
or_false_left false b h = refl

or_false_right : (a b : Bool) → (a || b) ≡ false → b ≡ false
or_false_right true b h = cc h
or_false_right false b h = h

IsSent-of_fields :
    (request : Incoming) (method url content_type : String) (body : Option String)
    → IsSent request method url content_type (record {
      method = method;
      url = url;
      cookie = request.cookie;
      authorization = request.authorization;
      content_type = content_type;
      body = body;
    })
IsSent-of_fields request method url content_type body = record {
  same_method = refl;
  same_url = refl;
  same_content_type = refl;
  same_cookie = refl;
  same_authorization = refl;
}

module _ (rt : Runtime) (fetch : Call → Answer) (base : String) (request : Incoming) where
  -- The call of the targets' proxy: the request passed on, for a caller who may.
  pub record IsTargetCall (segments : List String) (call : Call) : Type 0 where
    pub roles : List String
    pub allowed : allowed_roles request.method segments ≡ some roles
    pub authorized : IsAuthorized rt fetch base roles request
    pub passed_on : IsPassedOn rt base request segments call

  send_target-calls :
      (segments roles : List String)
      → allowed_roles request.method segments ≡ some roles
      → IsAuthorized rt fetch base roles request
      → All
          (λ call. (call ≡ identity_call base request) ⊎ IsTargetCall segments call)
          (send_target fetch base request (encoded_path rt segments)).calls
  send_target-calls segments roles allowed h =
      let is_call : (b : Option String)
          → b ≡ (if one_of ("GET" ∷ "HEAD" ∷ []) request.method then none else request.body)
          → IsTargetCall segments (target_call base request (encoded_path rt segments) b) =
        λ b e. record {
          roles = roles;
          allowed = allowed;
          authorized = h;
          passed_on = (IsSent-of_fields request _ _ _ _, e);
        } in
      elim (Bool-cases (one_of ("GET" ∷ "HEAD" ∷ []) request.method)) [
        | inl read ↦ rw read (inr (is_call none (rw read refl)), tt)
        | inr write ↦ elim (Option-cases request.body) [
          | inl broken ↦ simp (write, broken) tt
          | inr (body, e) ↦ simp (write, e) (inr (is_call (some body) (rw (write, e) refl)), tt)
        ]
      ]

  -- Every call that the targets' proxy makes is the identity call, or the caller's own request
  -- passed on, with its method, path, credentials, content type and body, where only GET and HEAD
  -- have none: then its method and path are among the allowed ones, and the API answered the
  -- identity call with a user who holds a role that is allowed for them.
  pub proxy_target-IsTargetCall :
      (segments : List String)
      → All
          (λ call. (call ≡ identity_call base request) ⊎ IsTargetCall segments call)
          (proxy_target_request rt fetch base request segments).calls
  unfolding proxy_target_request
  proxy_target-IsTargetCall segments = elim (Bool-cases (str_eq (encoded_path rt segments) "")) [
    | inl nowhere ↦ rw nowhere tt
    | inr somewhere ↦ elim (Option-cases (allowed_roles request.method segments)) [
      | inl never ↦ rw (somewhere, never) tt
      | inr (roles, allowed) ↦
          rw (somewhere, allowed)
            (authorize-calls rt fetch base request
              (λ call. (call ≡ identity_call base request) ⊎ IsTargetCall segments call)
              read_refusal (message 503 "Authorization service unavailable") roles
              (send_target fetch base request (encoded_path rt segments)) (inl refl)
              (send_target-calls segments roles allowed))
    ]
  ]

  -- Every call of the progress route is the identity call, or the reading of the run asked for, on
  -- an allowed path and for a user with a role that may read.
  pub get_scan_run_guarded :
      (segments : List String)
      → All
          (λ call.
            (call ≡ identity_call base request)
            ⊎ ((call ≡ run_call base request (encoded_path rt segments))
                × (allowed_path segments ≡ true)
                × IsAuthorized rt fetch base read_roles request))
          (get_scan_run rt fetch base request segments).calls
  unfolding get_scan_run
  get_scan_run_guarded segments = elim (Bool-cases (str_eq (encoded_path rt segments) "")) [
    | inl nowhere ↦ rw nowhere tt
    | inr somewhere ↦ elim (Bool-cases (allowed_path segments)) [
      | inr never ↦ rw (somewhere, never) tt
      | inl allowed ↦
          rw (somewhere, allowed)
            (authorize-calls rt fetch base request
              (λ call.
                (call ≡ identity_call base request)
                ⊎ ((call ≡ run_call base request (encoded_path rt segments))
                    × (true ≡ true)
                    × IsAuthorized rt fetch base read_roles request))
              read_refusal progress_unavailable read_roles
              (forward fetch progress_unavailable
                (run_call base request (encoded_path rt segments)))
              (inl refl) (λ h. (inr (refl, refl, h), tt)))
    ]
  ]

  -- The part of the cancellation after the check of the caller.
  abbrev cancel : Value → Outcome
  cancel id =
      if str_eq (text_of id) ""
      then at_once (message 400 "Scan run is required")
      else forward fetch (message 503 "Scan cancellation service unavailable")
          (cancel_call rt base request (text_of id))

  cancel-calls :
      (id : Value) (P : Call → Type 0)
      → ((call : Call) → IsCancellation rt base request id call → P call)
      → All P (cancel id).calls
  cancel-calls id P h = elim (Bool-cases (str_eq (text_of id) "")) [
    | inl missing ↦ rw missing tt
    | inr given ↦
        let made =
          h (cancel_call rt base request (text_of id))
            (IsSent-of_fields request _ _ _ _, refl, given) in
        rw given (made, tt)
  ]

  send_json-calls :
      (P : Call → Type 0) (reply : Answer → Reply) (call : Option String → Call) (body : Serialized)
      → ((b : Option String) → body_of body ≡ some b → P (call b))
      → All P (send_json fetch reply call body).calls
  send_json-calls P reply call (text s) h = (h (some s) refl, tt)
  send_json-calls P reply call nothing h = (h none refl, tt)
  send_json-calls P reply call throws h = tt

  post_status_form-calls :
      (web_base id : String) (form : Option Form) (P : Call → Type 0)
      → ((call : Call) → IsStatusChange rt base request id form call → P call)
      → All P (post_status_form rt fetch base web_base request id form).calls
  post_status_form-calls web_base id none P h = tt
  post_status_form-calls web_base id (some form) P h =
      let status = form_value "status" form in
      elim (Bool-cases
        (not (is_text status) || str_eq (rt.trim (text_of status)) "" || str_eq id "")) [
          | inl unfit ↦ simp unfit tt
          | inr fit ↦
              let known = a_text status (or_false_left _ _ (or_false_left _ _ fit)) in
              simp fit (
                send_json-calls P (see_status web_base id) (status_call base request id)
                  (rt.stringify (obj (field "status" status end)))
                  (λ b e. h (status_call base request id b) (record {
                    sent = IsSent-of_fields request _ _ _ _;
                    named = or_false_right _ _ fit;
                    entries = form;
                    given = refl;
                    status = text_of status;
                    asked = known;
                    filled = or_false_right _ _ (or_false_left _ _ fit);
                    serialized =
                        ap (λ v. body_of (rt.stringify (obj (field "status" v end)))) (sym known)
                        ∙ e;
                  })))
        ]

  post_enrollment_form-calls :
      (web_base : String) (form : Option Form) (P : Call → Type 0)
      → ((call : Call) → IsEnrollment rt base request form call → P call)
      → All P (post_enrollment_form rt fetch base web_base request form).calls
  post_enrollment_form-calls web_base none P h = tt
  post_enrollment_form-calls web_base (some form) P h =
      send_json-calls P (see_creation rt web_base) (enrollment_call base request)
        (rt.stringify (obj (coerce_payload form)))
        (λ b e. h (enrollment_call base request b) (record {
          sent = IsSent-of_fields request _ _ _ _;
          entries = form;
          given = refl;
          fields = coerce_payload form;
          complete = coerce_payload-AreFormFields form;
          serialized = e;
        }))

  -- A call is the identity call, or one of a kind, for a caller who holds a role.
  abbrev pub IsGuarded : (List String) → (Call → Type 0) → Call → Type 0
  IsGuarded roles IsMade call =
      (call ≡ identity_call base request) ⊎ (IsMade call × IsAuthorized rt fetch base roles request)

  -- The cancellation calls nothing but the identity and the cancellation of the run named, without
  -- a body, and that for an administrator or an operator only. The enrollment of a machine calls
  -- nothing but the identity and, for the same roles, the creation with the fields of the form, the
  -- last value of each name and null for an empty one, as JSON. The change of a remediation's status
  -- calls nothing but the identity and, for an analyst too, the change of the remediation named to
  -- the text that the form has as its status, which is not blank.
  pub mutations-IsGuarded :
      (id : Value) (web_base remediation_id : String) (form : Option Form)
      → All
          (IsGuarded edit_roles (IsCancellation rt base request id))
          (post_cancel rt fetch base request id).calls
        × All
            (IsGuarded create_roles (IsEnrollment rt base request form))
            (post_target rt fetch base web_base request form).calls
        × All
            (IsGuarded status_roles (IsStatusChange rt base request remediation_id form))
            (post_remediation_status rt fetch base web_base request remediation_id form).calls
  unfolding post_cancel post_target post_remediation_status
  mutations-IsGuarded id web_base remediation_id form = (
    authorize-calls rt fetch base request (IsGuarded edit_roles (IsCancellation rt base request id))
        edit_refusal auth_unavailable edit_roles (cancel id) (inl refl)
        (λ h.
          cancel-calls id (IsGuarded edit_roles (IsCancellation rt base request id))
            (λ call made. inr (made, h))),
    authorize-calls rt fetch base request
        (IsGuarded create_roles (IsEnrollment rt base request form)) edit_refusal auth_unavailable
        create_roles (post_enrollment_form rt fetch base web_base request form) (inl refl)
        (λ h.
          post_enrollment_form-calls web_base form
            (IsGuarded create_roles (IsEnrollment rt base request form))
            (λ call made. inr (made, h))),
    authorize-calls rt fetch base request
        (IsGuarded status_roles (IsStatusChange rt base request remediation_id form)) edit_refusal
        auth_unavailable status_roles
        (post_status_form rt fetch base web_base request remediation_id form) (inl refl)
        (λ h.
          post_status_form-calls web_base remediation_id form
            (IsGuarded status_roles (IsStatusChange rt base request remediation_id form))
            (λ call made. inr (made, h))),
  )
