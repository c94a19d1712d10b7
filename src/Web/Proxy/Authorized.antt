-- ===== src/Web/Proxy/Authorized.antt =====
-- The check of the caller that the proxies of web/app/api have in common.
use shore_sentinel_app.Base.{
  ℕ, String, true, ◌≡◌, refl, inl, inr, Option, none, some, List, All, Bool-cases, Option-cases,
  arith,
}
use shore_sentinel_app.Value.{Value}
use shore_sentinel_app.Runtime.{Runtime}
use shore_sentinel_app.Web.Proxy.{
  Incoming, Call, Answer, unreachable, answered, Reply, Outcome, is_ok, identity_call, user_roles,
  shares_role, has_credentials, refusal, authorize,
}

-- The request names its caller, and the API answers that the caller holds one of the roles.
pub record IsAuthorized (rt : Runtime) (fetch : Call → Answer) (base : String) (roles : List String)
    (request : Incoming) : Type 0 where
  pub named : has_credentials request ≡ true
  pub status : ℕ
  pub content_type : String
  pub set_cookie : String
  pub body : Option String
  pub user : Value
  pub answer :
      fetch (identity_call base request) ≡ answered status content_type set_cookie body (some user)
  pub success : is_ok status ≡ true
  pub role : shares_role roles (user_roles rt user) ≡ true

module _ (rt : Runtime) (fetch : Call → Answer) (base : String) (request : Incoming) where
  refusal-none :
      (refuse : ℕ → Reply) (unavailable : Reply) (roles : List String) (a : Answer)
      → fetch (identity_call base request) ≡ a
      → has_credentials request ≡ true
      → refusal rt refuse unavailable roles a ≡ none
      → IsAuthorized rt fetch base roles request
  refusal-none refuse unavailable roles unreachable e named h = cc h
  refusal-none refuse unavailable roles (answered s t k b none) e named h = ground arith
  refusal-none refuse unavailable roles (answered s t k b (some user)) e named h =
      elim (Bool-cases (is_ok s)) [
        | inl ok ↦ elim (Bool-cases (shares_role roles (user_roles rt user))) [
          | inl role ↦ record {
            named = named;
            status = s;
            content_type = t;
            set_cookie = k;
            body = b;
            user = user;
            answer = e;
            success = ok;
            role = role;
          }
          | inr other ↦ ground arith
        ]
        | inr bad ↦ ground arith
      ]

  -- What holds of the calls of a route: of the identity call, and, for an authorised caller, of
  -- the calls that follow.
  pub authorize-calls :
      (P : Call → Type 0) (refuse : ℕ → Reply) (unavailable : Reply) (roles : List String)
      (next : Outcome)
      → P (identity_call base request)
      → (IsAuthorized rt fetch base roles request → All P next.calls)
      → All P (authorize rt fetch base refuse unavailable roles request next).calls
  unfolding authorize
  authorize-calls P refuse unavailable roles next p h =
      elim (Bool-cases (has_credentials request)) [
        | inl named ↦
            elim (Option-cases
              (refusal rt refuse unavailable roles (fetch (identity_call base request)))) [
                | inl pass ↦
                    rw (named, pass)
                      (
                        p,
                        h (
                            refusal-none refuse unavailable roles
                              (fetch (identity_call base request)) refl named pass),
                      )
                | inr (r, refused) ↦ rw (named, refused) (p, tt)
              ]
        | inr nameless ↦ rw nameless tt
      ]
