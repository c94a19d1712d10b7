-- ===== src/Web/Middleware/Laws.antt =====
-- Which pages the middleware of web/middleware.js shows to whom, and what may be stored of them.
use shore_sentinel_app.Base.{
  String, Bool, true, false, not, ◌&&◌, ◌||◌, ◌≡◌, refl, sym, ◌∙◌, [], ◌∷◌, str_eq, ◌==◌,
  starts_with, Bool-cases, inl, inr, arith, if◌then◌else◌,
}
use shore_sentinel_app.Web.Middleware.{
  PageRequest, Headers, PageResponse, rewritten, redirected, passed, no_store, clear_cache,
  without_base_path, is_public_path, auth_page_to_api, guard_page, answer_page, middleware,
}

-- The value of a header, empty where it is not set.
abbrev pub header : String → Headers → String
header name [] = ""
header name ((k, v) ∷ rest) = if str_eq k name then v else header name rest

abbrev pub headers_of : PageResponse → Headers
headers_of (rewritten pathname headers) = headers
headers_of (redirected status pathname headers) = headers
headers_of (passed headers) = headers

-- Whether a response is a rewriting, a redirection to the home page, or tells a browser not to
-- store it, or to drop what it has stored of the site.
abbrev pub is_rewritten : PageResponse → Bool
is_rewritten (rewritten pathname headers) = true
is_rewritten _ = false

abbrev pub is_sent_home : PageResponse → Bool
is_sent_home (redirected status pathname headers) = status == 303 && str_eq pathname "/"
is_sent_home _ = false

abbrev pub forbids_storing : PageResponse → Bool
forbids_storing response = starts_with (header "Cache-Control" (headers_of response)) "no-store"

abbrev pub clears_storage : PageResponse → Bool
clears_storage response = str_eq (header "Clear-Site-Data" (headers_of response)) "\"cache\""

-- The pages whose forms the middleware hands to the API.
abbrev pub takes_form : String → Bool
takes_form pathname = str_eq pathname "/auth/login" || str_eq pathname "/auth/register"

-- The laws of a response to a request for a page.
pub record IsGuardedPage (request : PageRequest) (pathname : String) (response : PageResponse)
    : Type 0 where
  pub rewrites : is_rewritten response ≡ (str_eq request.method "POST" && takes_form pathname)
  pub sends_home :
      is_sent_home response ≡ (str_eq request.session "" && not (is_public_path pathname))
  pub stores : forbids_storing response ≡ (
      not (is_rewritten response)
      && (str_eq request.session "" || str_eq pathname "/" || starts_with pathname "/auth/"))
  pub clears : clears_storage response ≡ (forbids_storing response && not (is_sent_home response))

-- Those of a response of `guard_page`, by what it tests: whether the session is missing, the page
-- public, the home page, or one under /auth/.
record IsGuarded (missing public home auth : Bool) (response : PageResponse) : Type 0 where
  rewrites : is_rewritten response ≡ false
  sends_home : is_sent_home response ≡ (missing && not public)
  stores : forbids_storing response ≡ (missing || home || auth)
  clears : clears_storage response ≡ (forbids_storing response && not (is_sent_home response))

abbrev guard_by : (missing public home auth : Bool) → PageResponse
guard_by missing public home auth =
    let has_session = not missing in
    if not has_session && not public
    then redirected 303 "/" (no_store ∷ [])
    else passed (if home || auth || not has_session then no_store ∷ clear_cache ∷ [] else [])

guard_by-IsGuarded :
    (missing public home auth : Bool)
    → IsGuarded missing public home auth (guard_by missing public home auth)
guard_by-IsGuarded true false home auth = record {
  rewrites = refl;
  sends_home = refl;
  stores = refl;
  clears = refl;
}
guard_by-IsGuarded true true true auth = record {
  rewrites = refl;
  sends_home = refl;
  stores = refl;
  clears = refl;
}
guard_by-IsGuarded true true false true = record {
  rewrites = refl;
  sends_home = refl;
  stores = refl;
  clears = refl;
}
guard_by-IsGuarded true true false false = record {
  rewrites = refl;
  sends_home = refl;
  stores = refl;
  clears = refl;
}
guard_by-IsGuarded false public true auth = record {
  rewrites = refl;
  sends_home = refl;
  stores = refl;
  clears = refl;
}
guard_by-IsGuarded false public false true = record {
  rewrites = refl;
  sends_home = refl;
  stores = refl;
  clears = refl;
}
guard_by-IsGuarded false public false false = record {
  rewrites = refl;
  sends_home = refl;
  stores = refl;
  clears = refl;
}

guard_page-IsGuarded :
    (request : PageRequest) (pathname : String)
    → IsGuarded
        (str_eq request.session "")
        (is_public_path pathname)
        (str_eq pathname "/")
        (starts_with pathname "/auth/")
        (guard_page request pathname)
guard_page-IsGuarded request pathname =
    guard_by-IsGuarded (str_eq request.session "") (is_public_path pathname) (str_eq pathname "/")
      (starts_with pathname "/auth/")

and_false : (b : Bool) → (b && false) ≡ false
and_false true = refl
and_false false = refl

-- A page that `guard_page` answers.
guarded-IsGuardedPage :
    (request : PageRequest) (pathname : String)
    → (str_eq request.method "POST" && takes_form pathname) ≡ false
    → IsGuardedPage request pathname (guard_page request pathname)
guarded-IsGuardedPage request pathname unposted =
    let h = guard_page-IsGuarded request pathname in
    record {
      rewrites = h.rewrites ∙ sym unposted;
      sends_home = h.sends_home;
      stores = rw h.rewrites h.stores;
      clears = h.clears;
    }

takes_form-public :
    (pathname : String) → takes_form pathname ≡ true → is_public_path pathname ≡ true
unfolding is_public_path
takes_form-public pathname h = ground arith

-- A form that is handed to the API.
rewritten-IsGuardedPage :
    (request : PageRequest) (pathname api_path : String)
    → takes_form pathname ≡ true
    → IsGuardedPage request pathname (
        if str_eq request.method "POST" then rewritten api_path [] else guard_page request pathname)
rewritten-IsGuardedPage request pathname api_path form =
    elim (Bool-cases (str_eq request.method "POST")) [
      | inr other ↦ simp other (guarded-IsGuardedPage request pathname (rw other refl))
      | inl post ↦ rw post (record {
        rewrites = rw (post, form) refl;
        sends_home =
            rw (takes_form-public pathname form) (sym (and_false (str_eq request.session "")));
        stores = refl;
        clears = refl;
      })
    ]

answer_page-IsGuardedPage :
    (request : PageRequest) (pathname : String)
    → IsGuardedPage request pathname (answer_page request pathname)
answer_page-IsGuardedPage request pathname = elim (Bool-cases (str_eq pathname "/auth/login")) [
  | inl login ↦
      rw (answer_page, auth_page_to_api, login)
        (rewritten-IsGuardedPage request pathname "/api/auth/login" (rw login refl))
  | inr no_login ↦ elim (Bool-cases (str_eq pathname "/auth/register")) [
    | inl register ↦
        rw (answer_page, auth_page_to_api, no_login, register)
          (rewritten-IsGuardedPage request pathname "/api/auth/register"
            (rw (no_login, register) refl))
    | inr no_register ↦
        rw (answer_page, auth_page_to_api, no_login, no_register)
          (guarded-IsGuardedPage request pathname
            (rw (no_login, no_register) (and_false (str_eq request.method "POST"))))
  ]
]

-- A request is rewritten exactly if it posts the form of the login or the registration. A visitor is
-- sent to the home page exactly when there is no session and the page, without the base path, is not
-- public. A response forbids storing exactly if it is no rewriting and there is no session or the
-- page is the home page or below /auth/. It tells the browser to drop what is stored exactly if it
-- forbids storing and does not send the visitor home.
pub middleware-IsGuardedPage :
    (base : String) (request : PageRequest)
    → IsGuardedPage request (without_base_path base request.pathname) (middleware base request)
unfolding middleware
middleware-IsGuardedPage base request =
    answer_page-IsGuardedPage request (without_base_path base request.pathname)
