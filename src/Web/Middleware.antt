-- ===== src/Web/Middleware.antt =====
-- web/middleware.js: who sees a page, and what browsers may keep of it.
pub mod Laws
use Prim.Native.String.{◌++◌}
use shore_sentinel_app.Base.{
  ℕ, String, Bool, true, false, not, ◌&&◌, ◌||◌, Option, none, some, List, [], ◌∷◌, any, str_eq,
  starts_with, if◌then◌else◌,
}

-- What the middleware reads of a request; a missing session cookie is the empty text.
pub record PageRequest : Type 0 where
  pub method : String
  pub pathname : String
  pub session : String

-- Names of headers with their values, in the order in which they are set.
abbrev pub Headers : Type 0
Headers = List (String × String)

-- A rewriting to a path of the API, a redirection to a path of the site, or the page itself, each
-- with the headers that the middleware sets on the response.
pub data PageResponse : Type 0 where
  rewritten : (pathname : String) → Headers → PageResponse
  redirected : (status : ℕ) (pathname : String) → Headers → PageResponse
  passed : Headers → PageResponse

abbrev pub no_store : String × String
no_store = ("Cache-Control", "no-store, max-age=0, must-revalidate")

abbrev pub clear_cache : String × String
clear_cache = ("Clear-Site-Data", "\"cache\"")

-- `authPageToApi.get`.
abbrev pub auth_page_to_api : String → Option String
auth_page_to_api pathname =
    if str_eq pathname "/auth/login"
    then some "/api/auth/login"
    else if str_eq pathname "/auth/register"
    then some "/api/auth/register"
    else none

-- `PUBLIC_PATH_PREFIXES`.
abbrev pub public_path_prefixes : List String
public_path_prefixes =
    "/auth/" ∷ "/api/auth/" ∷ "/_next/" ∷ "/shore-sentinel-logo" ∷ "/favicon" ∷ []

-- `text.slice(prefix.length)`.
abbrev pub slice_after : String → String → String
slice_after String.[] s = s
slice_after (String.◌∷◌ c p) String.[] = String.[]
slice_after (String.◌∷◌ c p) (String.◌∷◌ d s) = slice_after p s

-- `withoutBasePath`, for the value of `basePath()`.
unfoldable pub without_base_path : String → String → String
without_base_path base pathname =
    if not (str_eq base "/") && starts_with pathname (base ++ "/")
    then slice_after base pathname
    else if not (str_eq base "/") && str_eq pathname base
    then "/"
    else pathname

-- `isPublicPath`.
unfoldable pub is_public_path : String → Bool
is_public_path pathname =
    if str_eq pathname "/" || str_eq pathname "/auth/login" || str_eq pathname "/auth/register"
    then true
    else any (starts_with pathname) public_path_prefixes

-- From `hasSession` on.
abbrev pub guard_page : PageRequest → String → PageResponse
guard_page request pathname =
    let has_session = not (str_eq request.session "") in
    if not has_session && not (is_public_path pathname)
    then redirected 303 "/" (no_store ∷ [])
    else passed (
        if str_eq pathname "/" || starts_with pathname "/auth/" || not has_session
        then no_store ∷ clear_cache ∷ []
        else [])

abbrev pub answer_page : PageRequest → String → PageResponse
answer_page request pathname = elim (auth_page_to_api pathname) [
  | none ↦ guard_page request pathname
  | some api_path ↦
      if str_eq request.method "POST" then rewritten api_path [] else guard_page request pathname
]

-- `middleware`.
unfoldable pub middleware : String → PageRequest → PageResponse
middleware base request = answer_page request (without_base_path base request.pathname)
