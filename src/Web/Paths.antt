-- ===== src/Web/Paths.antt =====
-- web/lib/paths.js: the links of the pages under the base path, and the texts they are built from.
use Prim.Native.String.{◌++◌}
use Prim.Native.Char.{code}
use shore_sentinel_app.Base.{
  String, Bool, not, ◌&&◌, ◌||◌, [], ◌∷◌, any, str_eq, ◌==◌, starts_with, if◌then◌else◌,
}

-- `text.replace(/\/$/, '')`.
abbrev pub drop_final_slash : String → String
drop_final_slash String.[] = String.[]
drop_final_slash (String.◌∷◌ c String.[]) =
    if code c == b'/' then String.[] else String.◌∷◌ c String.[]
drop_final_slash (String.◌∷◌ c (String.◌∷◌ d s)) = String.◌∷◌ c (drop_final_slash (String.◌∷◌ d s))

-- `basePath`, from the environment's text (empty if it is not set).
unfoldable pub base_path : String → String
base_path variable =
    let raw_base_path = if str_eq variable "" then "/shore-sentinel" else variable in
    if str_eq raw_base_path "/" then "" else drop_final_slash raw_base_path

-- `/^(https?:|mailto:|#)/.test(path)`.
abbrev pub is_external : String → Bool
is_external path = any (starts_with path) ("http:" ∷ "https:" ∷ "mailto:" ∷ "#" ∷ [])

-- `appPath`, for a text; a missing argument is the text `/`.
unfoldable pub app_path : String → String → String
app_path base path =
    if str_eq path "" || str_eq path "/"
    then base ++ "/"
    else if is_external path
    then path
    else let normalized = if starts_with path "/" then path else "/" ++ path in
      if not (str_eq base "") && starts_with normalized (base ++ "/")
      then normalized
      else base ++ normalized

-- `routePath`.
unfoldable pub route_path : String → String
route_path path =
    if str_eq path "" || str_eq path "/"
    then "/"
    else if is_external path
    then path
    else if starts_with path "/"
    then path
    else "/" ++ path
