-- ===== src/Api/Storage.antt =====
-- api/src/artifact.service.ts: the names of the objects in the artifact store.
pub mod Laws
use Prim.Native.String.{◌++◌}
use shore_sentinel_app.Base.{
  ℕ, String, Bool, true, false, not, ◌&&◌, ◌||◌, Option, none, some, List, [], ◌∷◌, any, ltb, ◌==◌,
  str_eq, starts_with, codes, split_on, if◌then◌else◌,
}
use shore_sentinel_app.Value.{Value, str, is_object, is_number, get}
use shore_sentinel_app.Api.Validation.{is_invalid_code}

-- `text.slice(prefix.length)` of a text that starts with the prefix.
abbrev pub after_prefix : (prefix text : String) → String
after_prefix String.[] text = text
after_prefix (String.◌∷◌ p prefix) String.[] = ""
after_prefix (String.◌∷◌ p prefix) (String.◌∷◌ c text) = after_prefix prefix text

-- The prefix of the objects of a bucket.
abbrev pub bucket_prefix : String → String
bucket_prefix bucket = "s3://" ++ bucket ++ "/"

-- `prepare`, for the bucket and `randomUUID()`.
unfoldable pub prepare : (bucket run_id artifact_type uuid : String) → String × String
prepare bucket run_id artifact_type uuid =
    let extension = if str_eq artifact_type "markdown" then "md" else artifact_type in
    let object_key = "runs/" ++ run_id ++ "/" ++ uuid ++ "." ++ extension in
    (object_key, bucket_prefix bucket ++ object_key)

-- A part of a key that is refused.
abbrev pub is_bad_part : String → Bool
is_bad_part part =
    str_eq part "" || str_eq part "." || str_eq part ".." || any is_invalid_code (codes part)

-- `objectKey`, none where it throws.
unfoldable pub object_key : (bucket storage_uri : String) → Option String
object_key bucket storage_uri =
    if not (starts_with storage_uri (bucket_prefix bucket))
    then none
    else let key = after_prefix (bucket_prefix bucket) storage_uri in
      if str_eq key "" || starts_with key "/" || any is_bad_part (split_on b'/' key)
      then none
      else some key

abbrev pub is_text_of : String → Value → Bool
is_text_of text (str s) = str_eq s text
is_text_of text _ = false

-- `isAlreadyMissing`, for the error of the object store.
unfoldable pub is_already_missing : Value → Bool
is_already_missing error =
    is_object error
    && (is_text_of "NoSuchKey" (get "name" error)
        || is_text_of "NotFound" (get "name" error)
        || is_text_of "NoSuchKey" (get "Code" error)
        || is_text_of "NoSuchKey" (get "code" error)
        || is_number 404 (get "httpStatusCode" (get "$metadata" error)))
