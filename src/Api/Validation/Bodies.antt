-- ===== src/Api/Validation/Bodies.antt =====
-- The bodies of artifacts that the server decodes, against the decoding of RFC 4648.
use shore_sentinel_app.Base.{ℕ, ◌≤◌, ◌≡◌, some, List, length}
use shore_sentinel_app.Api.Validation.{worker_artifact_max_bytes, encoded_length}
use shore_sentinel_app.Api.Validation.Decoding.{decoded}

-- What an accepted body is: the encoding of bytes, as many as the number returned, not none and no
-- more than the limit, without a character to spare.
pub record IsEncoded (cs : List ℕ) (n : ℕ) : Type 0 where
  pub bytes : List ℕ
  pub accepted : decoded cs ≡ some bytes
  pub counted : length bytes ≡ n
  pub not_empty : 1 ≤ n
  pub within : n ≤ worker_artifact_max_bytes
  pub exact : length cs ≡ encoded_length n
