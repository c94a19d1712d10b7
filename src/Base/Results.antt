-- ===== src/Base/Results.antt =====
-- The results of code that may throw an error with a message.
use Prim.Native.String.{String}

pub data Result {ℓ} (A : Type ℓ) : Type ℓ where
  fails : String → Result A
  gives : A → Result A
