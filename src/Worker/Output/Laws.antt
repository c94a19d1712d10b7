-- ===== src/Worker/Output/Laws.antt =====
-- Reading the scanner's output makes no call and changes no state, and accepts a text only within
-- the byte limit (scannerOutputFromSsh, workers/worker-node/src/managedSshProcessor.js).
use Prim.Native.String.{len}
use shore_sentinel_app.Base.{
  ◌≤◌, String, ◌≡◌, refl, Option, some, none, leb, leb→le, Bool-cases, inl, inr, if◌then◌else◌,
}
use shore_sentinel_app.Value.{Value, undef, null, str, arr, obj, truthy, get, is_number, is_text}
use shore_sentinel_app.Runtime.{Runtime, Serialized, text, nothing, throws}
use shore_sentinel_app.Worker.Exec.{Session, Exec, pure, throw, require, ◌>>=◌}
use shore_sentinel_app.Worker.Exec.Triple.{Post, Post-weaken, Still}
use shore_sentinel_app.Worker.Limits.{assert_scanner_output_bytes, ssh_scanner_output_max_bytes}
use shore_sentinel_app.Worker.Output.{
  read, read_length, ScannerOutput, parsed_text, written_object, structured,
  scanner_output_from_ssh,
}

pub read-Still : (key : String) (v : Value) → Still (read key v)
unfolding read pure throw
read-Still key undef s = refl
read-Still key null s = refl
read-Still key _ s = refl

pub read_length-Still : (rt : Runtime) (v : Value) → Still (read_length rt v)
unfolding read_length pure throw
read_length-Still rt undef s = refl
read_length-Still rt null s = refl
read_length-Still rt (arr vs) s = refl
read_length-Still rt (str t) s = refl
read_length-Still rt _ s = refl

-- What an accepted output satisfies: its text keeps within the limit.
abbrev pub Fits : ScannerOutput → Type 0
Fits out = len out.raw ≤ ssh_scanner_output_max_bytes

abbrev pub Reads : Exec ScannerOutput → Type 0
Reads m = (s : Session) → Post (λ out s'. (s' ≡ s) × Fits out) (λ s'. s' ≡ s) (m s)

module _ (rt : Runtime) where
  parsed_text_Reads :
      (raw : String) (o : Option Value) (s : Session)
      → len raw ≤ ssh_scanner_output_max_bytes
      → Post (λ out s'. (s' ≡ s) × Fits out) (λ s'. s' ≡ s) (parsed_text rt raw o s)
  unfolding pure throw
  parsed_text_Reads raw (some v) s h = (refl, h)
  parsed_text_Reads raw none s h = refl

  text_Reads : (raw : String) → Reads (structured rt (str raw))
  unfolding structured require
  text_Reads raw s = elim (Bool-cases (leb (len raw) ssh_scanner_output_max_bytes)) [
    | inl fits ↦ rw fits (parsed_text_Reads raw (rt.parse_json raw) s (leb→le _ _ fits))
    | inr long ↦ rw long refl
  ]

  written_Reads : (v : Value) (r : Serialized) → Reads (written_object rt v r)
  unfolding ◌>>=◌ assert_scanner_output_bytes require
  written_Reads v (text raw) s = elim (Bool-cases (leb (len raw) ssh_scanner_output_max_bytes)) [
    | inl fits ↦ rw fits (refl, leb→le _ _ fits)
    | inr long ↦ rw long refl
  ]
  written_Reads v nothing s = refl
  written_Reads v throws s = refl

  structured-Reads : (v : Value) → Reads (structured rt v)
  unfolding structured
  structured-Reads (str raw) s = text_Reads raw s
  structured-Reads (obj fs) s = written_Reads (obj fs) (rt.stringify (obj fs)) s
  structured-Reads (arr vs) s = written_Reads (arr vs) (rt.stringify (arr vs)) s
  structured-Reads undef s = refl
  structured-Reads _ s = refl

  -- Reading the output of the remote runner returns a text within the limit or throws, and
  -- touches no state.
  pub scanner_output_from_ssh-Reads : (result : Value) → Reads (scanner_output_from_ssh rt result)
  unfolding scanner_output_from_ssh throw
  scanner_output_from_ssh-Reads result s = elim (Bool-cases (truthy result)) [
    | inl present ↦ rw present (elim (Bool-cases (is_number 0 (get "exitCode" result))) [
      | inl zero_code ↦ rw zero_code (
          structured-Reads
            (if is_text (get "stdout" result)
              then get "stdout" result
              else get "scannerOutput" result)
            s)
      | inr other ↦ rw other refl
    ])
    | inr absent ↦ rw absent refl
  ]

  pub scanner_output_from_ssh-Still : (result : Value) → Still (scanner_output_from_ssh rt result)
  scanner_output_from_ssh-Still result s =
      Post-weaken {Q = λ out s'. (s' ≡ s) × Fits out} (scanner_output_from_ssh rt result s)
        (λ out s' h. h.0) (λ s' h. h) (scanner_output_from_ssh-Reads result s)
