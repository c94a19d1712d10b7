-- ===== src/Worker/Output.antt =====
-- scannerOutputFromSsh of workers/worker-node/src/managedSshProcessor.js, and reads of properties
-- that throw on null and undefined.
pub mod Laws
use Prim.Native.String.{◌++◌}
use shore_sentinel_app.Base.{
  ℕ, ◌+◌, String, Bool, true, false, not, ◌&&◌, Option, none, some, List, [], ◌∷◌, leb, str_eq,
  length, if◌then◌else◌,
}
use shore_sentinel_app.Value.{
  Value, undef, null, num, whole, pos, str, arr, items, obj, end, field, truthy, nullish, get,
  is_filled_text, is_safe_integer, is_number, is_text, is_object, below_number, nat_of, text_of,
}
use shore_sentinel_app.Runtime.{Runtime, Serialized, text, nothing, throws}
use shore_sentinel_app.Worker.Exec.{
  Artifact, Call, get_run_control, fetch_ssh_grant, emit_run_event, upload_artifact, start_monitor,
  execute, parse, World, FailureState, Session, Outcome, returned, thrown, Exec, pure, throw,
  require, ◌>>=◌, ◌>>◌, call, with_timeout, record_call, valid_timeout,
}
use shore_sentinel_app.Worker.Limits.{assert_scanner_output_bytes, raw_scanner_artifact_max_bytes}

-- `value.key`, which throws on null and undefined.
unfoldable pub read : String → Value → Exec Value
read key undef = throw ("Cannot read properties of undefined (reading '" ++ key ++ "')")
read key null = throw ("Cannot read properties of null (reading '" ++ key ++ "')")
read key v = pure (get key v)

-- `value.length`.
unfoldable pub read_length : Runtime → Value → Exec Value
read_length rt undef = throw "Cannot read properties of undefined (reading 'length')"
read_length rt null = throw "Cannot read properties of null (reading 'length')"
read_length rt (arr vs) = pure (num (whole (pos (length (items vs)))))
read_length rt (str s) = pure (num (whole (pos (rt.utf16_length s))))
read_length rt v = pure (get "length" v)

pub record ScannerOutput : Type 0 where
  pub scanner_output : Value
  pub raw : String

module _ (rt : Runtime) where
  abbrev parsed_text : String → Option Value → Exec ScannerOutput
  parsed_text raw (some v) = pure (record { scanner_output = v; raw = raw })
  parsed_text raw none = throw "SSH remote runner returned invalid JSON"

  abbrev written_object : Value → Serialized → Exec ScannerOutput
  written_object v (text raw) =
      assert_scanner_output_bytes (text raw) >> pure (record { scanner_output = v; raw = raw })
  written_object v nothing =
      assert_scanner_output_bytes nothing >> pure (record { scanner_output = v; raw = "" })
  written_object v throws = throw "SSH remote runner returned invalid JSON"

  -- What stands in `raw`: the text that the runner wrote, or an object.
  structured : Value → Exec ScannerOutput
  unfolding pure throw ◌>>=◌ assert_scanner_output_bytes
  structured (str raw) =
      assert_scanner_output_bytes (text raw) >> parsed_text raw (rt.parse_json raw)
  structured (obj fs) = written_object (obj fs) (rt.stringify (obj fs))
  structured (arr vs) = written_object (arr vs) (rt.stringify (arr vs))
  structured v = throw "SSH remote runner returned no structured result"

  -- `scannerOutputFromSsh`.
  unfoldable pub scanner_output_from_ssh : Value → Exec ScannerOutput
  unfolding structured
  scanner_output_from_ssh result =
      if not (truthy result)
      then throw "SSH remote runner did not complete successfully"
      else if not (is_number 0 (get "exitCode" result))
      then throw "SSH remote runner did not complete successfully"
      else structured (
          if is_text (get "stdout" result) then get "stdout" result else get "scannerOutput" result)
