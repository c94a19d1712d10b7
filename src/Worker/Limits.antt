-- ===== src/Worker/Limits.antt =====
-- workers/worker-node/src/payloadLimits.js and parserClient.js: what may be sent to the parser.
-- `fetch` is a `World`, and its response is read as the value that `response.json()` gives.
use Prim.Native.String.{len}
use shore_sentinel_app.Base.{ℕ, ◌*◌, String, leb}
use shore_sentinel_app.Value.{Value, str, obj, end, field}
use shore_sentinel_app.Runtime.{Runtime, Serialized, text, nothing, throws}
use shore_sentinel_app.Worker.Exec.{Exec, pure, throw, require, ◌>>=◌, ◌>>◌}

abbrev pub parser_request_max_bytes : ℕ
parser_request_max_bytes = 1024 * 1024

abbrev pub ssh_scanner_output_max_bytes : ℕ
ssh_scanner_output_max_bytes = 512 * 1024

abbrev pub ssh_stderr_max_bytes : ℕ
ssh_stderr_max_bytes = 64 * 1024

abbrev pub raw_scanner_artifact_max_bytes : ℕ
raw_scanner_artifact_max_bytes = ssh_scanner_output_max_bytes

-- `assertScannerOutputBytes`, on what `JSON.stringify` or the remote runner gave.
unfoldable pub assert_scanner_output_bytes : Serialized → Exec (Unit {0})
unfolding require throw
assert_scanner_output_bytes (text raw) =
    require (leb (len raw) ssh_scanner_output_max_bytes)
      "Scanner payload exceeds configured byte limit"
assert_scanner_output_bytes nothing = throw "Scanner payload exceeds configured byte limit"
assert_scanner_output_bytes throws = throw "Scanner payload exceeds configured byte limit"

abbrev bounded_body : Serialized → Exec String
bounded_body (text body) =
    require (leb (len body) parser_request_max_bytes)
      "Scanner payload exceeds configured byte limit"
    >> pure body
bounded_body nothing = throw "Scanner payload exceeds configured byte limit"
bounded_body throws = throw "Scanner payload is invalid"

-- `serializeParserRequest`.
unfoldable pub serialize_parser_request : Runtime → String → Value → String → Exec String
unfolding pure throw require ◌>>=◌
serialize_parser_request rt run_id scanner_output contract_version = bounded_body (
    rt.stringify (
      obj (
        field "runId" (str run_id) (
          field "scannerOutput" scanner_output
            (field "contractVersion" (str contract_version) end)))))
