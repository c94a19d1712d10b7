-- ===== src/Ssh/Context/Laws.antt =====
-- The commands sent to a machine are made of fixed texts and a request identifier
-- (workers/worker-node/src/sshExecutor.js).
use Prim.Native.String.{◌++◌}
use shore_sentinel_app.Base.{
  ℕ, zero, suc, ◌+◌, String, Bool, true, false, ◌&&◌, ◌||◌, ◌≡◌, refl, ap, subst, Result, List, [],
  ◌∷◌, all, length, codes, ◌==◌, fails, gives, Bool-cases, inl, inr, arith,
}
use shore_sentinel_app.Value.{Value, undef, str}
use shore_sentinel_app.Ssh.Context.{
  is_hex, after_group, after_dash, at_end, is_request_id, require_request_id, with_id,
  fixed_remote_runner, fixed_remote_request_command, fixed_remote_cancellation_command,
  fixed_remote_stage_command,
}

-- A character of an identifier: no blank, quote or other character that a shell would read.
abbrev pub is_id_code : ℕ → Bool
is_id_code c = is_hex c || c == b'-'

-- The characters are those of an identifier, and so many.
abbrev AreIdCodes : ℕ → List ℕ → Type 0
AreIdCodes n cs = (all is_id_code cs ≡ true) × (length cs ≡ n)

at_end-codes : (cs : List ℕ) → at_end cs ≡ true → AreIdCodes 0 cs
at_end-codes [] h = (refl, refl)
at_end-codes (c ∷ cs) h = cc h

or_true : (a : Bool) → (a || true) ≡ true
or_true true = refl
or_true false = refl

and_parts : (a b : Bool) → (a && b) ≡ true → (a ≡ true) × (b ≡ true)
and_parts true b h = (refl, h)
and_parts false b h = cc h

group-codes :
    (n m : ℕ) (next : List ℕ → Bool)
    → ((cs : List ℕ) → next cs ≡ true → AreIdCodes m cs)
    → (cs : List ℕ) → after_group n next cs ≡ true
    → AreIdCodes (n + m) cs
group-codes zero m next f cs h = let (a, l) = f cs h in (a, omega (arith, l))
group-codes (suc n) m next f [] h = cc h
group-codes (suc n) m next f (c ∷ cs) h =
    let (hex, rest) = and_parts (is_hex c) (after_group n next cs) h in
    let (a, l) = group-codes n m next f cs rest in (rw (hex, a), omega (arith, l))

dash_code : (c : ℕ) → (c == b'-') ≡ true → is_id_code c ≡ true
dash_code c h = rw h (or_true (is_hex c))

dash-codes :
    (m : ℕ) (next : List ℕ → Bool)
    → ((cs : List ℕ) → next cs ≡ true → AreIdCodes m cs)
    → (cs : List ℕ) → after_dash next cs ≡ true
    → AreIdCodes (1 + m) cs
dash-codes m next f [] h = cc h
dash-codes m next f (c ∷ cs) h =
    let (dash, rest) = and_parts (c == b'-') (next cs) h in
    let (a, l) = f cs rest in (rw (dash_code c dash, a), omega (arith, l))

request_id-codes : (s : String) → is_request_id s ≡ true → AreIdCodes 36 (codes s)
unfolding is_request_id
request_id-codes s h =
    group-codes 8 28
      (after_dash (
        after_group 4 (
          after_dash
            (after_group 4 (after_dash (after_group 4 (after_dash (after_group 12 at_end))))))))
      (dash-codes 27
        (after_group 4 (
          after_dash
            (after_group 4 (after_dash (after_group 4 (after_dash (after_group 12 at_end)))))))
        (group-codes 4 23
          (after_dash
            (after_group 4 (after_dash (after_group 4 (after_dash (after_group 12 at_end))))))
          (dash-codes 22
            (after_group 4 (after_dash (after_group 4 (after_dash (after_group 12 at_end)))))
            (group-codes 4 18 (after_dash (after_group 4 (after_dash (after_group 12 at_end)))) (
              dash-codes 17 (after_group 4 (after_dash (after_group 12 at_end))) (
                group-codes 4 13 (after_dash (after_group 12 at_end)) (
                  dash-codes 12 (after_group 12 at_end)
                    (group-codes 12 0 at_end at_end-codes))))))))
      (codes s) h

-- The three commands that are sent to a machine.
pub data RemoteCommand : Type 0 where
  request cancellation stage : RemoteCommand

abbrev pub command_of : RemoteCommand → Value → Result String
command_of request id = fixed_remote_request_command id
command_of cancellation id = fixed_remote_cancellation_command id
command_of stage id = fixed_remote_stage_command id

abbrev pub option_of : RemoteCommand → String
option_of request = " --request "
option_of cancellation = " --cancel-request "
option_of stage = " --stage-request "

-- A command is the path of the runner, its own option and the text of the identifier, which has the
-- 36 characters of an identifier.
pub record IsFixedCommand (kind : RemoteCommand) (id : Value) (command : String) : Type 0 where
  pub name : String
  pub given : id ≡ str name
  pub sent : command ≡ "/usr/local/lib/shore-sentinel/run-scan" ++ option_of kind ++ name
  pub letters : all is_id_code (codes name) ≡ true
  pub count : length (codes name) ≡ 36

-- What an accepted identifier is.
accepted_id :
    (id : Value) (name : String)
    → require_request_id id ≡ gives name
    → (id ≡ str name) × (is_request_id name ≡ true)
unfolding require_request_id
accepted_id (str s) name h = elim (Bool-cases (is_request_id s)) [
  | inr wrong ↦ cc (rw wrong at h)
  | inl right ↦
      let same : s ≡ name = cc (rw right at h) in
      (ap str same, subst (λ t. is_request_id t ≡ true) same right)
]
accepted_id undef name h = cc h
accepted_id _ name h = cc h

with_id-gives :
    (option command : String) (r : Result String)
    → with_id option r ≡ gives command
    → (name : String) × (r ≡ gives name) × (command ≡ fixed_remote_runner ++ option ++ name)
with_id-gives option command (fails e) h = cc h
with_id-gives option command (gives name) h = (name, refl, cc h)

with_id-IsFixedCommand :
    (kind : RemoteCommand) (id : Value) (command : String)
    → with_id (option_of kind) (require_request_id id) ≡ gives command
    → IsFixedCommand kind id command
with_id-IsFixedCommand kind id command h =
    let (name, e, made) = with_id-gives _ command (require_request_id id) h in
    let (given, right) = accepted_id id name e in
    let (letters, count) = request_id-codes name right in
    record { name = name; given = given; sent = made; letters = letters; count = count }

-- Whatever the identifier is, the request, the cancellation and the staging that are sent to a
-- machine are the fixed runner, each with its own option, and the identifier given, which is a text
-- of 36 hexadecimal digits and dashes: nothing that a shell would interpret.
pub fixed_remote_command-IsFixedCommand :
    (kind : RemoteCommand) (id : Value) (command : String)
    (accepted : command_of kind id ≡ gives command)
    → IsFixedCommand kind id command
unfolding fixed_remote_request_command fixed_remote_cancellation_command fixed_remote_stage_command
fixed_remote_command-IsFixedCommand request id command accepted =
    with_id-IsFixedCommand request id command accepted
fixed_remote_command-IsFixedCommand cancellation id command accepted =
    with_id-IsFixedCommand cancellation id command accepted
fixed_remote_command-IsFixedCommand stage id command accepted =
    with_id-IsFixedCommand stage id command accepted
