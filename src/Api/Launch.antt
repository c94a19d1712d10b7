-- ===== src/Api/Launch.antt =====
-- api/src/ssh-security.ts: what a target, its host key pin, its policies and its grant have to be
-- before a scan is launched.
use shore_sentinel_app.Base.{
  ℕ, String, Bool, false, not, ◌&&◌, ◌||◌, Option, none, some, List, [], ◌∷◌, any, all, length, ltb,
  leb, ◌==◌, str_eq, starts_with, one_of, codes, is_digit, is_digits, digits_value, split_on,
  if◌then◌else◌,
}
use shore_sentinel_app.Value.{
  Value, Num, whole, pos, str, bool, truthy, get, is_text, text_of, is_number,
}
use shore_sentinel_app.Runtime.{Runtime, number_of}
use shore_sentinel_app.Api.Storage.{after_prefix}
use shore_sentinel_app.Api.Validation.{is_invalid_code}

-- `/^(0|[1-9]\d{0,2})$/` with a value of at most 255.
abbrev pub is_octet : String → Bool
is_octet text =
    is_digits text
    && leb (length (codes text)) 3
    && (str_eq text "0" || not (starts_with text "0"))
    && leb (digits_value text) 255

-- `validIpv4`.
unfoldable pub valid_ipv4 : String → Bool
valid_ipv4 value = let octets = split_on b'.' value in (length octets == 4) && all is_octet octets

abbrev pub is_lower_code : ℕ → Bool
is_lower_code c = leb b'a' c && leb c b'z'

abbrev pub is_label_code : ℕ → Bool
is_label_code c = is_lower_code c || is_digit c || c == b'-'

abbrev pub first_code : List ℕ → ℕ
first_code [] = b'-'
first_code (c ∷ cs) = c

abbrev pub last_code : List ℕ → ℕ
last_code [] = b'-'
last_code (c ∷ []) = c
last_code (c ∷ d ∷ cs) = last_code (d ∷ cs)

-- `[a-z0-9](?:[a-z0-9-]{0,61}[a-z0-9])?` and `[a-z]{2,63}`.
abbrev pub is_label : String → Bool
is_label text =
    all is_label_code (codes text)
    && leb 1 (length (codes text))
    && leb (length (codes text)) 63
    && not (first_code (codes text) == b'-')
    && not (last_code (codes text) == b'-')

abbrev pub is_top_label : String → Bool
is_top_label text =
    all is_lower_code (codes text) && leb 2 (length (codes text)) && leb (length (codes text)) 63

-- At least one label before the last one.
abbrev pub are_labels : List String → Bool
are_labels [] = false
are_labels (l ∷ []) = false
are_labels (l ∷ m ∷ []) = is_label l && is_top_label m
are_labels (l ∷ m ∷ n ∷ labels) = is_label l && are_labels (m ∷ n ∷ labels)

-- `canonicalHost`, none where it denies. Its test for forbidden and for capital letters refuses
-- nothing that the two patterns accept.
unfoldable pub canonical_host : Value → Option String
canonical_host (str value) =
    if (valid_ipv4 value || are_labels (split_on b'.' value))
      && leb 1 (length (codes value))
      && leb (length (codes value)) 253
    then some value
    else none
canonical_host _ = none

-- `/^(?:[0-9]|[12][0-9]|3[0-2])$/`.
abbrev pub is_prefix_length : String → Bool
is_prefix_length text =
    is_digits text
    && leb (length (codes text)) 2
    && (length (codes text) == 1 || not (starts_with text "0"))
    && leb (digits_value text) 32

abbrev pub are_cidr_parts : List String → Bool
are_cidr_parts (ip ∷ prefix ∷ []) = valid_ipv4 ip && is_prefix_length prefix
are_cidr_parts _ = false

-- `validCidr`.
unfoldable pub valid_cidr : Value → Bool
valid_cidr (str value) = are_cidr_parts (split_on b'/' value)
valid_cidr _ = false

-- What follows the first slash of a root: a text without a slash, or one whose last part and whose
-- text before the last slash are not empty.
abbrev pub ends_in_part : List String → Bool
ends_in_part [] = false
ends_in_part (p ∷ []) = not (str_eq p "")
ends_in_part (p ∷ q ∷ parts) = ends_in_part (q ∷ parts)

abbrev pub are_root_parts : List String → Bool
are_root_parts (p ∷ q ∷ []) = not (str_eq p "") && not (str_eq q "")
are_root_parts parts = ends_in_part parts

-- `validRoot`.
unfoldable pub valid_root : Value → Bool
valid_root (str value) =
    starts_with value "/"
    && not (any is_invalid_code (codes value))
    && are_root_parts (split_on b'/' (after_prefix "/" value))
    && not (one_of (split_on b'/' value) "..")
valid_root _ = false

abbrev pub port_of : Num → Option ℕ
port_of (whole (pos n)) = if leb 1 n && leb n 65535 then some n else none
port_of _ = none

-- What a launch needs: the rows are values, and are not nullish where they are missing.
pub record LaunchInput : Type 0 where
  pub target : Value
  pub host_key_pin : Value
  pub egress_policy : Value
  pub root_policy : Value
  pub worker_grant : Value

pub record LaunchSecurity : Type 0 where
  pub host : String
  pub port : ℕ
  pub pinned_key : String
  pub permitted_cidr : String
  pub enrolled_root : String
  pub grant_id : String

abbrev pub is_usable_target : Value → Bool
is_usable_target target =
    truthy (get "ssh_credential_id" target) && not (truthy (get "credential_disabled_at" target))

abbrev pub is_named : Value → String → Bool
is_named (str s) text = str_eq s text
is_named _ text = false

abbrev pub is_usable_pin : Value → Bool
is_usable_pin pin =
    truthy pin
    && is_named (get "algorithm" pin) "ssh-ed25519"
    && is_text (get "fingerprint" pin)
    && starts_with (text_of (get "fingerprint" pin)) "SHA256:"
    && not (truthy (get "revoked_at" pin))

abbrev pub is_true : Value → Bool
is_true (bool b) = b
is_true _ = false

abbrev pub is_usable_egress : ℕ → Value → Bool
is_usable_egress port policy =
    truthy policy
    && is_true (get "enabled" policy)
    && is_number port (get "ssh_port" policy)
    && valid_cidr (get "cidr" policy)

abbrev pub is_usable_root : Value → Bool
is_usable_root policy =
    truthy policy && is_true (get "enabled" policy) && valid_root (get "root_path" policy)

-- `Date.parse(String(v))` is the parameter `parse_date`, none for NaN.
abbrev pub is_usable_grant : (parse_date : Value → Option ℕ) (now : ℕ) → Value → Bool
is_usable_grant parse_date now grant =
    truthy grant
    && is_text (get "id" grant)
    && not (truthy (get "consumed_at" grant))
    && elim (parse_date (get "expires_at" grant)) [ none ↦ false | some t ↦ ltb now t ]

-- `assertSshLaunchRequirements`, none where it denies.
unfoldable pub assert_ssh_launch_requirements :
    Runtime → (parse_date : Value → Option ℕ) (now : ℕ) → LaunchInput → Option LaunchSecurity
assert_ssh_launch_requirements rt parse_date now input =
    if not (truthy input.target)
    then none
    else elim (canonical_host (get "hostname" input.target)) [
      | none ↦ none
      | some host ↦ elim (port_of (number_of rt (get "ssh_port" input.target))) [
        | none ↦ none
        | some port ↦
            if is_usable_target input.target
              && is_usable_pin input.host_key_pin
              && is_usable_egress port input.egress_policy
              && is_usable_root input.root_policy
              && is_usable_grant parse_date now input.worker_grant
            then some (record {
              host = host;
              port = port;
              pinned_key = text_of (get "fingerprint" input.host_key_pin);
              permitted_cidr = text_of (get "cidr" input.egress_policy);
              enrolled_root = text_of (get "root_path" input.root_policy);
              grant_id = text_of (get "id" input.worker_grant);
            })
            else none
      ]
    ]
