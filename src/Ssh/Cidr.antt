-- ===== src/Ssh/Cidr.antt =====
-- workers/worker-node/src/sshExecutor.js: the addresses that a machine may have.
pub mod Laws
use shore_sentinel_app.Base.{
  ℕ, ◌+◌, ◌*◌, ◌%◌, ◌^◌, String, Bool, true, false, not, ◌&&◌, ◌||◌, Option, none, some, List, [],
  ◌∷◌, any, map, ltb, ◌==◌, split_on, is_digits, digits_value, Result, fails, gives, if◌then◌else◌,
}
use shore_sentinel_app.Value.{Value, undef, str, get, is_number, text_of}
use shore_sentinel_app.Ssh.Bits.{bit_and, mask_of}

-- What `parsePermittedCidr` returns.
pub record Cidr : Type 0 where
  pub network : ℕ
  pub mask : ℕ

abbrev invalid_policy : String
invalid_policy = "SSH execution context has invalid permitted CIDR policy"

abbrev not_permitted : String
not_permitted = "SSH target resolved to an address outside the permitted CIDR policy"

-- `((a * 256 + b) * 256 + c) * 256 + d`, of the numbers of the four octets.
abbrev octets_value : List String → ℕ
octets_value (a ∷ (b ∷ (c ∷ (d ∷ [])))) =
    ((digits_value a * 256 + digits_value b) * 256 + digits_value c) * 256 + digits_value d
octets_value _ = 0

-- The value `>>> 0`.
abbrev pub from_octets : List String → ℕ
from_octets octets = octets_value octets % 2 ^ 32

-- What a lookup of a name brings.
pub data Resolved : Type 0 where
  unresolved : Resolved
  resolved : Value → Resolved

abbrev pub with_first : Result Cidr → Result (List Cidr) → Result (List Cidr)
with_first (fails e) others = fails e
with_first (gives c) (fails e) = fails e
with_first (gives c) (gives cs) = gives (c ∷ cs)

-- `.some(({ network, mask }) => (value & mask) === network)`.
abbrev pub permitted_by : ℕ → Result (List Cidr) → Result Bool
permitted_by value (fails e) = fails e
permitted_by value (gives parsed) = gives (any (λ c. bit_and 32 value c.mask == c.network) parsed)

-- The outcome of the test of `resolvePermittedIpv4`.
abbrev pub permit : String → Result Bool → Result String
permit address (fails e) = fails e
permit address (gives false) = fails not_permitted
permit address (gives true) = gives address

-- `isIPv4` of node:net.
module _ (is_ipv4 : String → Bool) where
  -- `ipv4ToUint32`.
  unfoldable pub ipv4_to_uint32 : String → Option ℕ
  ipv4_to_uint32 address =
      if not (is_ipv4 address) then none else some (from_octets (split_on b'.' address))

  -- From the parts of the text on; a missing second part is no text of digits.
  abbrev pub cidr_of_parts : List String → Result Cidr
  cidr_of_parts (network ∷ (prefix_text ∷ [])) =
      if not (is_digits prefix_text) then fails invalid_policy else elim (ipv4_to_uint32 network) [
        | none ↦ fails invalid_policy
        | some network_value ↦
            let prefix = digits_value prefix_text in
            if ltb 32 prefix
            then fails invalid_policy
            else gives (record {
              network = bit_and 32 network_value (mask_of prefix);
              mask = mask_of prefix;
            })
      ]
  cidr_of_parts _ = fails invalid_policy

  -- `parsePermittedCidr`.
  unfoldable pub parse_permitted_cidr : Value → Result Cidr
  parse_permitted_cidr (str cidr) = cidr_of_parts (split_on b'/' cidr)
  parse_permitted_cidr undef = fails invalid_policy
  parse_permitted_cidr _ = fails invalid_policy

  -- `permittedCidrs.map(parsePermittedCidr)`, which throws at the first that is invalid.
  unfoldable pub parse_cidrs : List Value → Result (List Cidr)
  parse_cidrs [] = gives []
  parse_cidrs (cidr ∷ rest) = with_first (parse_permitted_cidr cidr) (parse_cidrs rest)

  -- `permittedIpv4Address`.
  unfoldable pub permitted_ipv4_address : String → List Value → Result Bool
  permitted_ipv4_address address cidrs = elim (ipv4_to_uint32 address) [
    | none ↦ gives false
    | some value ↦ permitted_by value (parse_cidrs cidrs)
  ]

  -- `resolvePermittedIpv4`, for what the lookup brings.
  unfoldable pub resolve_permitted_ipv4 : Resolved → List Value → Result String
  resolve_permitted_ipv4 unresolved cidrs = fails "SSH target host resolution failed"
  resolve_permitted_ipv4 (resolved result) cidrs =
      let address = text_of (get "address" result) in
      if not (is_number 4 (get "family" result)) || not (is_ipv4 address)
      then fails not_permitted
      else permit address (permitted_ipv4_address address cidrs)
