-- ===== src/Ssh/Cidr/Laws.antt =====
-- Only addresses inside a permitted network are connected to
-- (workers/worker-node/src/sshExecutor.js).
use shore_sentinel_app.Base.{
  ℕ, ◌-◌, ◌≤◌, ◌<◌, String, Bool, true, false, ◌≡◌, refl, sym, ap, subst, ◌∙◌, ◌⊎◌, some, List, [],
  ◌∷◌, any, ltb, ◌==◌, ==_iff, split_on, is_digits, digits_value, Result, fails, gives, Bool-cases,
  Option-cases, inl, inr, arith,
}
use shore_sentinel_app.Value.{Value, str, undef, get, is_number, text_of}
use shore_sentinel_app.Ssh.Bits.{bit_and, mask_of}
use shore_sentinel_app.Ssh.Bits.Laws.{leading, bit_and-mask_iff}
use shore_sentinel_app.Ssh.Cidr.{
  Cidr, from_octets, ipv4_to_uint32, cidr_of_parts, parse_permitted_cidr, parse_cidrs, with_first,
  permitted_by, permitted_ipv4_address, permit, resolved, resolve_permitted_ipv4,
}

some_inj : {a b : ℕ} → some a ≡ some b → a ≡ b
some_inj h = cc h

gives_inj : {c d : Cidr} → gives c ≡ gives d → c ≡ d
gives_inj h = cc h

bool_inj : {c d : Bool} → gives c ≡ gives d → c ≡ d
bool_inj h = cc h

list_inj : {c d : List Cidr} → gives c ≡ gives d → c ≡ d
list_inj h = cc h

permit-gives :
    (address a : String) (r : Result Bool)
    → permit address r ≡ gives a
    → (r ≡ gives true) × (address ≡ a)
permit-gives address a (fails e) h = cc h
permit-gives address a (gives false) h = cc h
permit-gives address a (gives true) h = (refl, cc h)

module _ (is_ipv4 : String → Bool) where
  -- A value is the text `network/prefix` of a network that an address belongs to: both are IPv4
  -- addresses and agree in the leading bits that the prefix counts.
  pub record IsInside (address : String) (cidr : Value) : Type 0 where
    pub network : String
    pub prefix : String
    pub parts : (s : String) × (cidr ≡ str s) × (split_on b'/' s ≡ network ∷ prefix ∷ [])
    pub value : ℕ
    pub network_value : ℕ
    pub is_address : ipv4_to_uint32 is_ipv4 address ≡ some value
    pub is_network : ipv4_to_uint32 is_ipv4 network ≡ some network_value
    pub bound : digits_value prefix ≤ 32
    pub agree :
        leading (32 - digits_value prefix) value ≡ leading (32 - digits_value prefix) network_value

  from_octets-small : (parts : List String) → from_octets parts < 4294967296
  from_octets-small parts = omega arith

  uint32_small : (s : String) (v : ℕ) → ipv4_to_uint32 is_ipv4 s ≡ some v → v < 4294967296
  unfolding ipv4_to_uint32
  uint32_small s v h = elim (Bool-cases (is_ipv4 s)) [
    | inl e ↦
        subst (λ n. n < 4294967296) (some_inj (rw e at h)) (from_octets-small (split_on b'.' s))
    | inr e ↦ cc (rw e at h)
  ]

  IsInside-of_network :
      (address : String) (value : ℕ) (is_address : ipv4_to_uint32 is_ipv4 address ≡ some value)
      (s network prefix : String) (n : ℕ) (is_network : ipv4_to_uint32 is_ipv4 network ≡ some n)
      (c : Cidr)
      → split_on b'/' s ≡ network ∷ prefix ∷ []
      → digits_value prefix ≤ 32
      → record {
        network = bit_and 32 n (mask_of (digits_value prefix));
        mask = mask_of (digits_value prefix);
      }
        ≡ c
      → (bit_and 32 value c.mask == c.network) ≡ true
      → IsInside address (str s)
  IsInside-of_network address value is_address s network prefix n is_network c e bound same m =
      record {
        network = network;
        prefix = prefix;
        parts = (s, refl, e);
        value = value;
        network_value = n;
        is_address = is_address;
        is_network = is_network;
        bound = bound;
        agree =
            (bit_and-mask_iff (digits_value prefix) value n bound
                (uint32_small address value is_address) (uint32_small network n is_network)).0
              (ap (λ d. bit_and 32 value d.mask) same
                ∙ (==_iff (bit_and 32 value c.mask) c.network).0 m
                ∙ sym (ap (λ d. d.network) same));
      }

  IsInside-of_parts :
      (address : String) (value : ℕ) (is_address : ipv4_to_uint32 is_ipv4 address ≡ some value)
      (s : String) (parts : List String) (c : Cidr)
      → split_on b'/' s ≡ parts
      → cidr_of_parts is_ipv4 parts ≡ gives c
      → (bit_and 32 value c.mask == c.network) ≡ true
      → IsInside address (str s)
  IsInside-of_parts address value is_address s (network ∷ (prefix ∷ [])) c e h m =
      elim (Bool-cases (is_digits prefix)) [
        | inr wrong ↦ cc (rw wrong at h)
        | inl digits ↦ elim (Option-cases (ipv4_to_uint32 is_ipv4 network)) [
          | inl nowhere ↦ cc (rw (digits, nowhere) at h)
          | inr (n, is_network) ↦ elim (Bool-cases (ltb 32 (digits_value prefix))) [
            | inl long ↦ cc (rw (digits, is_network, long) at h)
            | inr short ↦
                let same : gives (record {
                  network = bit_and 32 n (mask_of (digits_value prefix));
                  mask = mask_of (digits_value prefix);
                })
                    ≡ gives c =
                  rw (digits, is_network, short) at h in
                IsInside-of_network address value is_address s network prefix n is_network c e
                  (ground arith) (gives_inj same) m
          ]
        ]
      ]
  IsInside-of_parts address value is_address s _ c e h m = cc h

  IsInside-of_cidr :
      (address : String) (value : ℕ) (is_address : ipv4_to_uint32 is_ipv4 address ≡ some value)
      (cidr : Value) (c : Cidr)
      → parse_permitted_cidr is_ipv4 cidr ≡ gives c
      → (bit_and 32 value c.mask == c.network) ≡ true
      → IsInside address cidr
  unfolding parse_permitted_cidr
  IsInside-of_cidr address value is_address (str s) c h m =
      IsInside-of_parts address value is_address s (split_on b'/' s) c refl h m
  IsInside-of_cidr address value is_address undef c h m = cc h
  IsInside-of_cidr address value is_address _ c h m = cc h

  -- Some entry of the policy is a network that the address belongs to.
  abbrev pub IsPermitted : String → List Value → Type 0
  IsPermitted address [] = ⊥
  IsPermitted address (cidr ∷ rest) = IsInside address cidr ⊎ IsPermitted address rest

  IsPermitted-of_first :
      (address : String) (value : ℕ) (is_address : ipv4_to_uint32 is_ipv4 address ≡ some value)
      (cidr : Value) (rest : List Value) (first : Result Cidr) (others : Result (List Cidr))
      (parsed : List Cidr)
      → parse_permitted_cidr is_ipv4 cidr ≡ first
      → ((cs : List Cidr)
          → others ≡ gives cs
          → any (λ c. bit_and 32 value c.mask == c.network) cs ≡ true
          → IsPermitted address rest)
      → with_first first others ≡ gives parsed
      → any (λ c. bit_and 32 value c.mask == c.network) parsed ≡ true
      → IsPermitted address (cidr ∷ rest)
  IsPermitted-of_first address value is_address cidr rest (fails e) others parsed e1 h r m = cc r
  IsPermitted-of_first address value is_address cidr rest (gives c) (fails e) parsed e1 h r m = cc r
  IsPermitted-of_first address value is_address cidr rest (gives c) (gives cs) parsed e1 h r m =
      let found : any (λ d. bit_and 32 value d.mask == d.network) (c ∷ cs) ≡ true =
        ap (any (λ d. bit_and 32 value d.mask == d.network)) (list_inj r) ∙ m in
      elim (Bool-cases (bit_and 32 value c.mask == c.network)) [
        | inl here ↦ inl (IsInside-of_cidr address value is_address cidr c e1 here)
        | inr elsewhere ↦ inr (h cs refl (rw elsewhere at found))
      ]

  IsPermitted-of_parsed :
      (address : String) (value : ℕ) (is_address : ipv4_to_uint32 is_ipv4 address ≡ some value)
      (cidrs : List Value) (parsed : List Cidr)
      → parse_cidrs is_ipv4 cidrs ≡ gives parsed
      → any (λ c. bit_and 32 value c.mask == c.network) parsed ≡ true
      → IsPermitted address cidrs
  unfolding parse_cidrs
  IsPermitted-of_parsed address value is_address [] parsed h m =
      cc (ap (any (λ c. bit_and 32 value c.mask == c.network)) (list_inj h) ∙ m)
  IsPermitted-of_parsed address value is_address (cidr ∷ rest) parsed h m =
      IsPermitted-of_first address value is_address cidr rest (parse_permitted_cidr is_ipv4 cidr)
        (parse_cidrs is_ipv4 rest) parsed refl (IsPermitted-of_parsed address value is_address rest)
        h m

  IsPermitted-of_any :
      (address : String) (value : ℕ) (is_address : ipv4_to_uint32 is_ipv4 address ≡ some value)
      (cidrs : List Value) (parsed : Result (List Cidr))
      → parse_cidrs is_ipv4 cidrs ≡ parsed
      → permitted_by value parsed ≡ gives true
      → IsPermitted address cidrs
  IsPermitted-of_any address value is_address cidrs (fails e) e1 h = cc h
  IsPermitted-of_any address value is_address cidrs (gives parsed) e1 h =
      IsPermitted-of_parsed address value is_address cidrs parsed e1 (bool_inj h)

  IsPermitted-of_true :
      (address : String) (cidrs : List Value)
      → permitted_ipv4_address is_ipv4 address cidrs ≡ gives true
      → IsPermitted address cidrs
  unfolding permitted_ipv4_address
  IsPermitted-of_true address cidrs h = elim (Option-cases (ipv4_to_uint32 is_ipv4 address)) [
    | inl nowhere ↦ cc (rw (permitted_ipv4_address, nowhere) at h)
    | inr (value, is_address) ↦
        IsPermitted-of_any address value is_address cidrs (parse_cidrs is_ipv4 cidrs) refl
          (rw (permitted_ipv4_address, is_address) at h)
  ]

  -- An address that is connected to is an IPv4 address, belongs to a network of the policy, and is
  -- the one that the lookup of the host brought.
  pub resolve_permitted_ipv4-IsPermitted :
      (result : Value) (cidrs : List Value) (address : String)
      (connected : resolve_permitted_ipv4 is_ipv4 (resolved result) cidrs ≡ gives address)
      → (is_ipv4 address ≡ true)
        × IsPermitted address cidrs
        × (text_of (get "address" result) ≡ address)
  unfolding resolve_permitted_ipv4
  resolve_permitted_ipv4-IsPermitted result cidrs address connected =
      let host = text_of (get "address" result) in
      elim (Bool-cases (is_number 4 (get "family" result))) [
        | inr other ↦ cc (rw (resolve_permitted_ipv4, other) at connected)
        | inl four ↦ elim (Bool-cases (is_ipv4 host)) [
          | inr wrong ↦ cc (rw (resolve_permitted_ipv4, four, wrong) at connected)
          | inl right ↦
              let (yes_permitted, same) =
                permit-gives host address (permitted_ipv4_address is_ipv4 host cidrs)
                  (rw (resolve_permitted_ipv4, four, right) at connected) in
              (
                subst (λ a. is_ipv4 a ≡ true) same right,
                subst (λ a. IsPermitted a cidrs) same
                    (IsPermitted-of_true host cidrs yes_permitted),
                same,
              )
        ]
      ]
