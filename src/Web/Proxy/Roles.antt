-- ===== src/Web/Proxy/Roles.antt =====
-- Which roles may use which methods of the targets' proxy (web/app/api/targets/[...path]/route.js).
use shore_sentinel_app.Base.{
  String, Bool, true, false, not, ◌||◌, ◌≡◌, refl, sym, subst, inl, inr, none, some, List, [], ◌∷◌,
  one_of, str_eq, eq_iff, length, leb, ◌==◌, Bool-cases, if◌then◌else◌,
}
use shore_sentinel_app.Web.Proxy.Targets.{allowed_roles, authenticated_roles, second_is}

-- The roles among those allowed, by the method alone.
abbrev pub MayUse : String → List String → Type 0
MayUse method roles =
    (one_of roles "viewer" ≡ str_eq method "GET")
    × (one_of roles "analyst" ≡ (str_eq method "GET" || str_eq method "POST"))
    × (one_of roles "operator" ≡ not (str_eq method "DELETE"))
    × (one_of roles "admin" ≡ true)

some_inj : {a b : List String} → some a ≡ some b → a ≡ b
some_inj h = cc h

only_if :
    (b : Bool) (method : String) (list roles : List String)
    → MayUse method list
    → (if b then some list else none) ≡ some roles
    → MayUse method roles
only_if true method list roles m h = subst (MayUse method) (some_inj h) m
only_if false method list roles m h = cc h

get_roles :
    (segments roles : List String) → allowed_roles "GET" segments ≡ some roles → MayUse "GET" roles
unfolding allowed_roles
get_roles segments roles h =
    only_if (leb 1 (length segments)) "GET" authenticated_roles roles (refl, refl, refl, refl) h

post_roles :
    (segments roles : List String)
    → allowed_roles "POST" segments ≡ some roles
    → MayUse "POST" roles
unfolding allowed_roles
post_roles segments roles h =
    only_if (second_is "scan-jobs" segments) "POST" ("admin" ∷ "operator" ∷ "analyst" ∷ []) roles
      (refl, refl, refl, refl) h

patch_roles :
    (segments roles : List String)
    → allowed_roles "PATCH" segments ≡ some roles
    → MayUse "PATCH" roles
unfolding allowed_roles
patch_roles segments roles h =
    only_if (length segments == 1) "PATCH" ("admin" ∷ "operator" ∷ []) roles
      (refl, refl, refl, refl) h

delete_roles :
    (segments roles : List String)
    → allowed_roles "DELETE" segments ≡ some roles
    → MayUse "DELETE" roles
unfolding allowed_roles
delete_roles segments roles h =
    only_if (length segments == 1) "DELETE" ("admin" ∷ []) roles (refl, refl, refl, refl) h

other_roles :
    (method : String) (segments roles : List String)
    → str_eq method "GET" ≡ false
    → str_eq method "POST" ≡ false
    → str_eq method "PATCH" ≡ false
    → str_eq method "DELETE" ≡ false
    → allowed_roles method segments ≡ some roles
    → MayUse method roles
unfolding allowed_roles
other_roles method segments roles g p a d h = cc (rw (g, p, a, d) at h)

by_name :
    (known method : String) (segments roles : List String)
    → (allowed_roles known segments ≡ some roles → MayUse known roles)
    → str_eq method known ≡ true
    → allowed_roles method segments ≡ some roles
    → MayUse method roles
by_name known method segments roles f e =
    subst (λ m. allowed_roles m segments ≡ some roles → MayUse m roles)
      (sym ((eq_iff method known).0 e)) f

-- Where a method is allowed on a path, the method says who may use it: a viewer may only read, an
-- analyst may also post, an operator may do all but delete, and an administrator everything.
pub allowed_roles-MayUse :
    (method : String) (segments roles : List String)
    (allowed : allowed_roles method segments ≡ some roles)
    → MayUse method roles
allowed_roles-MayUse method segments roles = elim (Bool-cases (str_eq method "GET")) [
  | inl e ↦ by_name "GET" method segments roles (get_roles segments roles) e
  | inr g ↦ elim (Bool-cases (str_eq method "POST")) [
    | inl e ↦ by_name "POST" method segments roles (post_roles segments roles) e
    | inr p ↦ elim (Bool-cases (str_eq method "PATCH")) [
      | inl e ↦ by_name "PATCH" method segments roles (patch_roles segments roles) e
      | inr a ↦ elim (Bool-cases (str_eq method "DELETE")) [
        | inl e ↦ by_name "DELETE" method segments roles (delete_roles segments roles) e
        | inr d ↦ other_roles method segments roles g p a d
      ]
    ]
  ]
]
