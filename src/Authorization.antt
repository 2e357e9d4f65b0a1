-- ===== src/Authorization.antt =====
-- crates/ruflo-cli/src/claims.rs: the claims of users and roles in a JSON policy. `check` decides,
-- and `grant` edits the policy; what they print is not modelled. The policy is that of the first
-- configuration file that exists: missing, unreadable (an error), or a value. The members of an
-- object have different keys.
pub mod Granting
pub mod Revoking
use ruflo_rust.Prelude.{
  map, ℕ, String, Bool, true, false, not, ◌&&◌, ◌||◌, Option, none, some, List, [], ◌∷◌, ◌++◌, any,
  map, Result, ok, err, format, starts_with, ends_with, string_eq, ◌==◌, if◌then◌else◌,
}
use ruflo_rust.Json.{
  to_list, Value, Fields, null, str, arr, obj, field, end, object, array, as_str, as_array, get_key,
  is_text, field_of, put_field,
}

unfoldable pub non_empty : Option String → Option String
non_empty none = none
non_empty (some v) = if v == "" || starts_with v "-" then none else some v

-- The text before a last `*`, if that is how the text ends.
abbrev strip_star : String → String
strip_star String.[] = ""
strip_star (String.◌∷◌ c String.[]) = ""
strip_star (String.◌∷◌ c (String.◌∷◌ d s)) = String.◌∷◌ c (strip_star (String.◌∷◌ d s))

abbrev tail : String → String
tail String.[] = ""
tail (String.◌∷◌ c s) = s

-- `text.ends_with(suffix)`
abbrev has_suffix : String → String → Bool
has_suffix String.[] suffix = suffix == ""
has_suffix (String.◌∷◌ c s) suffix =
    let rest = has_suffix s suffix in String.◌∷◌ c s == suffix || rest

-- One granted claim: exact, `*`, `prefix:*` or `*:suffix`.
unfoldable pub matches : String → String → Bool
matches claim g =
    g == claim
    || g == "*"
    || (ends_with 42 g && ends_with 58 (strip_star g) && starts_with claim (strip_star g))
    || (starts_with g "*" && starts_with (tail g) ":" && has_suffix claim (tail g))

unfoldable pub check_claim : String → List String → Bool
unfolding matches
check_claim claim granted = any (matches claim) granted

abbrev pub texts : List Value → List String
texts [] = []
texts (v ∷ vs) = elim (as_str v) [ none ↦ texts vs | some t ↦ t ∷ texts vs ]

abbrev pub claim_list : Value → List String
claim_list v = elim (as_array v) [ none ↦ [] | some vs ↦ texts vs ]

abbrev pub list_of : Option Value → List String
list_of none = []
list_of (some v) = claim_list v

abbrev names : List String → Value
names ss = array (map str ss)

abbrev pub default_policy : Value
default_policy = object (
    (
      "roles",
      object (
          ("admin", names ("*" ∷ []))
          ∷ ("developer", names ("swarm:*" ∷ "agent:*" ∷ "memory:*" ∷ "task:*" ∷ "session:*" ∷ []))
          ∷ ("operator", names ("swarm:status" ∷ "agent:list" ∷ "memory:read" ∷ "task:list" ∷ []))
          ∷ ("viewer", names ("*:list" ∷ "*:status" ∷ "*:read" ∷ []))
          ∷ []),
    )
    ∷ (
      "defaultClaims",
      names (
          "swarm:create" ∷ "swarm:status" ∷ "agent:spawn" ∷ "agent:list" ∷ "memory:read"
          ∷ "memory:write" ∷ "task:create" ∷ []),
    )
    ∷ [])

-- The members of the file over those of the default policy.
abbrev pub over : Fields → Fields → Fields
over dst end = dst
over dst (field k v src) = put_field k v (over dst src)

abbrev pub merged : Value → Value → Value
merged (obj dst) (obj src) = obj (over dst src)
merged dst src = src

-- `none`: no file; an error: a file that cannot be read or parsed.
abbrev pub Policy : Type 0
Policy = Option (Result Value String)

unfoldable pub load_merged : Policy → Result Value String
load_merged none = ok default_policy
load_merged (some (ok parsed)) = ok (merged default_policy parsed)
load_merged (some (err e)) = err e

abbrev pub load : Policy → Result Value String
load none = ok default_policy
load (some r) = r

-- `value.get(key)` on what an earlier `get` gave.
abbrev pub get_in : Option Value → String → Option Value
get_in none k = none
get_in (some v) k = get_key v k

abbrev pub role_claims : Value → Option Value → List String
role_claims config (some (str role)) = list_of (get_in (get_key config "roles") role)
role_claims config _ = []

unfoldable pub user_claims : Value → String → List String
user_claims config user =
    let info = get_in (get_key config "users") user in
    list_of (get_key config "defaultClaims")
    ++ list_of (get_in info "claims")
    ++ role_claims config (get_in info "role")

abbrev pub or_current : Option String → String
or_current none = "current"
or_current (some u) = u

-- The exit code is 0 where the claim is granted.
unfoldable pub check : Option String → Option String → Policy → Result ℕ String
unfolding check_claim
check claim user policy = elim (non_empty claim) [
  | none ↦ err "Claim is required"
  | some c ↦ elim (load_merged policy) [
    | err e ↦ ok 1
    | ok config ↦
        ok (if check_claim c (user_claims config (or_current (non_empty user))) then 0 else 1)
  ]
]

-- The members of an object, none for any other value or for no value; likewise for an array.
abbrev pub object_at : String → Fields → Fields
object_at k fs = elim (field_of k fs) [ some (obj gs) ↦ gs | _ ↦ end ]

abbrev pub list_at : String → Fields → List Value
list_at k fs = elim (field_of k fs) [ some (arr vs) ↦ to_list vs | _ ↦ [] ]

abbrev pub fields_of : Value → Fields
fields_of (obj fs) = fs
fields_of _ = end

abbrev pub ensure_object : String → Fields → Fields
ensure_object k fs = put_field k (obj (object_at k fs)) fs

abbrev pub with_claim : String → List Value → List Value
with_claim claim vs = if any (λ v. is_text (as_str v) claim) vs then vs else vs ++ str claim ∷ []

abbrev pub claims_at : String → Fields → List Value
claims_at user fs = list_at "claims" (object_at user (object_at "users" fs))

abbrev pub set_claims : String → List Value → Fields → Fields
set_claims user vs fs =
    let users = object_at "users" fs in
    let info = object_at user users in
    put_field "users" (obj (put_field user (obj (put_field "claims" (array vs) info)) users)) fs

abbrev pub grant_user : String → Option String → Fields → Fields
grant_user claim none fs = fs
grant_user claim (some user) fs = set_claims user (with_claim claim (claims_at user fs)) fs

abbrev pub grant_role : String → Option String → Fields → Fields
grant_role claim none fs = fs
grant_role claim (some role) fs =
    let roles = object_at "roles" fs in
    put_field "roles" (obj (put_field role (array (with_claim claim (list_at role roles))) roles))
      fs

abbrev pub granted : String → Option String → Option String → Value → Value
granted claim user role config = obj (
    grant_role claim role
      (grant_user claim user (ensure_object "roles" (ensure_object "users" (fields_of config)))))

abbrev pub both_absent : Option String → Option String → Bool
both_absent none none = true
both_absent _ _ = false

-- `fault` is the error of the write, if there is one.
unfoldable pub grant :
    Option String
    → Option String
    → Option String
    → Option String
    → Policy
    → Result ℕ String × Policy
grant fault claim user role policy = elim (non_empty claim) [
  | none ↦ (err "Claim is required", policy)
  | some c ↦
      if both_absent (non_empty user) (non_empty role)
      then (err "Either user or role is required", policy)
      else elim (load policy) [
        | err e ↦ (err (format ("Failed to grant claim: " ∷ e ∷ [])), policy)
        | ok config ↦ elim fault [
          | some e ↦ (err (format ("Failed to grant claim: " ∷ e ∷ [])), policy)
          | none ↦ (ok 0, some (ok (granted c (non_empty user) (non_empty role) config)))
        ]
      ]
]
