-- ===== src/Config/Precedence.antt =====
-- Which layer each group of settings comes from.
use ruflo_rust.Prelude.{
  refl, inr, ap, inl, ◌∙◌, Bool-cases, ℕ, String, ◌≡◌, Bool, not, ◌&&◌, Option, none, some, List,
  [], ◌∷◌, map, retain, contains, arith, string_eq, eq_iff, ◌==◌, Result, ok, trim, contains-to_set,
}
use ruflo_rust.Config.{
  EffectiveConfig, PolicyConfig, Limits, Overlay, Overrides, default_config, default_limits,
  overlay, merge, normalize_tokens, load_with, from_pairs,
}

-- The setting of the first layer that has one.
abbrev pub first {ℓ} : {A : Type ℓ} → List (Option A) → A → A
first [] d = d
first (none ∷ os) d = first os d
first (some a ∷ os) d = a

-- The lists that some options give: both, as soon as one is set.
abbrev pub lists_set : Option (List String) → Option (List String) → Option PolicyConfig
lists_set none none = none
lists_set (some allow) none = some (record { allow = allow; deny = [] })
lists_set none (some deny) = some (record { allow = []; deny = deny })
lists_set (some allow) (some deny) = some (record { allow = allow; deny = deny })

-- The limits that some options give: all three, as soon as one is set.
abbrev pub limits_set : Option ℕ → Option ℕ → Option ℕ → Option Limits
limits_set none none none = none
limits_set bytes running ms = some (record {
  max_request_bytes = first (bytes ∷ []) 65536;
  max_concurrent_executions = first (running ∷ []) 4;
  max_duration_ms = first (ms ∷ []) 30000;
})

module _ (bytes running ms : Option ℕ) where
  policy_of :
      (allow deny : Option (List String))
      → (overlay (record {
        allow = allow;
        deny = deny;
        max_request_bytes = bytes;
        max_concurrent_executions = running;
        max_duration_ms = ms;
      })).policy
        ≡ lists_set allow deny
  unfolding overlay
  policy_of none none = refl
  policy_of none (some d) = refl
  policy_of (some a) none = refl
  policy_of (some a) (some d) = refl

module _ (allow deny : Option (List String)) where
  limits_of :
      (bytes running ms : Option ℕ)
      → (overlay (record {
        allow = allow;
        deny = deny;
        max_request_bytes = bytes;
        max_concurrent_executions = running;
        max_duration_ms = ms;
      })).limits
        ≡ limits_set bytes running ms
  unfolding overlay
  limits_of none none none = refl
  limits_of none none (some c) = refl
  limits_of none (some b) none = refl
  limits_of none (some b) (some c) = refl
  limits_of (some a) none none = refl
  limits_of (some a) none (some c) = refl
  limits_of (some a) (some b) none = refl
  limits_of (some a) (some b) (some c) = refl

overlay-policy : (o : Overrides) → (overlay o).policy ≡ lists_set o.allow o.deny
overlay-policy o =
    policy_of o.max_request_bytes o.max_concurrent_executions o.max_duration_ms o.allow o.deny

overlay-limits :
    (o : Overrides)
    → (overlay o).limits
      ≡ limits_set o.max_request_bytes o.max_concurrent_executions o.max_duration_ms
overlay-limits o =
    limits_of o.allow o.deny o.max_request_bytes o.max_concurrent_executions o.max_duration_ms

contains-retain :
    (t : String) (p : String → Bool) (l : List String)
    → contains t (retain p l) ≡ (p t && contains t l)
contains-retain t p [] = ground arith
contains-retain t p (x ∷ l) = elim (Bool-cases (x == t)) [
  | inl e ↦ let same : x ≡ t = (eq_iff x t).0 e in ground (arith, contains-retain t p l, ap p same)
  | inr e ↦ ground (arith, contains-retain t p l)
]

contains-normalize_tokens :
    (t : String) (l : List String)
    → contains t (normalize_tokens l) ≡ (not (t == "") && contains t (map trim l))
unfolding normalize_tokens
contains-normalize_tokens t l =
    contains-to_set t (retain (λ t. not (t == "")) (map trim l))
    ∙ contains-retain t (λ t. not (t == "")) (map trim l)

merged :
    (a b c : Overlay)
    → merge (merge (merge default_config a) b) c ≡ record {
      policy = first (c.policy ∷ b.policy ∷ a.policy ∷ []) default_config.policy;
      limits = first (c.limits ∷ b.limits ∷ a.limits ∷ []) default_limits;
    }
unfolding merge
merged a b c = ground arith

loaded_overlays :
    (parse : String → Result ℕ String) (cli : Overrides) (env : List (String × String))
    → (file over : Overlay) (c : EffectiveConfig) → from_pairs parse env ≡ ok over
    → load_with parse cli env (ok file) ≡ ok c
    → let raw = merge (merge (merge default_config file) over) (overlay cli) in
      c ≡ record {
        policy = record {
          allow = normalize_tokens raw.policy.allow;
          deny = normalize_tokens raw.policy.deny;
        };
        limits = raw.limits;
      }
unfolding load_with
loaded_overlays parse cli env file over c e h = ground arith

-- Each of the two groups of settings, the lists and the limits, comes whole from one layer: from
-- the command line if it sets a member of the group, where a list that it does not set is empty
-- and a limit that it does not set is the default one; else from the environment, else from the
-- project file, else from the defaults. A token is on a list of the result exactly when
-- it is not empty and is a token of that layer's list with the white space around it taken off.
pub load_with_precedence :
    (parse : String → Result ℕ String) (cli : Overrides) (env : List (String × String))
    → (file over : Overlay) (c : EffectiveConfig) → from_pairs parse env ≡ ok over
    → load_with parse cli env (ok file) ≡ ok c
    → let lists =
        first
          (lists_set cli.allow cli.deny ∷ over.policy ∷ file.policy ∷ [])
          default_config.policy in
      (c.limits
        ≡ first
            (limits_set cli.max_request_bytes cli.max_concurrent_executions cli.max_duration_ms
              ∷ over.limits
              ∷ file.limits
              ∷ [])
            default_limits)
      × ((t : String)
          → (contains t c.policy.allow ≡ (not (t == "") && contains t (map trim lists.allow)))
            × (contains t c.policy.deny ≡ (not (t == "") && contains t (map trim lists.deny))))
load_with_precedence parse cli env file over c e h =
    let made = loaded_overlays parse cli env file over c e h in
    let m = merged file over (overlay cli) in
    rw (← overlay-policy cli, ← overlay-limits cli)
      (
        ap (λ c. c.limits) made ∙ ap (λ r. r.limits) m,
        λ t. (
          ap (λ c. contains t c.policy.allow) made
              ∙ ap (λ r. contains t (normalize_tokens r.policy.allow)) m
              ∙ contains-normalize_tokens t _,
          ap (λ c. contains t c.policy.deny) made
              ∙ ap (λ r. contains t (normalize_tokens r.policy.deny)) m
              ∙ contains-normalize_tokens t _,
        ),
      )

-- A command line that sets only the allow list erases every deny list below it, and one that sets
-- only the duration puts the other two limits back to the defaults, whatever the project file and
-- the environment set.
load_with_erases :
    (parse : String → Result ℕ String) (cli : Overrides) (env : List (String × String))
    → (file : Overlay) (c : EffectiveConfig) (allow : List String) (ms : ℕ)
    → cli ≡ record {
      allow = some allow;
      deny = none;
      max_request_bytes = none;
      max_concurrent_executions = none;
      max_duration_ms = some ms;
    }
    → load_with parse cli env (ok file) ≡ ok c
    → (c.policy.deny ≡ [])
      × (c.limits ≡ record {
        max_request_bytes = 65536;
        max_concurrent_executions = 4;
        max_duration_ms = ms;
      })
unfolding load_with overlay merge normalize_tokens
load_with_erases parse cli env file c allow ms set h = (ground (arith, set), ground (arith, set))
