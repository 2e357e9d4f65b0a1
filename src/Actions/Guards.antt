-- ===== src/Actions/Guards.antt =====
-- What a manifest that is accepted guarantees, and what an action that runs has passed.
use ruflo_rust.Prelude.{
  ℕ, ◌<◌, String, ◌≡◌, ◌↔◌, refl, ap, subst, ◌∙◌, Bool, true, false, some, List, [], ◌∷◌, find, any,
  contains, Result, ok, is_blank, arith, string_eq, ◌==◌, inl, inr, Option-cases, Result-cases,
}
use ruflo_rust.Actions.{
  ActionRequest, ActionOutput, Executor, starts_with, canonicalize_directory, execute_inner, guards,
  execute,
}
use ruflo_rust.Actions.Manifest.{is_nil}
use ruflo_rust.Actions.Manifest.{
  NativeAction, key_of, same_key, DeclaredAction, ActionManifest, check_ids, validate,
}

-- No identifier is blank, is among those seen before, or comes twice.
abbrev pub IdsOk : List String → List DeclaredAction → Type 0
IdsOk seen [] = Unit
IdsOk seen (a ∷ actions) =
    (is_blank a.id ≡ false) × (contains a.id seen ≡ false) × IdsOk (a.id ∷ seen) actions

check_ids-IdsOk :
    (seen : List String) (actions : List DeclaredAction)
    → check_ids seen actions ≡ ok tt
    → IdsOk seen actions
unfolding check_ids
check_ids-IdsOk seen [] h = tt
check_ids-IdsOk seen (a ∷ actions) h =
    (ground arith, ground arith, check_ids-IdsOk (a.id ∷ seen) actions (ground arith))

IdsOk-check_ids :
    (seen : List String) (actions : List DeclaredAction)
    → IdsOk seen actions
    → check_ids seen actions ≡ ok tt
unfolding check_ids
IdsOk-check_ids seen [] v = refl
IdsOk-check_ids seen (a ∷ actions) v = rw (v.0, v.1) (IdsOk-check_ids (a.id ∷ seen) actions v.2)

first_of :
    (l : List DeclaredAction)
    → (is_nil l ≡ false) ↔ ((a : DeclaredAction) × (rest : List DeclaredAction) × (l ≡ a ∷ rest))
first_of [] = (λ h. cc, λ h. ground (arith, h.2))
first_of (a ∷ l) = (λ h. (a, l, refl), λ h. refl)

-- A manifest is accepted, and returned as it is, exactly when its version is 1, its name is not
-- blank, it declares at least one action, and the identifiers of its actions are not blank and all
-- different.
validate_iff :
    (m : ActionManifest)
    → (validate m ≡ ok m) ↔ (
        (m.version ≡ 1)
        × (is_blank m.name ≡ false)
        × ((a : DeclaredAction) × (rest : List DeclaredAction) × (m.actions ≡ a ∷ rest))
        × IdsOk [] m.actions)
unfolding validate
validate_iff m = (
  λ h. (
    ground arith,
    ground arith,
    (first_of m.actions).0 (ground arith),
    check_ids-IdsOk [] m.actions (ground arith),
  ),
  λ h. ground (arith, (first_of m.actions).1 h.2, IdsOk-check_ids [] m.actions h.3),
)

module _ (canonicalize : String → Result (List String) String)
    (is_directory : List String → Result Bool String) (display : List String → String) where
  canonicalize_directory_ok :
      (path code message : String) (d : List String)
      → canonicalize_directory canonicalize is_directory display path code message ≡ ok d
      → (canonicalize path ≡ ok d) × (is_directory d ≡ ok true)
  unfolding canonicalize_directory
  canonicalize_directory_ok path code message d h = elim (Result-cases (canonicalize path)) [
    | inl (e, c) ↦ absurd (ground arith)
    | inr (p, c) ↦ elim (Result-cases (is_directory p)) [
      | inl (e, i) ↦ absurd (ground arith)
      | inr (true, i) ↦
          let same : p ≡ d = ground arith in
          (rw c (ap ok same), subst (λ x. is_directory x ≡ ok true) same i)
      | inr (false, i) ↦ absurd (ground arith)
    ]
  ]

  -- What `execute` has seen of a request that it runs.
  abbrev pub Passed : Executor → ActionRequest → List String → Type 0
  Passed x r directory =
      ((a : DeclaredAction) × (find (λ a. a.id == r.action_id) r.manifest.actions ≡ some a)
        × (same_key (key_of a.action) (key_of r.invocation) ≡ true))
      × ((root : List String) × (canonicalize r.project_root ≡ ok root)
          × (canonicalize r.working_directory ≡ ok directory)
          × (is_directory directory ≡ ok true)
          × (starts_with directory root ≡ true))
      × (any (same_key (key_of r.invocation)) x.allowlist ≡ true)

  guards-Passed :
      (x : Executor) (r : ActionRequest) (directory : List String)
      → guards canonicalize is_directory display x r ≡ ok directory
      → Passed x r directory
  unfolding guards
  guards-Passed x r directory h =
      elim (Option-cases (find (λ a. a.id == r.action_id) r.manifest.actions)) [
        | inl f ↦ absurd (ground arith)
        | inr (a, f) ↦
            let root_of =
              canonicalize_directory canonicalize is_directory display r.project_root
                "actions.project_root.invalid" "project root must be an existing directory" in
            let dir_of =
              canonicalize_directory canonicalize is_directory display r.working_directory
                "actions.working_directory.invalid"
                "working directory must be an existing directory" in
            elim (Result-cases root_of) [
              | inl (e, o) ↦ absurd (ground arith)
              | inr (root, o) ↦ elim (Result-cases dir_of) [
                | inl (e, q) ↦ absurd (ground arith)
                | inr (d, q) ↦
                    let same : d ≡ directory = ground arith in
                    let c = canonicalize_directory_ok _ _ _ root o in
                    let k = canonicalize_directory_ok _ _ _ directory (q ∙ ap ok same) in
                    ((a, f, ground arith), (root, c.0, k.0, k.1, ground arith), ground arith)
              ]
            ]
      ]

  inner_directory :
      (i : NativeAction) (d : List String) (limit : ℕ) (out : ActionOutput)
      → execute_inner canonicalize is_directory display i d limit ≡ ok out
      → d ≡ out.directory
  unfolding execute_inner
  inner_directory (NativeAction.sleep ms) d limit out h = ground arith
  inner_directory (NativeAction.echo arguments) d limit out h = ground arith
  inner_directory NativeAction.print_working_directory d limit out h = ground arith

  -- An action that gives an output was declared in the manifest with the same kind, is in the
  -- executor's allow list, ran while fewer actions than the limit did, and ran in an existing
  -- directory inside the project's root. Every execution leaves the counter as it was, errors
  -- included.
  pub execute_lem :
      (x : Executor) (r : ActionRequest) (active : ℕ)
      → ((execute canonicalize is_directory display x r active).1 ≡ active)
        × ((out : ActionOutput)
            → (execute canonicalize is_directory display x r active).0 ≡ ok out
            → Passed x r out.directory × (active < x.max_concurrent_executions))
  unfolding execute
  execute_lem x r active = (
    ground arith,
    λ out h. elim (Result-cases (guards canonicalize is_directory display x r)) [
      | inl (e, g) ↦ absurd (ground arith)
      | inr (d, g) ↦
          let ran : execute_inner canonicalize is_directory display r.invocation d
                x.default_timeout_ms
              ≡ ok out =
            ground arith in
          (
            subst (Passed x r) (inner_directory r.invocation d x.default_timeout_ms out ran)
                (guards-Passed x r d g),
            ground arith,
          )
    ],
  )
