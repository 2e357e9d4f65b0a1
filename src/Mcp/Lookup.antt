-- ===== src/Mcp/Lookup.antt =====
-- A registry whose tools have different names, and a search by name in what is left of it.
use ruflo_rust.Prelude.{
  String, ◌≡◌, refl, sym, ap, ◌∙◌, Bool, false, none, some, List, [], ◌∷◌, find, retain, any, arith,
  string_eq, eq_iff, ◌==◌, if◌then◌else◌, Bool-cases, inl, inr,
}
use ruflo_rust.Mcp.{RegisteredTool}

module _ {W : Type 0} where
  abbrev pub is_named : String → RegisteredTool W → Bool
  is_named name t = t.definition.name == name

  -- The names of the registry are all different.
  abbrev pub Distinct : List (RegisteredTool W) → Type 0
  Distinct [] = Unit
  Distinct (t ∷ ts) = (any (is_named t.definition.name) ts ≡ false) × Distinct ts

  find_unnamed :
      (name : String) (ts : List (RegisteredTool W))
      → any (is_named name) ts ≡ false
      → (p : RegisteredTool W → Bool) → find (is_named name) (retain p ts) ≡ none
  find_unnamed name [] h p = refl
  find_unnamed name (t ∷ ts) h p = ground (arith, find_unnamed name ts (ground arith) p)

  -- Where names are different, a filter before a search by name is a test after it.
  pub find-retain :
      (p : RegisteredTool W → Bool) (name : String) (ts : List (RegisteredTool W))
      → Distinct ts
      → find (is_named name) (retain p ts)
        ≡ elim (find (is_named name) ts) [ none ↦ none | some t ↦ if p t then some t else none ]
  find-retain p name [] v = refl
  find-retain p name (t ∷ ts) v = elim (Bool-cases (is_named name t)) [
    | inl e ↦
        let same : t.definition.name ≡ name = (eq_iff t.definition.name name).0 e in
        let gone = find_unnamed name ts (ap (λ n. any (is_named n) ts) (sym same) ∙ v.0) p in
        ground (arith, gone)
    | inr e ↦ ground (arith, find-retain p name ts v.1)
  ]

  any-retain :
      (name : String) (p : RegisteredTool W → Bool) (ts : List (RegisteredTool W))
      → any (is_named name) ts ≡ false
      → any (is_named name) (retain p ts) ≡ false
  any-retain name p [] h = refl
  any-retain name p (t ∷ ts) h = ground (arith, any-retain name p ts)

  pub retain-Distinct :
      (p : RegisteredTool W → Bool) (ts : List (RegisteredTool W))
      → Distinct ts
      → Distinct (retain p ts)
  retain-Distinct p [] v = tt
  retain-Distinct p (t ∷ ts) v = elim (Bool-cases (p t)) [
    | inl e ↦ rw e (any-retain t.definition.name p ts v.0, retain-Distinct p ts v.1)
    | inr e ↦ rw e (retain-Distinct p ts v.1)
  ]
