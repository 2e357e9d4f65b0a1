-- ===== src/Settings/Nested.antt =====
-- What `set` writes is what `get` reads, and other settings keep their values.
use ruflo_rust.Prelude.{
  ◌⊎◌, zero, suc, ℕ, arith, nat_beq, not, inl, inr, true, false, some, none, [], ◌∷◌, ok, ◌>>=◌,
  ◌≡◌, refl, nat_eq, string_eq, beq_self, ◌==◌, String, Option, Bool, List, Option-cases, bind-ok,
  Bool-cases,
}
use ruflo_rust.Json.{
  Value, null, bool, num, str, obj, arr, to_list, field_of-put_field, to_list-from_list,
}
use ruflo_rust.Settings.{
  fits, suc, ◌∷◌, true, not, some, ok, nat_eq, false, ◌≡◌, ◌==◌, List, Bool, ℕ, Value, String,
  Option, parse_usize, nth, put_at, child_of, get_parts, put_child, container, set_nested,
}

nth-put_at : (i : ℕ) (w : Value) (vs : List Value) → nth i (put_at i w vs) ≡ some w
nth-put_at zero w [] = refl
nth-put_at zero w (v ∷ vs) = refl
nth-put_at (suc i) w [] = nth-put_at i w []
nth-put_at (suc i) w (v ∷ vs) = nth-put_at i w vs

-- An element that is there is still there after a write at another index.
nth-put_at_ne :
    (i j : ℕ) (w x : Value) (vs : List Value)
    → nat_beq i j ≡ false
    → nth j vs ≡ some x
    → nth j (put_at i w vs) ≡ some x
nth-put_at_ne i j w x [] ne h = cc
nth-put_at_ne zero zero w x (v ∷ vs) ne h = absurd (ground arith)
nth-put_at_ne zero (suc j) w x (v ∷ vs) ne h = h
nth-put_at_ne (suc i) zero w x (v ∷ vs) ne h = h
nth-put_at_ne (suc i) (suc j) w x (v ∷ vs) ne h = nth-put_at_ne i j w x vs (ground arith) h

child_of-put_child :
    (cap : ℕ) (v w v' : Value) (part : String)
    → put_child cap v part w ≡ ok v'
    → child_of v' part ≡ some w
unfolding put_child child_of
child_of-put_child cap null w v' part h = ground (arith, beq_self part)
child_of-put_child cap (bool b) w v' part h = ground (arith, beq_self part)
child_of-put_child cap (num n) w v' part h = ground (arith, beq_self part)
child_of-put_child cap (str s) w v' part h = ground (arith, beq_self part)
child_of-put_child cap (obj fs) w v' part h =
    ground (arith, field_of-put_field part part w fs, beq_self part)
child_of-put_child cap (arr vs) w v' part h = elim (Option-cases (parse_usize part)) [
  | inl e ↦ absurd (ground arith)
  | inr (i, e) ↦ elim (Bool-cases (fits cap i (to_list vs))) [
    | inr long ↦ absurd (ground (arith, e, long, h))
    | inl short ↦ ground (
      arith,
      e,
      short,
      h,
      nth-put_at i w (to_list vs),
      to_list-from_list (put_at i w (to_list vs)),
    )
  ]
]

-- Two parts that name different children of an object, and of an array.
abbrev pub differ : Option ℕ → Option ℕ → Bool
differ (some i) (some j) = not (nat_beq i j)
differ _ _ = true

abbrev pub IsOther : String → String → Type 0
IsOther p q = ((p == q) ≡ false) × (differ (parse_usize p) (parse_usize q) ≡ true)

child_of-put_child_ne :
    (cap : ℕ) (v w v' x : Value) (p q : String)
    → IsOther p q
    → put_child cap v p w ≡ ok v'
    → child_of v q ≡ some x
    → child_of v' q ≡ some x
unfolding put_child child_of
child_of-put_child_ne cap null w v' x p q o h c = cc
child_of-put_child_ne cap (bool b) w v' x p q o h c = cc
child_of-put_child_ne cap (num n) w v' x p q o h c = cc
child_of-put_child_ne cap (str s) w v' x p q o h c = cc
child_of-put_child_ne cap (obj fs) w v' x p q o h c = ground (arith, field_of-put_field p q w fs)
child_of-put_child_ne cap (arr vs) w v' x p q o h c = elim (Option-cases (parse_usize p)) [
  | inl e ↦ absurd (ground arith)
  | inr (i, e) ↦ elim (Option-cases (parse_usize q)) [
    | inl f ↦ absurd (ground arith)
    | inr (j, f) ↦ elim (Bool-cases (fits cap i (to_list vs))) [
      | inr long ↦ absurd (ground (arith, e, long, h))
      | inl short ↦ ground (
        arith,
        short,
        nth-put_at_ne i j w x (to_list vs),
        to_list-from_list (put_at i w (to_list vs)),
      )
    ]
  ]
]

-- The parts below the first one are written first, and then their value.
below-first :
    (cap : ℕ) (p next : String) (ps : List String) (value current config : Value)
    → set_nested cap (p ∷ next ∷ ps) value current ≡ ok config
    → (child : Value) × (set_nested cap (next ∷ ps) value (container (child_of current p))
        ≡ ok child)
      × (put_child cap current p child ≡ ok config)
unfolding set_nested
below-first cap p next ps value current config h =
    let (_, _, k) =
      bind-ok (put_child cap current p null)
        (λ _.
          set_nested cap (next ∷ ps) value (container (child_of current p))
          >>= (λ c. put_child cap current p c))
        h in
    bind-ok (set_nested cap (next ∷ ps) value (container (child_of current p)))
      (λ c. put_child cap current p c) k

-- What `set_nested` writes under a path is what `get_parts` reads there.
pub set_nested-get_parts :
    (cap : ℕ) (part : String) (rest : List String) (value current config : Value)
    → set_nested cap (part ∷ rest) value current ≡ ok config
    → get_parts (part ∷ rest) config ≡ some value
unfolding set_nested get_parts
set_nested-get_parts cap part [] value current config h =
    rw (get_parts, child_of-put_child cap current value config part h) refl
set_nested-get_parts cap part (next ∷ rest) value current config h =
    let below = container (child_of current part) in
    let (child, e, f) = below-first cap part next rest value current config h in
    rw (get_parts, child_of-put_child cap current child config part f)
      (set_nested-get_parts cap next rest value below child e)

-- Two paths that part at some place, before either ends.
abbrev pub Apart : List String → List String → Type 0
Apart [] qs = ⊥
Apart (p ∷ ps) [] = ⊥
Apart (p ∷ ps) (q ∷ qs) = IsOther p q ⊎ ((p ≡ q) × Apart ps qs)

get_parts-container :
    (o : Option Value) (child x : Value) (q : String) (qs : List String)
    → o ≡ some child
    → get_parts (q ∷ qs) child ≡ some x
    → get_parts (q ∷ qs) (container o) ≡ some x
unfolding get_parts child_of
get_parts-container none child x q qs e h = cc
get_parts-container (some null) child x q qs e h = ground arith
get_parts-container (some (bool b)) child x q qs e h = ground arith
get_parts-container (some (num n)) child x q qs e h = ground arith
get_parts-container (some (str s)) child x q qs e h = ground arith
get_parts-container (some (obj fs)) child x q qs e h = ground arith
get_parts-container (some (arr vs)) child x q qs e h = ground arith

-- A value that is read has a child on the way to it.
child-some :
    (q : String) (qs : List String) (v x : Value)
    → get_parts (q ∷ qs) v ≡ some x
    → (w : Value) × (child_of v q ≡ some w) × (get_parts qs w ≡ some x)
unfolding get_parts
child-some q qs v x g = elim (Option-cases (child_of v q)) [
  | inl e ↦ absurd (ground arith)
  | inr (w, e) ↦ (w, e, ground arith)
]

other :
    (cap : ℕ) (p q : String) (qs : List String) (w current config x : Value)
    → IsOther p q
    → put_child cap current p w ≡ ok config
    → get_parts (q ∷ qs) current ≡ some x
    → get_parts (q ∷ qs) config ≡ some x
unfolding get_parts
other cap p q qs w current config x o h g =
    let (v, e, f) = child-some q qs current x g in
    rw (get_parts, child_of-put_child_ne cap current w config v p q o h e) f

-- A value that is there under a path that parts from the written one is still there.
pub set_nested-get_parts_ne :
    (cap : ℕ) (ps qs : List String) (value current config x : Value)
    → Apart ps qs
    → set_nested cap ps value current ≡ ok config
    → get_parts qs current ≡ some x
    → get_parts qs config ≡ some x
unfolding set_nested get_parts
set_nested-get_parts_ne cap [] qs value current config x a h g = absurd a
set_nested-get_parts_ne cap (p ∷ ps) [] value current config x a h g = absurd a
set_nested-get_parts_ne cap (p ∷ []) (q ∷ qs) value current config x (inl o) h g =
    other cap p q qs value current config x o h g
set_nested-get_parts_ne cap (p ∷ next ∷ ps) (q ∷ qs) value current config x (inl o) h g =
    let below = container (child_of current p) in
    let (child, e, f) = below-first cap p next ps value current config h in
    other cap p q qs child current config x o f g
set_nested-get_parts_ne cap (p ∷ []) (q ∷ qs) value current config x (inr (e, a)) h g = absurd a
set_nested-get_parts_ne cap (p ∷ next ∷ ps) (q ∷ []) value current config x (inr (e, a)) h g =
    absurd a
set_nested-get_parts_ne cap (p ∷ next ∷ ps) (q ∷ r ∷ qs) value current config x (inr (same, a)) h
      g =
    let below = container (child_of current p) in
    let (child, e, f) = below-first cap p next ps value current config h in
    let (old, there, inside) = child-some q (r ∷ qs) current x g in
    let kept =
      set_nested-get_parts_ne cap (next ∷ ps) (r ∷ qs) value below child x a e
        (get_parts-container (child_of current p) old x r qs (rw same there) inside) in
    rw (get_parts, ← same, child_of-put_child cap current child config p f) kept
