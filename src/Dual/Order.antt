-- ===== src/Dual/Order.antt =====
-- The order in which the workers run.
use ruflo_rust.Prelude.{
  eq_iff, Bool-cases, subst, ℕ, zero, suc, ◌≤◌, ◌<◌, String, ◌≡◌, refl, ap, ◌∙◌, ◌⊎◌, inl, inr,
  Bool, true, Option, some, List, [], ◌∷◌, ◌++◌, map, find, length, All, Result, arith, string_eq,
  ◌==◌, append_assoc,
}
use ruflo_rust.Dual.Workers.{Worker}
use ruflo_rust.Dual.Batches.{
  WorktreeAssignment, chunks, take, drop, failures_of, assigned, batch_failures, run_batches,
}

take-drop : (n : ℕ) (ws : List Worker) → take n ws ++ drop n ws ≡ ws
take-drop zero ws = refl
take-drop (suc n) [] = refl
take-drop (suc n) (w ∷ ws) = rw (take-drop n ws) refl

length-drop : (n : ℕ) (ws : List Worker) → length (drop n ws) ≤ length ws
length-drop zero ws = omega arith
length-drop (suc n) [] = omega arith
length-drop (suc n) (w ∷ ws) = omega (arith, length-drop n ws)

abbrev pub concat : List (List Worker) → List Worker
concat [] = []
concat (b ∷ bs) = b ++ concat bs

concat-chunks :
    (fuel size : ℕ) (ws : List Worker) → length ws ≤ fuel → concat (chunks fuel (suc size) ws) ≡ ws
unfolding chunks
concat-chunks zero size [] h = refl
concat-chunks zero size (w ∷ ws) h = absurd (omega (arith, h))
concat-chunks (suc fuel) size [] h = refl
concat-chunks (suc fuel) size (w ∷ ws) h =
    rw
      (
        concat-chunks fuel size (drop size ws) (omega (arith, h, length-drop size ws)),
        take-drop size ws,
      )
      refl

append_empty : (xs ys : List String) → xs ++ ys ≡ [] → (xs ≡ []) × (ys ≡ [])
append_empty [] ys e = (refl, e)
append_empty (x ∷ xs) ys e = cc

failures-cases :
    (fs : List String) → (fs ≡ []) ⊎ ((x : String) × (xs : List String) × (fs ≡ x ∷ xs))
failures-cases [] = inl refl
failures-cases (x ∷ xs) = inr (x, xs, refl)

module _ (P : Worker → Type 0) where
  All-append : (xs ys : List Worker) → All P xs → All P ys → All P (xs ++ ys)
  All-append [] ys h k = k
  All-append (x ∷ xs) ys h k = (h.0, All-append xs ys h.1 k)

  All-append_inv : (xs ys : List Worker) → All P (xs ++ ys) → All P xs × All P ys
  All-append_inv [] ys h = (tt, h)
  All-append_inv (x ∷ xs) ys h = let (k, l) = All-append_inv xs ys h.1 in ((h.0, k), l)

pub concat-chunks_lem :
    (fuel size : ℕ) (ws : List Worker)
    → 0 < size
    → length ws ≤ fuel
    → concat (chunks fuel size ws) ≡ ws
concat-chunks_lem fuel zero ws pos h = absurd (omega (arith, pos))
concat-chunks_lem fuel (suc size) ws pos h = concat-chunks fuel size ws h

module _ (execute : Worker → String → Option (Result Worker String))
    (assignments : List WorktreeAssignment) where
  abbrev pub IsAssigned : Worker → Type 0
  IsAssigned w = (a : WorktreeAssignment) × (assigned execute assignments w ≡ some a)

  -- The worker ran at the path that is assigned to it, and did not fail.
  abbrev pub Succeeds : Worker → Type 0
  Succeeds w =
      (a : WorktreeAssignment) × (assigned execute assignments w ≡ some a)
      × (failures_of execute assignments (execute w a.path) ≡ [])

  batch_failures_lem :
      (ws : List Worker)
      → All IsAssigned ws
      → (fs : List String) × (batch_failures execute assignments ws ≡ some fs)
        × (fs ≡ [] → All Succeeds ws)
  unfolding batch_failures
  batch_failures_lem [] h = ([], refl, λ _. tt)
  batch_failures_lem (w ∷ ws) h =
      let (a, e) = h.0 in
      let (fs, f, k) = batch_failures_lem ws h.1 in
      (
        failures_of execute assignments (execute w a.path) ++ fs,
        rw (batch_failures, e, f) refl,
        λ n.
            let (none_here, none_after) =
              append_empty (failures_of execute assignments (execute w a.path)) fs n in
            ((a, e, none_here), k none_after),
      )

  -- What the loop leaves: the workers it started, which come first in the batches, and the
  -- failures.
  abbrev pub Left : List (List Worker) → List Worker × List String → Type 0
  Left bs r =
      ((rest : List Worker) × (r.0 ++ rest ≡ concat bs))
      × (r.1 ≡ [] → (r.0 ≡ concat bs) × All Succeeds (concat bs))

  pub run_batches_lem :
      (bs : List (List Worker))
      → All IsAssigned (concat bs)
      → (r : List Worker × List String) × (run_batches execute assignments bs ≡ some r) × Left bs r
  unfolding run_batches
  run_batches_lem [] h = (([], []), refl, (([], refl), λ _. (refl, tt)))
  run_batches_lem (b ∷ bs) h =
      let (hb, hbs) = All-append_inv IsAssigned b (concat bs) h in
      let (fs, f, k) = batch_failures_lem b hb in
      let (r, e, l) = run_batches_lem bs hbs in
      elim (failures-cases fs) [
        | inl clean ↦ (
          (b ++ r.0, r.1),
          rw (run_batches, f, clean, e) refl,
          (
            (l.0.0, append_assoc b r.0 l.0.0 ∙ ap (λ x. b ++ x) l.0.1),
            λ n.
                let (same, well) = l.1 n in
                (ap (λ x. b ++ x) same, All-append Succeeds b (concat bs) (k clean) well),
          ),
        )
        | inr (x, xs, failed) ↦
            ((b, x ∷ xs), rw (run_batches, f, failed) refl, ((concat bs, refl), λ n. cc))
      ]

found-append :
    (p : WorktreeAssignment → Bool) (made : List WorktreeAssignment) (x : WorktreeAssignment)
    (rest : List WorktreeAssignment)
    → p x ≡ true
    → (a : WorktreeAssignment) × (find p (made ++ x ∷ rest) ≡ some a)
found-append p [] x rest h = (x, rw h refl)
found-append p (y ∷ made) x rest h = elim (Bool-cases (p y)) [
  | inl e ↦ (y, rw e refl)
  | inr e ↦ let (a, f) = found-append p made x rest h in (a, rw (e, f) refl)
]

-- Every worker of `map f` has an assignment, where `f` keeps the identifier.
pub IsAssigned-map :
    (execute : Worker → String → Option (Result Worker String)) (f : Worker → WorktreeAssignment)
    → ((w : Worker) → (f w).agent_id ≡ w.id)
    → (made : List WorktreeAssignment) (ws : List Worker)
    → All (IsAssigned execute (made ++ map f ws)) ws
IsAssigned-map execute f keeps made [] = tt
IsAssigned-map execute f keeps made (w ∷ ws) = (
  found-append (λ a. a.agent_id == w.id) made (f w) (map f ws)
      ((eq_iff (f w).agent_id w.id).1 (keeps w)),
  subst (λ l. All (IsAssigned execute l) ws) (append_assoc made (f w ∷ []) (map f ws))
      (IsAssigned-map execute f keeps (made ++ f w ∷ []) ws),
)
