-- ===== src/Dual/Parsing.antt =====
-- What `parse_workers` returns.
use ruflo_rust.Prelude.{
  before, after, ◌≢◌, ◌+◌, ◌^◌, ◌<◌, String, ◌≡◌, refl, inl, inr, true, false, some, List, [], ◌∷◌,
  contains, length, Result, ok, err, arith, string_eq, ◌==◌, Bool-cases, trim,
}
use ruflo_rust.Dual.Workers.{
  at_least_one, worker_of, invalid_spec, wrong_platform, Worker, base_id, parse_worker, parse_from,
  parse_workers, prepend, is_flag,
}
use ruflo_rust.Dual.Naming.{free_id_lem}

-- A worker with a role and a prompt, and an identifier that is not among the given ones.
abbrev pub IsNew : List String → Worker → Type 0
IsNew used w = (contains w.id used ≡ false) × ((w.role == "") ≡ false) × ((w.prompt == "") ≡ false)

-- Each of the workers is new to those before it.
abbrev pub AllNew : List String → List Worker → Type 0
AllNew used [] = Unit
AllNew used (w ∷ ws) = IsNew used w × AllNew (w.id ∷ used) ws

abbrev pub Parsed : List String → Result (List Worker) String → Type 0
Parsed used (ok ws) = AllNew used ws
Parsed used (err e) = Unit

abbrev ParsedOne : List String → Result Worker String → Type 0
ParsedOne used (ok w) = IsNew used w
ParsedOne used (err e) = Unit

module _ (lower : String → String) where
  parse_worker_lem :
      (used : List String) (spec : String)
      → length used + 3 < 2 ^ 31
      → (r : Result Worker String) × (parse_worker lower used spec ≡ some r) × ParsedOne used r
  unfolding parse_worker
  parse_worker_lem used spec h =
      let platform = lower (trim (before 58 spec)) in
      let role = trim (before 58 (after 58 spec)) in
      let prompt = trim (after 58 (after 58 spec)) in
      let (id, e, free) = free_id_lem (base_id lower role) used h in
      elim (Bool-cases (platform == "codex")) [
        | inr other ↦ (err (wrong_platform platform), rw other refl, tt)
        | inl codex ↦ elim (Bool-cases (role == "")) [
          | inl blank ↦ (err (invalid_spec spec), rw (codex, blank) refl, tt)
          | inr named ↦ elim (Bool-cases (prompt == "")) [
            | inl blank ↦ (err (invalid_spec spec), rw (codex, named, blank) refl, tt)
            | inr asked ↦ (
              ok (worker_of lower id role prompt),
              rw (codex, named, asked, e) refl,
              (free, named, asked),
            )
          ]
        ]
      ]

  -- A worker in front of what the rest of the arguments gives.
  prepend_lem :
      (used : List String) (w : Worker) (r : Result (List Worker) String)
      → IsNew used w
      → Parsed (w.id ∷ used) r
      → (r' : Result (List Worker) String) × (prepend lower w (some r) ≡ some r') × Parsed used r'
  prepend_lem used w (ok ws) n p = (ok (w ∷ ws), refl, (n, p))
  prepend_lem used w (err e) n p = (err e, refl, tt)

  turn_lem :
      (used : List String) (a spec : String) (rest : List String) (r : Result Worker String)
      → is_flag lower a ≡ true
      → parse_worker lower used spec ≡ some r
      → ParsedOne used r
      → ((w : Worker)
          → (r' : Result (List Worker) String) × (parse_from lower (w.id ∷ used) rest ≡ some r')
            × Parsed (w.id ∷ used) r')
      → (r' : Result (List Worker) String) × (parse_from lower used (a ∷ spec ∷ rest) ≡ some r')
        × Parsed used r'
  unfolding parse_from
  turn_lem used a spec rest (err x) flag e n k = (err x, rw (flag, e) refl, tt)
  turn_lem used a spec rest (ok w) flag e n k =
      let (r, f, p) = k w in let (r', g, q) = prepend_lem used w r n p in (r', rw (flag, e, f) g, q)

  parse_from_lem :
      (used args : List String)
      → length used + length args + 3 < 2 ^ 31
      → (r : Result (List Worker) String) × (parse_from lower used args ≡ some r) × Parsed used r
  unfolding parse_from
  parse_from_lem used [] h = (ok [], refl, tt)
  parse_from_lem used (a ∷ []) h = elim (Bool-cases (is_flag lower a)) [
    | inl flag ↦ (err "--worker requires a value", rw flag refl, tt)
    | inr other ↦ (ok [], rw other refl, tt)
  ]
  parse_from_lem used (a ∷ spec ∷ rest) h = elim (Bool-cases (is_flag lower a)) [
    | inr other ↦
        let (r, e, p) = parse_from_lem used (spec ∷ rest) (omega (arith, h)) in
        (r, rw (other, e) refl, p)
    | inl flag ↦
        let (r, e, p) = parse_worker_lem used spec (omega (arith, h)) in
        turn_lem used a spec rest r flag e p
          (λ w. parse_from_lem (w.id ∷ used) rest (omega (arith, h)))
  ]

  at_least_one_lem :
      (r : Result (List Worker) String)
      → Parsed [] r
      → Parsed [] (at_least_one lower r) × (at_least_one lower r ≢ ok [])
  at_least_one_lem (err x) p = (tt, λ q. cc)
  at_least_one_lem (ok []) p = (tt, λ q. cc)
  at_least_one_lem (ok (w ∷ ws)) p = (p, λ q. cc)

  parse_workers-some :
      (args : List String) (r : Result (List Worker) String)
      → parse_from lower [] args ≡ some r
      → parse_workers lower args ≡ some (at_least_one lower r)
  unfolding parse_workers
  parse_workers-some args r e = rw (parse_workers, e) refl

  -- The command line is always read to an end: the suffix of an identifier does not overflow
  -- where there are fewer than 2^31 - 3 arguments. The result is an error or at least one
  -- worker; each worker has a role, a prompt, and an identifier that none of the workers before it
  -- has.
  pub parse_workers_lem :
      (args : List String)
      → length args + 3 < 2 ^ 31
      → (r : Result (List Worker) String) × (parse_workers lower args ≡ some r)
        × (Parsed [] r × (r ≢ ok []))
  parse_workers_lem args h =
      let (r, e, p) = parse_from_lem [] args (omega (arith, h)) in
      (at_least_one lower r, parse_workers-some args r e, at_least_one_lem r p)
