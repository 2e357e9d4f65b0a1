-- ===== src/Lifecycle/Swarms/Growing.antt =====
-- The loop of `scale_swarm` that spawns agents.
use Prim.Native.String.{◌++◌}
use text.Mathlib.TextLemmas.{append_cancel_left, append_cancel_right, append-eq-nil_iff}
use ruflo_rust.Prelude.Text.Digits.{decimal-injective, all_chars-decimal}
use ruflo_rust.Prelude.{
  ◌+◌, ◌≤◌, ◌<◌, ◌^◌, zero, suc, ℕ, String, ◌≡◌, refl, sym, ◌∙◌, inl, inr, true, false, some, List,
  ok, arith, decimal, contains, all_chars, all_chars-append, is_safe, string_eq, nat_eq, eq_iff,
  ◌==◌, Bool-cases, Option-cases,
}
use ruflo_rust.Dict.{get, has_key, get-put}
use ruflo_rust.Pigeonhole.{hits}
use ruflo_rust.Lifecycle.{Project, safe_identifier}
use ruflo_rust.Lifecycle.Agents.{row_of, new_agent}
use ruflo_rust.Lifecycle.Agents.Rows.{
  IsReady, live, with_row, with_row-IsReady, get_agent_lem, spawn_agent_lem, live-with_row,
}
use ruflo_rust.Lifecycle.Swarms.Scale.{scale_id, scale_up}

digits_are_safe : (c : ℕ) → 48 ≤ c → c ≤ 57 → is_safe c ≡ true
digits_are_safe c lo hi = ground arith

safe_chars : (v : String) → safe_identifier v ≡ ok v → all_chars is_safe v ≡ true
unfolding safe_identifier
safe_chars v h = ground arith

module _ (kind : String) (k : safe_identifier kind ≡ ok kind) where
  scale_id_ne : (n : ℕ) → (scale_id kind n == "") ≡ false
  scale_id_ne n = elim (Bool-cases (scale_id kind n == "")) [
    | inr differs ↦ differs
    | inl same ↦ absurd (
        let start : ◌≡◌ {A = String} "scale-" "" =
          ((append-eq-nil_iff {p = "scale-"} {q = kind ++ ("-" ++ (decimal n ++ ""))}).0
            ((eq_iff (scale_id kind n) "").0 same)).0 in
        let wrong : false ≡ true = (eq_iff "scale-" "").1 start in ground (arith, wrong))
  ]

  scale_id-all_chars : (n : ℕ) → all_chars is_safe (scale_id kind n) ≡ true
  scale_id-all_chars n =
      let p = is_safe in
      all_chars-append p "scale-" (kind ++ ("-" ++ (decimal n ++ "")))
      ∙ all_chars-append p kind ("-" ++ (decimal n ++ ""))
      ∙ rw (safe_chars kind k) (
          all_chars-append p "-" (decimal n ++ "")
          ∙ all_chars-append p (decimal n) ""
          ∙ rw (all_chars-decimal p n digits_are_safe) refl)

  pub scale_id-safe : (n : ℕ) → safe_identifier (scale_id kind n) ≡ ok (scale_id kind n)
  unfolding safe_identifier
  scale_id-safe n = rw (scale_id_ne n, scale_id-all_chars n) refl

  pub scale_id-injective :
      (i j : ℕ) → i < 10 ^ 20 → j < 10 ^ 20 → scale_id kind i ≡ scale_id kind j → i ≡ j
  scale_id-injective i j hi hj e = decimal-injective i j hi hj (
      append_cancel_right (decimal i) (decimal j) "" (
        append_cancel_left "-" (decimal i ++ "") (decimal j ++ "") (
          append_cancel_left kind ("-" ++ (decimal i ++ "")) ("-" ++ (decimal j ++ "")) (
            append_cancel_left "scale-" (kind ++ ("-" ++ (decimal i ++ "")))
              (kind ++ ("-" ++ (decimal j ++ ""))) e))))

  -- The agents that have the names from `next` on are those of `used`.
  abbrev pub Agrees : List String → ℕ → Project → Type 0
  Agrees used next p =
      (i : ℕ)
      → next ≤ i
      → i < 10 ^ 20
      → has_key p.store.agents (scale_id kind i) ≡ contains (scale_id kind i) used

  spawned-Agrees :
      (used : List String) (next : ℕ) (p : Project)
      → next < 10 ^ 20
      → Agrees used next p
      → Agrees used (suc next) (
          with_row
            (scale_id kind next)
            (row_of kind (new_agent (scale_id kind next) kind))
            "agent spawned"
            p)
  spawned-Agrees used next p h a i lo hi =
      let id = scale_id kind next in
      let row = row_of kind (new_agent id kind) in
      elim (Bool-cases (id == scale_id kind i)) [
        | inl same ↦ absurd (
            let e = scale_id-injective next i h hi ((eq_iff id (scale_id kind i)).0 same) in
            omega (arith, e))
        | inr other ↦
            rw (has_key, get-put p.store.agents id (scale_id kind i) row, other)
              (a i (omega arith) hi)
      ]

  -- Turns for the missing agents and for the names in use are enough: the loop ends, and that many
  -- agents more are live.
  pub scale_up_lem :
      (turns next missing : ℕ) (used : List String) (p : Project)
      → IsReady p
      → next + turns ≤ 10 ^ 20
      → Agrees used next p
      → missing + hits (λ i. contains (scale_id kind i) used) next turns ≤ turns
      → (q : Project) × (scale_up turns kind next missing p ≡ some (ok tt, q))
        × IsReady q
        × (live q ≡ live p + missing)
        × (q.swarm ≡ p.swarm)
  unfolding scale_up hits
  scale_up_lem zero next zero used p r b a h = (p, refl, r, omega arith, refl)
  scale_up_lem (suc turns) next zero used p r b a h = (p, refl, r, omega arith, refl)
  scale_up_lem zero next (suc missing) used p r b a h = absurd (omega arith)
  scale_up_lem (suc turns) next (suc missing) used p r b a h =
      let id = scale_id kind next in
      let safe = scale_id-safe next in
      let look = get_agent_lem p r id safe in
      let here = a next (omega arith) (omega arith) in
      elim (Option-cases (get p.store.agents id)) [
        | inr (row, there) ↦
            let hit : contains id used ≡ true = sym here ∙ rw (has_key, there) refl in
            let (q, e, ready, grown, same) =
              scale_up_lem turns (suc next) (suc missing) used p r (omega arith)
                (λ i lo hi. a i (omega arith) hi) (ground (arith, hit, h)) in
            (q, rw (scale_up, look, there) (rw (look) e), ready, grown, same)
        | inl free ↦
            let miss : contains id used ≡ false = sym here ∙ rw (has_key, free) refl in
            let row = row_of kind (new_agent id kind) in
            let more = with_row id row "agent spawned" p in
            let spawns = spawn_agent_lem p r id safe kind k free in
            let (q, e, ready, grown, same) =
              scale_up_lem turns (suc next) missing used more
                (with_row-IsReady p id row "agent spawned" r safe refl) (omega arith)
                (spawned-Agrees used next p (omega arith) a) (ground (arith, miss, h)) in
            let added : live more ≡ live p + 1 =
              ground (arith, live-with_row p id row "agent spawned", free) in
            (
              q,
              rw (scale_up, look, free) (rw (look, spawns) (rw (look, spawns) e)),
              ready,
              omega (arith, grown, added),
              same,
            )
      ]
