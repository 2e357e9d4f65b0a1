-- ===== src/Lifecycle/Swarms/Stopped.antt =====
-- A swarm that was stopped.
use ruflo_rust.Prelude.{
  ℕ, String, ◌≡◌, refl, sym, ap, inl, inr, Bool, true, false, not, ◌||◌, Option, none, some, List,
  [], ◌∷◌, Result, ok, is_blank, ltb, string_eq, nat_eq, eq_iff, ◌==◌, if◌then◌else◌, Bool-cases,
}
use ruflo_rust.Lifecycle.{IoError, SwarmRecord, Project, valid_strategy}
use ruflo_rust.Lifecycle.Swarms.{write_swarm, start_swarm, finish_swarm, stop_swarm}
use ruflo_rust.Lifecycle.Swarms.Scale.{scale_swarm}
use ruflo_rust.Lifecycle.Swarms.Scaling.{the_swarm_lem}

-- The calls on the swarm that is there; the first argument of `scale` is the fuel.
pub data SwarmCall : Type 0 where
  start : String → String → SwarmCall
  stop : String → SwarmCall
  scale : ℕ → String → ℕ → Option String → SwarmCall

abbrev state_of : Project → Option (Result (ℕ × ℕ × ℕ) IoError × Project) → Project
state_of p none = p
state_of p (some (r, q)) = q

unfoldable pub step : Project → SwarmCall → Project
step p (start objective strategy) = (start_swarm objective strategy p).1
step p (stop id) = (stop_swarm id p).1
step p (scale turns id target agent_type) = state_of p (scale_swarm turns id target agent_type p)

unfoldable pub run : Project → List SwarmCall → Project
run p [] = p
run p (c ∷ cs) = run (step p c) cs

module _ (w : SwarmRecord) (p : Project) (h : p.swarm ≡ some (ok w))
    (s : w.status ≡ "stopped") where
  halted : (w.status == "stopped") ≡ true
  halted = (eq_iff w.status "stopped").1 s

  start_stopped : (objective strategy : String) → (start_swarm objective strategy p).1 ≡ p
  unfolding start_swarm
  start_stopped objective strategy = elim (Bool-cases (is_blank objective)) [
    | inl blank ↦ rw (start_swarm, blank) refl
    | inr said ↦ rw (start_swarm, said, the_swarm_lem w p h, halted) refl
  ]

  stop_stopped : (id : String) → (stop_swarm id p).1.swarm ≡ some (ok w)
  unfolding stop_swarm
  stop_stopped id = elim (Bool-cases (not (w.id == id))) [
    | inl other ↦ rw (stop_swarm, the_swarm_lem w p h, other) h
    | inr same ↦
        rw (stop_swarm, the_swarm_lem w p h, same)
          (ap (λ t. some (ok (record w { status = t }))) (sym s))
  ]

  scale_stopped :
      (turns : ℕ) (id : String) (target : ℕ) (agent_type : Option String)
      → state_of p (scale_swarm turns id target agent_type p) ≡ p
  unfolding scale_swarm
  scale_stopped turns id target agent_type = elim (Bool-cases (target == 0 || ltb 100 target)) [
    | inl out ↦ rw (scale_swarm, out) refl
    | inr within ↦ elim (Bool-cases (not (w.id == id))) [
      | inl other ↦ rw (scale_swarm, within, the_swarm_lem w p h, other) refl
      | inr same ↦ rw (scale_swarm, within, the_swarm_lem w p h, same, halted) refl
    ]
  ]

step_stopped :
    (w : SwarmRecord) (p : Project) (c : SwarmCall)
    → w.status ≡ "stopped"
    → p.swarm ≡ some (ok w)
    → (step p c).swarm ≡ some (ok w)
unfolding step
step_stopped w p (start o strategy) s h = rw (start_stopped w p h s o strategy) h
step_stopped w p (stop id) s h = stop_stopped w p h s id
step_stopped w p (scale turns id target t) s h = rw (scale_stopped w p h s turns id target t) h

run_stopped :
    (w : SwarmRecord) (p : Project) (cs : List SwarmCall)
    → w.status ≡ "stopped"
    → p.swarm ≡ some (ok w)
    → (run p cs).swarm ≡ some (ok w)
unfolding run
run_stopped w p [] s h = h
run_stopped w p (c ∷ cs) s h = run_stopped w (step p c) cs s (step_stopped w p c s h)

finished_status :
    (succeeded : Bool)
    → ◌==◌ {A = String} (if succeeded then "completed" else "failed") "stopped" ≡ false
finished_status true = refl
finished_status false = refl

-- A swarm that was stopped stays as it is, whatever is started, stopped or scaled afterwards. Yet
-- `finish_swarm` does not ask: it takes the swarm out of this state, and a start with an objective
-- and a strategy that pass the tests succeeds then.
pub stopped_stays :
    (w : SwarmRecord) (p : Project) (cs : List SwarmCall) (succeeded : Bool)
    (objective strategy : String)
    → w.status ≡ "stopped"
    → p.swarm ≡ some (ok w)
    → is_blank objective ≡ false
    → valid_strategy strategy ≡ ok strategy
    → ((run p cs).swarm ≡ some (ok w))
      × ((start_swarm objective strategy (finish_swarm succeeded (run p cs)).1).0
          ≡ ok (record w { status = "running"; strategy = strategy; objective = some objective }))
unfolding start_swarm finish_swarm
stopped_stays w p cs succeeded objective strategy s h said plan =
    let kept = run_stopped w p cs s h in
    let done = record w { status = if succeeded then "completed" else "failed" } in
    let finished : finish_swarm succeeded (run p cs) ≡ (ok done, write_swarm done (run p cs)) =
      rw (finish_swarm, the_swarm_lem w (run p cs) kept) refl in
    (
      kept,
      rw
          (
            finished,
            start_swarm,
            said,
            the_swarm_lem done (write_swarm done (run p cs)) refl,
            finished_status succeeded,
            plan,
          )
          refl,
    )
