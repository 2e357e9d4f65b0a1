-- ===== src/Lifecycle/Swarms/Scale.antt =====
-- crates/ruflo-cli/src/lifecycle.rs: `scale_swarm`, which spawns or stops agents until as many as
-- were asked for are there.
use ruflo_rust.Prelude.{
  str_less, zero, suc, ◌-◌, ℕ, String, Bool, not, ◌||◌, Option, none, some, List, [], ◌∷◌, Result,
  ok, err, format, decimal, ltb, retain, take, length, sort_by, string_eq, nat_eq, ◌==◌,
  if◌then◌else◌,
}
use ruflo_rust.Lifecycle.{
  ErrorKind, IoError, refusal, AgentRecord, SwarmRecord, Project, safe_identifier,
}
use ruflo_rust.Lifecycle.Agents.{get_agent, list_agents, spawn_agent, stop_agent}
use ruflo_rust.Lifecycle.Swarms.{the_swarm, write_swarm, unknown_swarm}

abbrev pub scale_id : String → ℕ → String
scale_id agent_type n = format ("scale-" ∷ agent_type ∷ "-" ∷ decimal n ∷ [])

-- The loop that spawns `missing` agents more; `none` is the end of the fuel.
unfoldable pub scale_up :
    ℕ → String → ℕ → ℕ → Project → Option (Result (Unit {0}) IoError × Project)
scale_up turns agent_type next zero p = some (ok tt, p)
scale_up zero agent_type next (suc missing) p = none
scale_up (suc turns) agent_type next (suc missing) p =
    let (known, q) = get_agent (scale_id agent_type next) p in
    elim known [
      | ok _ ↦ scale_up turns agent_type (suc next) (suc missing) q
      | err _ ↦
          let (spawned, r) = spawn_agent agent_type (scale_id agent_type next) q in
          elim spawned [
            | err e ↦ some (err e, r)
            | ok _ ↦ scale_up turns agent_type (suc next) missing r
          ]
    ]

unfoldable pub stop_all : List AgentRecord → Project → Result (Unit {0}) IoError × Project
stop_all [] p = (ok tt, p)
stop_all (a ∷ rest) p =
    let (stopped, q) = stop_agent a.id p in
    elim stopped [ err e ↦ (err e, q) | ok _ ↦ stop_all rest q ]

abbrev pub is_live : AgentRecord → Bool
is_live a = not (a.status == "terminated")

abbrev pub or_worker : Option String → String
or_worker none = "worker"
or_worker (some t) = t

-- The spawns or the stops: from the agents that are not terminated to as many as are asked for.
unfoldable pub scale_agents :
    ℕ
    → List AgentRecord
    → ℕ
    → Option String
    → Project
    → Option (Result (Unit {0}) IoError × Project)
scale_agents turns active target agent_type p =
    if ltb (length active) target
    then elim (safe_identifier (or_worker agent_type)) [
      | err e ↦ some (err e, p)
      | ok kind ↦ scale_up turns kind 1 (target - length active) p
    ]
    else some
        (stop_all (take (length active - target) (sort_by (λ a b. str_less b.id a.id) active)) p)

-- What the swarm is once the agents are there; the answer is the number that was asked for and the
-- numbers of agents that were spawned and stopped.
abbrev pub scaled :
    SwarmRecord
    → ℕ
    → ℕ
    → Option (Result (Unit {0}) IoError × Project)
    → Option (Result (ℕ × ℕ × ℕ) IoError × Project)
scaled w before target none = none
scaled w before target (some (err e, p)) = some (err e, p)
scaled w before target (some (ok _, p)) = some (
  ok (target, target - before, before - target),
  write_swarm (record w { max_agents = target }) p,
)

unfoldable pub scale_swarm :
    ℕ → String → ℕ → Option String → Project → Option (Result (ℕ × ℕ × ℕ) IoError × Project)
scale_swarm turns id target agent_type p =
    if target == 0 || ltb 100 target
    then some
        (err (refusal ErrorKind.invalid_input "target agent count must be between 1 and 100"), p)
    else elim (the_swarm p) [
      | err e ↦ some (err e, p)
      | ok w ↦
          if not (w.id == id)
          then some (err (unknown_swarm id), p)
          else if w.status == "stopped"
          then some (
            err (
                refusal ErrorKind.invalid_input
                  "stopped swarm cannot be scaled; initialize a new swarm"),
            p,
          )
          else (let (listed, q) = list_agents p in
              elim listed [
                | err e ↦ some (err e, q)
                | ok all_agents ↦
                    let active = retain is_live all_agents in
                    scaled w (length active) target (scale_agents turns active target agent_type q)
              ])
    ]
