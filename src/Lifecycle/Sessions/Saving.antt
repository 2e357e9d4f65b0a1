-- ===== src/Lifecycle/Sessions/Saving.antt =====
-- What `save_session` keeps.
use ruflo_rust.Prelude.{
  str_less, ℕ, String, ◌≡◌, refl, sym, ap, ◌∙◌, subst, inl, inr, Option, some, List, map, Result,
  ok, err, arith, is_blank, sort_by, ok-injective, string_eq, Bool-cases, Result-cases,
  Option-cases, beq_self,
}
use ruflo_rust.Dict.{put, get, get-put, Dict}
use ruflo_rust.Storage.Jobs
use ruflo_rust.Lifecycle.{
  IoError, AgentRecord, TaskRecord, SwarmRecord, SessionRecord, Project, safe_identifier, File,
}
use ruflo_rust.Lifecycle.Agents.{record_of, list_agents}
use ruflo_rust.Lifecycle.Agents.Rows.{IsReady, checked_ok}
use ruflo_rust.Lifecycle.Tasks.{list_tasks}
use ruflo_rust.Lifecycle.Swarms.{read_swarm}
use ruflo_rust.Lifecycle.Swarms.Active.{list_agents_lem}
use ruflo_rust.Lifecycle.Sessions.{
  no_name, no_id, saved_by, free_session_id, write_session, save_session,
}

-- What a session that was saved has of the project, and where it stands.
pub record IsSaved (s : SessionRecord) (p q : Project) : Type 0 where
  pub agents : list_agents p ≡ (ok s.agents, p)
  pub tasks : list_tasks p ≡ ok s.tasks
  pub swarm : read_swarm p ≡ ok s.swarm
  pub file : get q.sessions s.session_id ≡ some (ok s)
  pub safe : safe_identifier s.session_id ≡ ok s.session_id

write_session_lem :
    (s : SessionRecord) (p : Project) (u : Unit {0})
    → (write_session s p).0 ≡ ok u
    → (safe_identifier s.session_id ≡ ok s.session_id)
      × (get (write_session s p).1.sessions s.session_id ≡ some (ok s))
unfolding write_session safe_identifier
write_session_lem s p u h =
    ground (arith, h, get-put p.sessions s.session_id s.session_id (ok s), beq_self s.session_id)

-- The write of `current.json` leaves the file of the session, or is that file.
current_kept :
    (d : Dict String (File SessionRecord)) (id : String) (s : SessionRecord)
    → get d id ≡ some (ok s)
    → get (put d "current" (ok s)) id ≡ some (ok s)
current_kept d id s h = ground (arith, get-put d "current" id (ok s))

abbrev session :
    ℕ
    → String
    → String
    → String
    → List AgentRecord
    → List TaskRecord
    → Option SwarmRecord
    → SessionRecord
session now name description id agents tasks swarm = record {
  session_id = id;
  name = name;
  description = description;
  status = "saved";
  saved_at_ms = now;
  agents = agents;
  tasks = tasks;
  swarm = swarm;
}

module _ (p : Project) (r : IsReady p) (base : String) (now : ℕ) (name description : String) where
  -- A save that succeeds has passed each step.
  saves :
      (s : SessionRecord)
      → (save_session base now name description p).0 ≡ ok s
      → (id : String) × (agents : List AgentRecord) × (tasks : List TaskRecord) × (swarm : Option
          SwarmRecord)
        × (list_agents p ≡ (ok agents, p))
        × (list_tasks p ≡ ok tasks)
        × (read_swarm p ≡ ok swarm)
        × (save_session base now name description p
            ≡ saved_by
                (session now name description id agents tasks swarm)
                (write_session (session now name description id agents tasks swarm) p))
  unfolding save_session
  saves s h =
      let c = checked_ok p r.initialized in
      let l = list_agents_lem p r in
      let call = save_session base now name description p in
      elim (Bool-cases (is_blank name)) [
        | inl blank ↦ absurd (
            let e : call.0 ≡ err no_name = rw (save_session, c, blank) refl in ground (arith, e, h))
        | inr said ↦ elim (Option-cases (free_session_id 1000 base 0 p)) [
          | inl f ↦ absurd (
              let e : call.0 ≡ err no_id = rw (save_session, c, said, f) refl in
              ground (arith, e, h))
          | inr (id, f) ↦ elim (Result-cases (list_tasks p)) [
            | inl (m, t) ↦ absurd (
                let e : call.0 ≡ err m = rw (save_session, c, said, f, l) (rw (l, t) refl) in
                ground (arith, e, h))
            | inr (tasks, t) ↦ elim (Result-cases (read_swarm p)) [
              | inl (m, w) ↦ absurd (
                  let e : call.0 ≡ err m =
                    rw (save_session, c, said, f, l) (rw (l, t) (rw (l, w) refl)) in
                  ground (arith, e, h))
              | inr (swarm, w) ↦ (
                id,
                sort_by (λ a b. str_less a.id b.id) (map record_of (Jobs.list_agents p.store)),
                tasks,
                swarm,
                l,
                t,
                w,
                rw (save_session, c, said, f, l) (rw (l, t) (rw (l, w) (rw (l) refl))),
              )
            ]
          ]
        ]
      ]

saved_by-ok :
    (made s : SessionRecord) (w : Result (Unit {0}) IoError × Project)
    → (saved_by made w).0 ≡ ok s
    → (made ≡ s)
      × ((u : Unit {0}) × (w.0 ≡ ok u))
      × ((saved_by made w).1.sessions ≡ put w.1.sessions "current" (ok made))
saved_by-ok made s (err e, q) h = cc
saved_by-ok made s (ok u, q) h = (ok-injective made s h, (u, refl), refl)

pub save_session_lem :
    (base : String) (now : ℕ) (name description : String) (p : Project) (s : SessionRecord)
    → IsReady p
    → (save_session base now name description p).0 ≡ ok s
    → IsSaved s p (save_session base now name description p).1
save_session_lem base now name description p s r h =
    let (id, agents, tasks, swarm, l, t, w, e) = saves p r base now name description s h in
    let made = session now name description id agents tasks swarm in
    let (same, (u, wrote), kept) =
      saved_by-ok made s (write_session made p) (ap (λ x. x.0) (sym e) ∙ h) in
    let (safe, file) = write_session_lem made p u wrote in
    let files = ap (λ x. x.1.sessions) e ∙ kept in
    let there = current_kept (write_session made p).1.sessions made.session_id made file in
    record {
      agents = l ∙ ap (λ (x : SessionRecord). (ok x.agents, p)) same;
      tasks = t ∙ ap (λ (x : SessionRecord). ok x.tasks) same;
      swarm = w ∙ ap (λ (x : SessionRecord). ok x.swarm) same;
      file =
          ap (λ fs. get fs s.session_id) files
          ∙ subst
              (λ x.
                get (put (write_session made p).1.sessions "current" (ok made)) x.session_id
                ≡ some (ok x))
              same there;
      safe = subst (λ x. safe_identifier x.session_id ≡ ok x.session_id) same safe;
    }
