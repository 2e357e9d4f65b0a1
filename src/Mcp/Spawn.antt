-- ===== src/Mcp/Spawn.antt =====
-- The handler of `agent_spawn`, over the table of agents of Storage/Jobs.
use Prim.Native.Char.{code}
use ruflo_rust.Prelude.{
  is_safe, ℕ, String, ◌≡◌, refl, ◌∙◌, true, false, Option, none, some, [], ◌∷◌, Result-cases,
  Option-cases, inl, inr, Result, ok, err, format, nat_eq, string_eq, ◌==◌, beq_self, arith,
  if◌then◌else◌,
}
use ruflo_rust.Json.{Value, bool, str, object}
use ruflo_rust.Types.{RufloError, invalid_input}
use ruflo_rust.Dict.{get, put, get-put}
use ruflo_rust.Storage.Jobs.{AgentRow, Store, upsert_agent, get_agent}
use ruflo_rust.Mcp.{ToolResult, text_result}
use ruflo_rust.Mcp.Arguments.{maybe_sleep, optional_string}

unfoldable pub safe_role : String → String
safe_role String.[] = ""
safe_role (String.◌∷◌ c s) =
    let rest = safe_role s in if is_safe (code c) then String.◌∷◌ c rest else String.◌∷◌ "-" rest

abbrev pub agent_id_of : String → String
agent_id_of role = format ("agent-" ∷ safe_role role ∷ [])

abbrev pub role_of : Option String → String
role_of none = "generalist"
role_of (some role) = role

abbrev pub new_agent : String → AgentRow
new_agent role = record {
  id = agent_id_of role;
  agent_type = safe_role role;
  status = "idle";
  role = role;
  heartbeat_ms = 0;
}

-- `root` says whether `current_dir` succeeded, and with what message it failed.
unfoldable pub agent_spawn :
    Result (Unit {0}) String → Value → Store → Result ToolResult RufloError × Store
unfolding maybe_sleep optional_string
agent_spawn root arguments s = elim (maybe_sleep arguments) [
  | err e ↦ (err e, s)
  | ok _ ↦ elim (optional_string arguments "role") [
    | err e ↦ (err e, s)
    | ok o ↦ elim root [
      | err e ↦ (err (invalid_input "agent.persist" (format ("cwd: " ∷ e ∷ []))), s)
      | ok _ ↦ elim (get_agent (agent_id_of (role_of o)) s) [
        | some _ ↦ (
          err (
              invalid_input "agent.exists"
                (format ("agent `" ∷ agent_id_of (role_of o) ∷ "` already exists" ∷ []))),
          s,
        )
        | none ↦ (
          ok (
              text_result (format ("recorded idle agent `" ∷ agent_id_of (role_of o) ∷ "`" ∷ [])) (
                object (
                  ("agentId", str (agent_id_of (role_of o)))
                  ∷ ("role", str (role_of o))
                  ∷ ("status", str "idle")
                  ∷ ("persisted", bool true)
                  ∷ ("store", str "sqlite")
                  ∷ ("running", bool false)
                  ∷ []))),
          upsert_agent (new_agent (role_of o)) s,
        )
      ]
    ]
  ]
]

refused_again :
    (arguments : Value) (s : Store) (ms : ℕ) (o : Option String) (row : AgentRow)
    → maybe_sleep arguments ≡ ok ms
    → optional_string arguments "role" ≡ ok o
    → get s.agents (agent_id_of (role_of o)) ≡ some row
    → agent_spawn (ok tt) arguments s ≡ (
      err (
          invalid_input "agent.exists"
            (format ("agent `" ∷ agent_id_of (role_of o) ∷ "` already exists" ∷ []))),
      s,
    )
unfolding agent_spawn get_agent
refused_again arguments s ms o row m q f = rw (agent_spawn, m, q, f) refl

-- A spawn that succeeds records one idle agent under the identifier made from its role, and leaves
-- the other agents; and the same call again is refused as existing and changes nothing.
pub agent_spawn-agent_spawn :
    (arguments : Value) (s : Store) (r : ToolResult)
    → (agent_spawn (ok tt) arguments s).0 ≡ ok r
    → (o : Option String) × (optional_string arguments "role" ≡ ok o)
      × (let id = agent_id_of (role_of o) in
          let s' = (agent_spawn (ok tt) arguments s).1 in
          (get_agent id s ≡ none)
          × ((row : AgentRow) × (get_agent id s' ≡ some row)
              × (row.id ≡ id)
              × (row.status ≡ "idle")
              × (row.role ≡ role_of o))
          × ((other : String) → (id == other) ≡ false → get_agent other s' ≡ get_agent other s)
          × (agent_spawn (ok tt) arguments s' ≡ (
            err (invalid_input "agent.exists" (format ("agent `" ∷ id ∷ "` already exists" ∷ []))),
            s',
          )))
unfolding agent_spawn get_agent upsert_agent
agent_spawn-agent_spawn arguments s r h = elim (Result-cases (maybe_sleep arguments)) [
  | inl (e, m) ↦ absurd (ground arith)
  | inr (ms, m) ↦ elim (Result-cases (optional_string arguments "role")) [
    | inl (e, q) ↦ absurd (ground arith)
    | inr (o, q) ↦
        let id = agent_id_of (role_of o) in
        elim (Option-cases (get s.agents id)) [
          | inr (row, f) ↦ absurd (ground arith)
          | inl f ↦
              let row = new_agent (role_of o) in
              let after : (agent_spawn (ok tt) arguments s).1
                  ≡ record s { agents = put s.agents id row } =
                rw (agent_spawn, m, q, f) refl in
              let found : get (agent_spawn (ok tt) arguments s).1.agents id ≡ some row =
                rw after (get-put s.agents id id row ∙ rw (beq_self id) refl) in
              (
                o,
                q,
                (
                  f,
                  (row, found, refl, refl, refl),
                  λ other ne. rw after (get-put s.agents id other row ∙ rw ne refl),
                  refused_again arguments _ ms o row m q found,
                ),
              )
        ]
  ]
]
