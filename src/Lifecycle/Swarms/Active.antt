-- ===== src/Lifecycle/Swarms/Active.antt =====
-- The agents that `scale_swarm` counts, the loop that stops some, and the one that spawns more.
use ruflo_rust.Prelude.{
  str_less, ◌+◌, ◌≤◌, ◌^◌, suc, ℕ, String, ◌≡◌, refl, sym, ap, ◌∙◌, subst, inl, inr, Bool, true,
  some, List, [], ◌∷◌, map, ok, arith, length, count, contains, retain, take, sort_by, All,
  All-sort_by, All-retain, All-take, count-sort_by, count-retain, count-take, length-sort_by,
  length-retain, length-take, string_eq, nat_eq, eq_iff, ◌==◌, Bool-cases,
}
use ruflo_rust.Dict.{Dict, get, put, get-put}
use ruflo_rust.Dict.Listing.{keys, contains-keys, All-values, count-values}
use ruflo_rust.Pigeonhole.{hits, hits-le-length}
use ruflo_rust.Storage.Jobs.{AgentRow}
use ruflo_rust.Storage.Jobs
use ruflo_rust.Storage.Jobs.Agents.{count-list_agents, All-list_agents}
use ruflo_rust.Lifecycle.{AgentRecord, Project, safe_identifier}
use ruflo_rust.Lifecycle.Agents.{row_of, record_of, terminated, list_agents}
use ruflo_rust.Lifecycle.Agents.Rows.{
  IsReady, live, with_row, with_row-IsReady, checked_ok, migrate_none, stop_agent_lem,
  live-with_row, row_is_live,
}
use ruflo_rust.Lifecycle.Swarms.Scale.{scale_id, scale_up, stop_all, is_live}
use ruflo_rust.Lifecycle.Swarms.Growing.{scale_id-injective, scale_up_lem}

-- A record that was read from a row of the agents.
abbrev pub IsRead : Dict String AgentRow → AgentRecord → Type 0
IsRead d a = (row : AgentRow) × (get d a.id ≡ some row) × (record_of row ≡ a)

abbrev IsReadLive : Dict String AgentRow → AgentRecord → Type 0
IsReadLive d a = IsRead d a × (is_live a ≡ true)

-- A write under another identifier leaves what was read.
others :
    (d : Dict String AgentRow) (id : String) (row : AgentRow) (xs : List AgentRecord)
    → count (λ a. a.id == id) xs ≡ 0
    → All (IsReadLive d) xs
    → All (IsReadLive (put d id row)) xs
others d id row [] n a = tt
others d id row (x ∷ xs) n (((was, e, f), l), a) = elim (Bool-cases (x.id == id)) [
  | inl same ↦ absurd (ground arith)
  | inr other ↦ (
    ((was, ground (arith, get-put d id x.id row, eq_iff id x.id, eq_iff x.id id), f), l),
    others d id row xs (ground arith) a,
  )
]

stop_all_lem :
    (xs : List AgentRecord) (p : Project)
    → IsReady p
    → All (IsReadLive p.store.agents) xs
    → ((id : String) → count (λ a. a.id == id) xs ≤ 1)
    → (q : Project) × (stop_all xs p ≡ (ok tt, q))
      × IsReady q
      × (live q + length xs ≡ live p)
      × (q.swarm ≡ p.swarm)
unfolding stop_all
stop_all_lem [] p r a u = (p, refl, r, omega arith, refl)
stop_all_lem (x ∷ xs) p r (((row, e, f), l), a) u =
    let safe = r.safe x.id row e in
    let gone = row_of row.agent_type (terminated (record_of row)) in
    let stops = stop_agent_lem p r x.id safe row e in
    let named : row.id ≡ x.id = ap (λ a. a.id) f in
    let q = with_row row.id gone "agent stopped" p in
    let alone : count (λ a. a.id == row.id) xs ≡ 0 = ground (arith, u row.id, eq_iff x.id row.id) in
    let ready =
      with_row-IsReady p row.id gone "agent stopped" r
        (subst (λ i. safe_identifier i ≡ ok i) (sym named) safe) refl in
    let (z, g, done, fewer, same) =
      stop_all_lem xs q ready (others p.store.agents row.id gone xs alone a)
        (λ id. ground (arith, u id)) in
    let was_live : row_is_live row ≡ true = ap is_live f ∙ l in
    let dropped : live q + 1 ≡ live p =
      ground (arith, live-with_row p row.id gone "agent stopped", e, named, was_live) in
    (z, rw (stop_all, stops) (rw (stops) g), done, omega (arith, fewer, dropped), same)

pub All-map :
    (d : Dict String AgentRow) (rows : List AgentRow)
    → All (λ row. get d row.id ≡ some row) rows
    → All (IsRead d) (map record_of rows)
All-map d [] a = tt
All-map d (row ∷ rows) a = ((row, a.0, refl), All-map d rows a.1)

pub count-map :
    (p : AgentRecord → Bool) (rows : List AgentRow)
    → count p (map record_of rows) ≡ count (λ r. p (record_of r)) rows
count-map p [] = refl
count-map p (r ∷ rows) = ground (arith, count-map p rows)

hits_from_1 : (p : ℕ → Bool) (m : ℕ) → hits p 1 m ≤ hits p 0 (suc m)
unfolding hits
hits_from_1 p m = ground arith

-- The agents that `scale_swarm` counts, in an order.
abbrev pub active_in : Project → List AgentRecord
active_in p =
    retain is_live (sort_by (λ a b. str_less a.id b.id) (map record_of (Jobs.list_agents p.store)))

module _ (p : Project) (r : IsReady p) where
  pub list_agents_lem :
      list_agents p
      ≡ (ok (sort_by (λ a b. str_less a.id b.id) (map record_of (Jobs.list_agents p.store))), p)
  unfolding list_agents
  list_agents_lem = rw (list_agents, checked_ok p r.initialized, migrate_none p r.no_json) refl

  pub length-active_in : length (active_in p) ≡ live p
  length-active_in =
      let rows = map record_of (Jobs.list_agents p.store) in
      length-retain is_live (sort_by (λ a b. str_less a.id b.id) rows)
      ∙ count-sort_by (λ a b. str_less a.id b.id) is_live rows
      ∙ count-map is_live (Jobs.list_agents p.store)
      ∙ count-list_agents (λ row. is_live (record_of row)) p.store

  active_in-IsReadLive : All (IsReadLive p.store.agents) (active_in p)
  active_in-IsReadLive =
      let rows = map record_of (Jobs.list_agents p.store) in
      let before : AgentRecord → AgentRecord → Bool = λ a b. str_less a.id b.id in
      let d = p.store.agents in
      let read =
        All-list_agents (λ row. get d row.id ≡ some row) p.store
          (All-values (λ row. get d row.id ≡ some row) d r.distinct
            (λ k row h. subst (λ i. get d i ≡ some row) (sym (r.named k row h)) h)) in
      All-retain (IsRead d) is_live (sort_by before rows)
        (All-sort_by (IsRead d) before rows (All-map d (Jobs.list_agents p.store) read))

  active_in-once : (id : String) → count (λ a. a.id == id) (active_in p) ≤ 1
  active_in-once id =
      let before : AgentRecord → AgentRecord → Bool = λ a b. str_less a.id b.id in
      let rows = map record_of (Jobs.list_agents p.store) in
      let few = count-values (λ (row : AgentRow). row.id) p.store.agents r.distinct r.named id in
      let same =
        count-map (λ a. a.id == id) (Jobs.list_agents p.store)
        ∙ count-list_agents (λ row. row.id == id) p.store in
      omega (
        arith,
        few,
        same,
        count-sort_by before (λ a. a.id == id) rows,
        count-retain (λ a. a.id == id) is_live (sort_by before rows),
      )

  pub shrink_lem :
      (n : ℕ)
      → n ≤ live p
      → let gone = take n (sort_by (λ a b. str_less b.id a.id) (active_in p)) in
        (q : Project) × (stop_all gone p ≡ (ok tt, q))
        × IsReady q
        × (live q + n ≡ live p)
        × (q.swarm ≡ p.swarm)
  shrink_lem n h =
      let before : AgentRecord → AgentRecord → Bool = λ a b. str_less b.id a.id in
      let xs = sort_by before (active_in p) in
      let all_read =
        All-take (IsReadLive p.store.agents) n xs
          (All-sort_by (IsReadLive p.store.agents) before (active_in p) active_in-IsReadLive) in
      let once : (id : String) → count (λ a. a.id == id) (take n xs) ≤ 1 = λ id. omega (
        arith,
        active_in-once id,
        count-sort_by before (λ a. a.id == id) (active_in p),
        count-take (λ a. a.id == id) n xs,
      ) in
      let size =
        length-take n xs
          (omega (arith, h, length-active_in, length-sort_by before (active_in p))) in
      let (q, e, ready, fewer, same) = stop_all_lem (take n xs) p r all_read once in
      (q, e, ready, omega (arith, fewer, size), same)

  pub grow_lem :
      (turns missing : ℕ) (kind : String)
      → safe_identifier kind ≡ ok kind
      → length (keys p.store.agents) + missing ≤ turns
      → turns + 1 ≤ 10 ^ 20
      → (q : Project) × (scale_up turns kind 1 missing p ≡ some (ok tt, q))
        × IsReady q
        × (live q ≡ live p + missing)
        × (q.swarm ≡ p.swarm)
  grow_lem turns missing kind k enough room =
      let used = keys p.store.agents in
      let name = scale_id kind in
      let most =
        hits-le-length name (10 ^ 20) (scale_id-injective kind k) used (suc turns) (omega arith) in
      let fewer = hits_from_1 (λ i. contains (name i) used) turns in
      scale_up_lem kind k turns 1 missing used p r (omega arith)
        (λ i lo hi. sym (contains-keys p.store.agents (name i)))
        (omega (arith, most, fewer, enough))
