-- ===== src/Storage/Jobs/Agents.antt =====
-- What the list of agents has in common with the rows.
use ruflo_rust.Prelude.{◌≡◌, Bool, count, count-sort_by, All, All-sort_by, str_less}
use ruflo_rust.Dict.Listing.{values}
use ruflo_rust.Storage.Jobs.{AgentRow, Store, list_agents}

abbrev before : AgentRow → AgentRow → Bool
before a b = str_less a.id b.id

pub count-list_agents :
    (p : AgentRow → Bool) (s : Store) → count p (list_agents s) ≡ count p (values s.agents)
unfolding list_agents
count-list_agents p s = count-sort_by before p (values s.agents)

pub All-list_agents :
    (P : AgentRow → Type 0) (s : Store) → All P (values s.agents) → All P (list_agents s)
unfolding list_agents
All-list_agents P s a = All-sort_by P before (values s.agents) a
