-- ===== src/Lifecycle/Swarms/Scaling.antt =====
-- `scale_swarm` as a whole.
use ruflo_rust.Prelude.{◌≡◌, refl, some, ok, string_eq, nat_eq}
use ruflo_rust.Lifecycle.{SwarmRecord, Project}
use ruflo_rust.Lifecycle.Swarms.{the_swarm, read_swarm}

pub the_swarm_lem : (w : SwarmRecord) (p : Project) → p.swarm ≡ some (ok w) → the_swarm p ≡ ok w
unfolding the_swarm read_swarm
the_swarm_lem w p h = rw (the_swarm, read_swarm, h) refl
