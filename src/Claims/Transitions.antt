-- ===== src/Claims/Transitions.antt =====
-- What the operations of claim_service.rs do to the claim on one issue, as a transition function.
use ruflo_rust.Prelude.{
  err, String, ◌≡◌, Bool, false, ◌&&◌, ◌||◌, Option, none, some, string_eq, ◌==◌, if◌then◌else◌,
}
use ruflo_rust.Json.{Value, is_text}
use ruflo_rust.Claims.{
  ok, Env, Outcome, claim, release, handoff, accept_handoff, mark_stealable, steal,
}
use ruflo_rust.Claims.View.{Claim, claim_view, view}

pub data Request : Type 0 where
  claimed_by : String → String → Request
  released_by : String → Request
  handed_off : String → String → String → Request
  accepted_by : String → Request
  left_stealable : String → Request
  stolen_by : String → String → Request

-- The reply of an operation, without the entry that `claim` returns.
abbrev pub forget : Outcome Value → Outcome (Unit {0})
forget none = none
forget (some (ok c, s)) = some (ok tt, s)
forget (some (err e, s)) = some (err e, s)

abbrev pub serve : Env → String → Request → Value → Outcome (Unit {0})
serve env issue (claimed_by agent kind) s = forget (claim env issue agent kind s)
serve env issue (released_by agent) s = release env issue agent s
serve env issue (handed_off from to reason) s = handoff env issue from to reason s
serve env issue (accepted_by agent) s = accept_handoff env issue agent s
serve env issue (left_stealable reason) s = mark_stealable env issue reason s
serve env issue (stolen_by agent kind) s = steal env issue agent kind s

abbrev pub busy : Option Claim → Bool
busy none = false
busy (some c) = is_text c.status "active" || is_text c.status "handoff_pending"

-- The claim that a request leaves on its issue; `none` where the request is refused.
abbrev pub transition : Request → Option Claim → Option Claim
transition (claimed_by agent kind) c =
    if busy c
    then none
    else some (record { holder = some agent; status = some "active"; target = none })
transition r none = none
transition (released_by agent) (some c) =
    if is_text c.holder agent then some (record c { status = some "released" }) else none
transition (handed_off from to reason) (some c) =
    if is_text c.holder from
    then some (record c { status = some "handoff_pending"; target = some to })
    else none
transition (accepted_by agent) (some c) =
    if is_text c.status "handoff_pending" && is_text c.target agent
    then some (record { holder = some agent; status = some "active"; target = none })
    else none
transition (left_stealable reason) (some c) = some (record c { status = some "stealable" })
transition (stolen_by agent kind) (some c) =
    if is_text c.status "stealable"
    then some (record c { holder = some agent; status = some "stolen" })
    else none

-- The file and the reply that a new claim, or none, asks for.
abbrev pub Done : String → Option Claim → Value → Outcome (Unit {0}) → Type 0
Done issue none s out = (e : String) × (out ≡ some (err e, s))
Done issue (some c) s out =
    (s' : Value) × (out ≡ some (ok tt, s'))
    × (view s' issue ≡ some c)
    × ((j : String) → (issue == j) ≡ false → view s' j ≡ view s j)

abbrev pub served : Env → Option Claim → Option Claim
served env c = if env.locked && env.written then c else none

abbrev pub shown : Option Value → Option Claim
shown none = none
shown (some c) = some (claim_view c)
