-- ===== src/Examples/Claims.antt =====
-- Claims on issues: services/claim_service.rs.
use ruflo_rust.Prelude.{◌≡◌, refl, true, none, some, List, [], ◌∷◌, ok, if◌then◌else◌, ◌&&◌}
use ruflo_rust.Json.{Value, null, str, object, array}
use ruflo_rust.Claims.{Env, mark_stealable, stealable}
use ruflo_rust.Claims.Changes.{push_history, stealable_edit}
use ruflo_rust.Claims.View.{Claim, view}
use ruflo_rust.Claims.Refinement.{serve_refines_transition}
use ruflo_rust.Claims.Transitions.{
  claimed_by, released_by, handed_off, stolen_by, serve, transition, Done,
}
use ruflo_rust.Claims.Safety.{Call, serve_all, serve_all_keeps_active, stealable_misses}

abbrev now_5 : Env
now_5 = record { locked = true; written = true; now = 5 }

abbrev claimed : Value
claimed = array (
    object (
      ("issueId", str "ISSUE-1")
      ∷ ("claimant", object (("id", str "alice") ∷ ("type", str "coder") ∷ []))
      ∷ ("status", str "active")
      ∷ ("history", array [])
      ∷ [])
    ∷ [])

serve_refines_transition_example :
    Done "ISSUE-1"
      (if now_5.locked && now_5.written
        then transition (handed_off "alice" "bob" "busy") (view claimed "ISSUE-1")
        else none)
      claimed
      (serve now_5 "ISSUE-1" (handed_off "alice" "bob" "busy") claimed)
serve_refines_transition_example =
    serve_refines_transition now_5 "ISSUE-1" (handed_off "alice" "bob" "busy") claimed

abbrev others_try : List Call
others_try =
    record { env = now_5; issue = "ISSUE-1"; request = claimed_by "bob" "coder" }
    ∷ record { env = now_5; issue = "ISSUE-1"; request = released_by "bob" }
    ∷ record { env = now_5; issue = "ISSUE-1"; request = stolen_by "bob" "coder" }
    ∷ []

serve_all_keeps_active_example :
    (s' : Value) × (serve_all others_try claimed ≡ some s')
    × (view s' "ISSUE-1"
        ≡ some (record { holder = some "alice"; status = some "active"; target = none }))
serve_all_keeps_active_example =
    serve_all_keeps_active others_try "ISSUE-1" "alice" none claimed refl refl

abbrev marked : Value
marked = array (
    object (
      ("issueId", str "ISSUE-1")
      ∷ ("claimant", object (("id", str "alice") ∷ ("type", str "coder") ∷ []))
      ∷ ("status", str "stealable")
      ∷ (
        "history",
        array (
            object (
              ("event", str "marked_stealable")
              ∷ ("at", Value.num (ruflo_rust.Json.pos_int 5))
              ∷ ("reason", str "stale")
              ∷ [])
            ∷ []),
      )
      ∷ [])
    ∷ [])

marks : mark_stealable now_5 "ISSUE-1" "stale" claimed ≡ some (ok tt, marked)
unfolding mark_stealable stealable_edit push_history
marks = refl

stealable_misses_example :
    (stealable none marked ≡ [])
    × ((c : Claim) × (view marked "ISSUE-1" ≡ some c)
        × (ruflo_rust.Json.is_text c.status "stealable" ≡ true))
stealable_misses_example = stealable_misses now_5 "ISSUE-1" "stale" none claimed marked marks
