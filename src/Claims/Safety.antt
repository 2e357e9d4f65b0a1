-- ===== src/Claims/Safety.antt =====
-- Who may change a claim: what follows from the transitions for a history of requests.
use ruflo_rust.Prelude.{
  String, ◌≡◌, refl, Bool, true, false, not, ◌&&◌, Option, none, some, List, [], ◌∷◌, all, arith,
  if◌then◌else◌, string_eq, eq_iff, Result, ok, err, Bool-cases, inl, inr, ◌∙◌, subst, ◌==◌,
}
use ruflo_rust.Json.{Value, is_text}
use ruflo_rust.Claims.{Env, Outcome, mark_stealable, with_entry, stealable}
use ruflo_rust.Claims.View.{Claim, view}
use ruflo_rust.Claims.Refinement.{serve_refines_transition}
use ruflo_rust.Claims.Transitions.{
  Request, claimed_by, released_by, handed_off, accepted_by, left_stealable, stolen_by, serve,
  transition, Done,
}

-- A call: what the environment gave it, the issue and the request.
pub record Call : Type 0 where
  pub env : Env
  pub issue : String
  pub request : Request

-- The file after a history of calls.
abbrev pub serve_all : List Call → Value → Option Value
serve_all [] s = some s
serve_all (c ∷ cs) s = elim (serve c.env c.issue c.request s) [
  | none ↦ none
  | some (r, s') ↦ serve_all cs s'
]

-- The requests that may end an active claim of an agent: its own, and the mark of abandonment.
abbrev pub may_end : String → Request → Bool
may_end a (released_by b) = b == a
may_end a (handed_off from to reason) = from == a
may_end a (left_stealable reason) = true
may_end a _ = false

abbrev active_claim : String → Option String → Claim
active_claim a target = record { holder = some a; status = some "active"; target = target }

refused_active :
    (a : String) (t : Option String) (r : Request)
    → may_end a r ≡ false
    → transition r (some (active_claim a t)) ≡ none
refused_active a t (claimed_by b kind) h = refl
refused_active a t (released_by b) h = ground (arith, eq_iff a b, eq_iff b a)
refused_active a t (handed_off from to reason) h = ground (arith, eq_iff a from, eq_iff from a)
refused_active a t (accepted_by b) h = refl
refused_active a t (left_stealable reason) h = cc
refused_active a t (stolen_by b kind) h = refl

-- Another issue keeps its claim, whatever the outcome.
Done-other :
    (issue j : String) (o : Option Claim) (s : Value) (out : Outcome (Unit {0}))
    → (issue == j) ≡ false
    → Done issue o s out
    → (r : Result (Unit {0}) String) × (s' : Value) × (out ≡ some (r, s')) × (view s' j ≡ view s j)
Done-other issue j none s out ne d = (err d.0, s, d.1, refl)
Done-other issue j (some c) s out ne d = (ok tt, d.0, d.1, d.3 j ne)

refused_Done :
    (env : Env) (issue a : String) (t : Option String) (r : Request) (s : Value)
    → view s issue ≡ some (active_claim a t)
    → may_end a r ≡ false
    → (e : String) × (serve env issue r s ≡ some (err e, s))
refused_Done env issue a t r s v h =
    let none_eq : (if env.locked && env.written then transition r (view s issue) else none) ≡ none =
      rw (v, refused_active a t r h) (ground arith) in
    subst (λ c. Done issue c s (serve env issue r s)) none_eq
      (serve_refines_transition env issue r s)

serve_keeps :
    (c : Call) (issue a : String) (t : Option String) (s : Value)
    → view s issue ≡ some (active_claim a t)
    → (c.issue == issue && may_end a c.request) ≡ false
    → (r : Result (Unit {0}) String) × (s' : Value) × (serve c.env c.issue c.request s
        ≡ some (r, s'))
      × (view s' issue ≡ some (active_claim a t))
serve_keeps c issue a t s v h = elim (Bool-cases (c.issue == issue)) [
  | inl e ↦
      let same : c.issue ≡ issue = (eq_iff c.issue issue).0 e in
      let (x, out) = refused_Done c.env c.issue a t c.request s (rw same v) (ground arith) in
      (err x, s, out, v)
  | inr e ↦
      let (r, s', out, kept) =
        Done-other c.issue issue _ s _ e (serve_refines_transition c.env c.issue c.request s) in
      (r, s', out, kept ∙ v)
]

-- An active claim stays with its holder: through any history of calls, by any agents on any
-- issues, in which the holder neither releases the issue nor hands it off and nobody marks it
-- stealable, every call returns, and the issue stays actively claimed by the same agent.
pub serve_all_keeps_active :
    (cs : List Call) (issue a : String) (t : Option String) (s : Value)
    → view s issue ≡ some (active_claim a t)
    → all (λ c. not (c.issue == issue && may_end a c.request)) cs ≡ true
    → (s' : Value) × (serve_all cs s ≡ some s') × (view s' issue ≡ some (active_claim a t))
serve_all_keeps_active [] issue a t s v h = (s, refl, v)
serve_all_keeps_active (c ∷ cs) issue a t s v h =
    let (r, s', out, v') = serve_keeps c issue a t s v (ground arith) in
    let (end_state, ran, kept) = serve_all_keeps_active cs issue a t s' v' (ground arith) in
    (end_state, rw (out, serve_all) ran, kept)

-- A success is an accepted transition.
Done-ok :
    (issue : String) (o : Option Claim) (s s' : Value) (out : Outcome (Unit {0}))
    → Done issue o s out
    → out ≡ some (ok tt, s')
    → (c : Claim) × (o ≡ some c) × (view s' issue ≡ some c)
Done-ok issue none s s' out d h = absurd (ground (arith, d.1))
Done-ok issue (some c) s s' out d h =
    let same : d.0 ≡ s' = ground (arith, d.1) in
    (c, refl, subst (λ x. view x issue ≡ some c) same d.2)

left_status :
    (locked written : Bool) (reason : String) (o : Option Claim) (c : Claim)
    → (if locked && written then transition (left_stealable reason) o else none) ≡ some c
    → is_text c.status "stealable" ≡ true
left_status locked written reason none c h = ground arith
left_status locked written reason (some b) c h =
    let e : c ≡ record b { status = some "stealable" } = ground arith in rw e refl

mark_stealable_array :
    (env : Env) (issue reason : String) (preferred : Option String) (s s' : Value)
    → mark_stealable env issue reason s ≡ some (ok tt, s')
    → stealable preferred s' ≡ []
unfolding mark_stealable with_entry stealable
mark_stealable_array env issue reason preferred s s' h = ground arith

-- The list of stealable claims misses what `mark_stealable` marks: after a call of it that
-- succeeds, the issue has a claim with the status stealable, and `stealable` on the same file gives
-- nothing, whatever type is preferred.
pub stealable_misses :
    (env : Env) (issue reason : String) (preferred : Option String) (s s' : Value)
    → mark_stealable env issue reason s ≡ some (ok tt, s')
    → (stealable preferred s' ≡ [])
      × ((c : Claim) × (view s' issue ≡ some c) × (is_text c.status "stealable" ≡ true))
stealable_misses env issue reason preferred s s' h =
    let d = serve_refines_transition env issue (left_stealable reason) s in
    let (c, made, seen) = Done-ok issue _ s s' (mark_stealable env issue reason s) d h in
    (
      mark_stealable_array env issue reason preferred s s' h,
      (c, seen, left_status env.locked env.written reason (view s issue) c made),
    )
