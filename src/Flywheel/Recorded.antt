-- ===== src/Flywheel/Recorded.antt =====
-- The payloads that a history of appends leaves in the ledger, whichever of them fail.
use ruflo_rust.Prelude.{
  map-append, append-nil, ◌∙◌, map, String, ◌≡◌, refl, true, Option, none, some, List, [], ◌∷◌,
  ◌++◌, string_eq, false,
}
use ruflo_rust.Json.{Value, index}
use ruflo_rust.Flywheel.{
  ended_lines, Log, Stamp, values, Write, unopened, torn, unended, done, appended,
}

pub values-append : (ls ms : List (Option Value)) → values (ls ++ ms) ≡ values ls ++ values ms
values-append [] ms = refl
values-append (none ∷ ls) ms = values-append ls ms
values-append (some v ∷ ls) ms = rw (values-append ls ms) refl

pub record Event : Type 0 where
  pub stamp : Stamp
  pub event : String
  pub payload : Value

abbrev pub payload_of : Value → Value
payload_of e = index e "payload"

-- What becomes of the last line: it has an end, or it is no JSON, or it is a whole entry.
pub data Tail : Type 0 where
  ended broken : Tail
  pending : Value → Tail

-- The payloads on the lines with an end and the last line, after one more append.
abbrev pub next : Write → Value → List Value × Tail → List Value × Tail
next unopened x s = s
next torn x (ps, t) = (ps, broken)
next unended x (ps, ended) = (ps, pending x)
next unended x (ps, t) = (ps, broken)
next done x (ps, ended) = (ps ++ x ∷ [], ended)
next done x (ps, t) = (ps, ended)

abbrev pub recorded : List Value × Tail → List Event → List Value × Tail
recorded s [] = s
recorded s (e ∷ es) = recorded (next e.stamp.ledger_write e.payload s) es

abbrev pub payloads : List Value × Tail → List Value
payloads (ps, ended) = ps
payloads (ps, broken) = ps
payloads (ps, pending x) = ps ++ x ∷ []

abbrev pub payloads_in : List (Option Value) → List Value
payloads_in ls = map payload_of (values ls)

abbrev pub Matches : Log → List Value × Tail → Type 0
Matches log (ps, ended) = (log.is_open ≡ false) × (payloads_in log.lines ≡ ps)
Matches log (ps, broken) =
    (log.is_open ≡ true) × (payloads_in (ended_lines log.lines) ≡ ps) × (payloads_in log.lines ≡ ps)
Matches log (ps, pending x) =
    (log.is_open ≡ true)
    × (payloads_in (ended_lines log.lines) ≡ ps)
    × (payloads_in log.lines ≡ ps ++ x ∷ [])

pub Matches-payloads :
    (log : Log) (s : List Value × Tail) → Matches log s → payloads_in log.lines ≡ payloads s
Matches-payloads log (ps, ended) m = m.1
Matches-payloads log (ps, broken) m = m.2
Matches-payloads log (ps, pending x) m = m.2

payloads_in-none : (ls : List (Option Value)) → payloads_in (ls ++ none ∷ []) ≡ payloads_in ls
payloads_in-none ls = rw (values-append ls (none ∷ []), append-nil (values ls)) refl

payloads_in-some :
    (ls : List (Option Value)) (e : Value)
    → payloads_in (ls ++ some e ∷ []) ≡ payloads_in ls ++ payload_of e ∷ []
payloads_in-some ls e =
    rw (values-append ls (some e ∷ []), map-append payload_of (values ls) (e ∷ [])) refl

pub ended_lines-snoc :
    (ls : List (Option Value)) (l : Option Value) → ended_lines (ls ++ l ∷ []) ≡ ls
ended_lines-snoc [] l = refl
ended_lines-snoc (m ∷ []) l = refl
ended_lines-snoc (m ∷ n ∷ ls) l = rw (ended_lines-snoc (n ∷ ls) l) refl

pub appended-Matches :
    (w : Write) (x : Value) (l : Option Value) (e : Value) (log : Log) (s : List Value × Tail)
    → l ≡ some e
    → payload_of e ≡ x
    → Matches log s
    → Matches (appended w l log) (next w x s)
appended-Matches unopened x l e log s same p m = m
appended-Matches torn x l e log (ps, ended) same p (o, m) =
    rw o (refl, rw (ended_lines-snoc log.lines none) m, payloads_in-none log.lines ∙ m)
appended-Matches torn x l e log (ps, broken) same p (o, m, n) = rw o (
  refl,
  rw (ended_lines-snoc (ended_lines log.lines) none) m,
  payloads_in-none (ended_lines log.lines) ∙ m,
)
appended-Matches torn x l e log (ps, pending y) same p (o, m, n) = rw o (
  refl,
  rw (ended_lines-snoc (ended_lines log.lines) none) m,
  payloads_in-none (ended_lines log.lines) ∙ m,
)
appended-Matches unended x l e log (ps, ended) same p (o, m) =
    rw (o, same)
      (
        refl,
        rw (ended_lines-snoc log.lines (some e)) m,
        payloads_in-some log.lines e ∙ rw (m, p) refl,
      )
appended-Matches unended x l e log (ps, broken) same p (o, m, n) = rw o (
  refl,
  rw (ended_lines-snoc (ended_lines log.lines) none) m,
  payloads_in-none (ended_lines log.lines) ∙ m,
)
appended-Matches unended x l e log (ps, pending y) same p (o, m, n) = rw o (
  refl,
  rw (ended_lines-snoc (ended_lines log.lines) none) m,
  payloads_in-none (ended_lines log.lines) ∙ m,
)
appended-Matches done x l e log (ps, ended) same p (o, m) =
    rw (o, same) (refl, payloads_in-some log.lines e ∙ rw (m, p) refl)
appended-Matches done x l e log (ps, broken) same p (o, m, n) =
    rw o (refl, payloads_in-none (ended_lines log.lines) ∙ m)
appended-Matches done x l e log (ps, pending y) same p (o, m, n) =
    rw o (refl, payloads_in-none (ended_lines log.lines) ∙ m)
