-- ===== src/Services/Queue.antt =====
-- services/worker_queue.rs: a queue of tasks, first in, first out.
use ruflo_rust.Prelude.{
  ℕ, String, ◌≡◌, refl, ap, sym, ◌⊎◌, inl, inr, Option-cases, ◌∙◌, Bool, true, not, Option, none,
  some, List, [], ◌∷◌, ◌++◌, length, if◌then◌else◌, string_eq,
}
use ruflo_rust.Json.{
  Value, Fields, null, str, num, pos_int, obj, object, array, as_array, index, put_key, put_field,
  field_of-put_field, to_list-from_list,
}
use ruflo_rust.Services.{after_write, ensured}

abbrev pub new_entry : String → ℕ → Value → Value
new_entry id now task = object (
    ("id", str id)
    ∷ ("task", task)
    ∷ ("status", str "queued")
    ∷ ("enqueuedAt", num (pos_int now))
    ∷ [])

-- `id` is the identifier that `unique_id` makes.
unfoldable pub enqueue : Bool → Bool → String → ℕ → Value → Value → Option (Value × Value)
enqueue locked wrote id now task state =
    if not locked then some (object [], state) else elim (ensured "queue" state) [
      | none ↦ none
      | some (s, q) ↦ elim (put_key s "queue" (array (q ++ new_entry id now task ∷ []))) [
        | none ↦ none
        | some s' ↦ some (new_entry id now task, after_write wrote s' state)
      ]
    ]

unfoldable pub dequeue : Bool → Bool → Value → Option (Option Value × Value)
dequeue locked wrote state =
    if not locked then some (none, state) else elim (ensured "queue" state) [
      | none ↦ none
      | some (s, []) ↦ some (none, state)
      | some (s, task ∷ q) ↦ elim (put_key s "queue" (array q)) [
        | none ↦ none
        | some s' ↦ some (some task, after_write wrote s' state)
      ]
    ]

unfoldable pub list : Value → List Value
list state = elim (as_array (index state "queue")) [ none ↦ [] | some q ↦ q ]

unfoldable pub queue_length : Value → ℕ
unfolding list
queue_length state = length (list state)

list-put_field : (fs : Fields) (q : List Value) → list (obj (put_field "queue" (array q) fs)) ≡ q
unfolding list
list-put_field fs q =
    let there = field_of-put_field "queue" "queue" (array q) fs in
    ap
      (λ o. elim (as_array (elim o [ none ↦ null | some w ↦ w ])) as (λ x. List Value) [
        | none ↦ []
        | some l ↦ l
      ])
      there
    ∙ to_list-from_list q

ensured_lem :
    (fs : Fields) → (gs : Fields) × (ensured "queue" (obj fs) ≡ some (obj gs, list (obj fs)))
unfolding list
ensured_lem fs = elim (Option-cases (as_array (index (obj fs) "queue"))) [
  | inl e ↦ (put_field "queue" (array []) fs, rw (e, ensured, list) refl)
  | inr (q, e) ↦ (fs, rw (e, ensured, list) refl)
]

list-cases : (q : List Value) → (q ≡ []) ⊎ ((t : Value) × (r : List Value) × (q ≡ t ∷ r))
list-cases [] = inl refl
list-cases (t ∷ r) = inr (t, r, refl)

-- Where the lock is given and the write succeeds, the queue of any state object is a list to which
-- `enqueue` adds its new entry at the end, and from which `dequeue` takes the first entry, or
-- nothing where it is empty.
pub enqueue-dequeue :
    (id : String) (now : ℕ) (task : Value) (fs : Fields)
    → ((s : Value) × (enqueue true true id now task (obj fs) ≡ some (new_entry id now task, s))
        × (list s ≡ list (obj fs) ++ new_entry id now task ∷ []))
      × ((o : Option Value) × (s : Value) × (dequeue true true (obj fs) ≡ some (o, s))
          × (list (obj fs) ≡ elim o [ none ↦ list s | some t ↦ t ∷ list s ])
          × (o ≡ none → list (obj fs) ≡ []))
unfolding enqueue dequeue
enqueue-dequeue id now task fs =
    let (gs, e) = ensured_lem fs in
    (
      (
        obj (put_field "queue" (array (list (obj fs) ++ new_entry id now task ∷ [])) gs),
        rw (enqueue, e) refl,
        list-put_field gs (list (obj fs) ++ new_entry id now task ∷ []),
      ),
      elim (list-cases (list (obj fs))) [
        | inl h ↦ (none, obj fs, rw (dequeue, e, h) refl, refl, λ x. h)
        | inr (t, q, h) ↦ (
          some t,
          obj (put_field "queue" (array q) gs),
          rw (dequeue, e, h) refl,
          h ∙ ap (λ l. t ∷ l) (sym (list-put_field gs q)),
          λ x. cc,
        )
      ],
    )
