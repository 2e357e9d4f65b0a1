-- ===== src/Mcp/Errors.antt =====
-- `map_error`: what the server tells a client of an error.
use ruflo_rust.Prelude.{
  ℕ, ◌+◌, ◌%◌, ◌^◌, String, ◌≡◌, refl, Option, none, some, [], ◌∷◌, format, decimal, string_eq,
  nat_eq, zero, suc, ltb, ◌==◌, if◌then◌else◌,
}
use ruflo_rust.Json.{Value, Number, null, num, str, pos_int, neg_int, object, as_str, as_u64, index}
use ruflo_rust.Types.{
  RufloError, unsupported, invalid_input, unauthenticated, unauthorized, unsupported_in_wave,
  rate_limited, timeout, cancelled, lock_conflict, migration_failed, upstream_adapter,
}

pub record ErrorObject : Type 0 where
  pub error_code : Number
  pub message : String
  pub correlation_id : String
  pub details : Value

unfoldable pub error_json : ErrorObject → Value
error_json e = object (
    ("code", num e.error_code)
    ∷ ("message", str e.message)
    ∷ ("data", object (("correlationId", str e.correlation_id) ∷ ("details", e.details) ∷ []))
    ∷ [])

abbrev reply : ℕ → String → String → Value → ErrorObject
reply n message id details = record {
  error_code = neg_int n;
  message = message;
  correlation_id = id;
  details = details;
}

abbrev migration_value : Option String → Value
migration_value none = null
migration_value (some m) = str m

-- The part of `map_error` after the correlation identifier.
unfoldable pub error_object : RufloError → String → ErrorObject
error_object (invalid_input code message) id =
    reply 32602 "Invalid params" id (object (("code", str code) ∷ ("message", str message) ∷ []))
error_object unauthenticated id = reply 32000 "Unauthenticated" id (object [])
error_object (unauthorized capability) id =
    reply 32001 "Unauthorized" id (object (("capability", str capability) ∷ []))
error_object (unsupported_in_wave c) id = reply 32002 "Unsupported capability" id (
    object (
      ("capability", str c.name)
      ∷ ("wave", num (pos_int c.wave))
      ∷ ("migration", migration_value c.migration)
      ∷ []))
error_object (rate_limited ms) id =
    reply 32003 "Rate limited" id (object (("retryAfterMs", num (pos_int ms)) ∷ []))
error_object timeout id = reply 32004 "Timeout" id (object [])
error_object cancelled id = reply 32005 "Cancelled" id (object [])
error_object lock_conflict id = reply 32006 "Lock conflict" id (object [])
error_object (migration_failed message) id =
    reply 32007 "Migration failed" id (object (("message", str message) ∷ []))
error_object (upstream_adapter message) id =
    reply 32008 "Upstream adapter failure" id (object (("message", str message) ∷ []))

zeros : ℕ → String → String
zeros zero s = s
zeros (suc n) s = zeros n (format ("0" ∷ s ∷ []))

-- `corr-{:08}`: zeros on the left, up to eight digits.
pad_for : ℕ → ℕ
pad_for n =
    if ltb n 10
    then 7
    else if ltb n 100
    then 6
    else if ltb n 1000
    then 5
    else if ltb n 10000
    then 4
    else if ltb n 100000
    then 3
    else if ltb n 1000000
    then 2
    else if ltb n 10000000
    then 1
    else 0

pub correlation : ℕ → String
unfolding zeros pad_for
correlation n = format ("corr-" ∷ zeros (pad_for n) (decimal n) ∷ [])

-- The counter is 64 bits wide and wraps around.
unfoldable pub map_error : RufloError → ℕ → ErrorObject × ℕ
unfolding error_object
map_error e counter = (error_object e (correlation counter), (counter + 1) % 2 ^ 64)

-- The error that a client reads back; the status of a capability is not sent.
abbrev pub decode : ErrorObject → Option RufloError
decode e =
    let text : String → Option String = λ k. as_str (index e.details k) in
    elim e.error_code [
      | neg_int n ↦
          if n == 32602
          then elim (text "code") [
            | none ↦ none
            | some code ↦ elim (text "message") [
              | none ↦ none
              | some m ↦ some (invalid_input code m)
            ]
          ]
          else if n == 32000
          then some unauthenticated
          else if n == 32001
          then elim (text "capability") [ none ↦ none | some c ↦ some (unauthorized c) ]
          else if n == 32002
          then elim (text "capability") [
            | none ↦ none
            | some c ↦ elim (as_u64 (index e.details "wave")) [
              | none ↦ none
              | some w ↦ some (
                  unsupported_in_wave (record {
                    name = c;
                    wave = w;
                    status = unsupported;
                    migration = text "migration";
                  }))
            ]
          ]
          else if n == 32003
          then elim (as_u64 (index e.details "retryAfterMs")) [
            | none ↦ none
            | some ms ↦ some (rate_limited ms)
          ]
          else if n == 32004
          then some timeout
          else if n == 32005
          then some cancelled
          else if n == 32006
          then some lock_conflict
          else if n == 32007
          then elim (text "message") [ none ↦ none | some m ↦ some (migration_failed m) ]
          else if n == 32008
          then elim (text "message") [ none ↦ none | some m ↦ some (upstream_adapter m) ]
          else none
      | _ ↦ none
    ]

-- The error without the status of its capability.
abbrev pub without_status : RufloError → RufloError
without_status (unsupported_in_wave c) = unsupported_in_wave (record c { status = unsupported })
without_status e = e

migration_text : (o : Option String) → as_str (migration_value o) ≡ o
migration_text none = refl
migration_text (some m) = refl

-- An error reply loses nothing but a capability's status: a client can read from the code and the
-- details which error it was, with its parts.
pub decode-map_error : (e : RufloError) (n : ℕ) → decode (map_error e n).0 ≡ some (without_status e)
unfolding map_error error_object
decode-map_error (invalid_input code message) n = refl
decode-map_error unauthenticated n = refl
decode-map_error (unauthorized capability) n = refl
decode-map_error (unsupported_in_wave c) n = rw (migration_text c.migration) refl
decode-map_error (rate_limited ms) n = refl
decode-map_error timeout n = refl
decode-map_error cancelled n = refl
decode-map_error lock_conflict n = refl
decode-map_error (migration_failed message) n = refl
decode-map_error (upstream_adapter message) n = refl
