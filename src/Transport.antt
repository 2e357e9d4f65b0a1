-- ===== src/Transport.antt =====
-- crates/ruflo-runtime/src/transport.rs: the choice between the SLIM transport and the local one.
use ruflo_rust.Prelude.{
  String, ◌≡◌, ◌↔◌, refl, ap, sym, subst, ◌∙◌, Bool, true, false, Option, none, some, Result, ok,
  err, Result-cases, inl, inr, string_eq, ◌==◌, if◌then◌else◌, arith, Bool-cases,
}

pub data TransportOutcome : Type 0 where
  local_fallback : String → Bool → TransportOutcome
  slim_activated : String → TransportOutcome

pub record SlimTransportAdapter : Type 0 where
  pub is_available : Result Bool String
  pub activate : String → Result (Unit {0}) String

unfoldable pub no_adapter : SlimTransportAdapter
no_adapter = record {
  is_available = ok false;
  activate = λ endpoint. err "unavailable adapter cannot activate";
}

abbrev not_empty : Option String → Option String
not_empty none = none
not_empty (some s) = if s == "" then none else some s

unfoldable pub activate_slim : Option String → SlimTransportAdapter → TransportOutcome
activate_slim endpoint adapter = elim (not_empty endpoint) [
  | none ↦ local_fallback "RUFLO_AGNTCY_SLIM_ENDPOINT is not set" false
  | some e ↦ elim adapter.is_available [
    | ok true ↦ elim (adapter.activate e) [
      | ok _ ↦ slim_activated e
      | err reason ↦ local_fallback reason true
    ]
    | ok false ↦
        local_fallback "optional \"@agntcy/slim-bindings\" runtime package is not installed" false
    | err reason ↦ local_fallback reason false
  ]
]

-- The activation of the endpoint that is set.
at_end :
    (s e : String) (adapter : SlimTransportAdapter) {r : Result (Unit {0}) String}
    → some s ≡ some e
    → adapter.activate e ≡ r
    → adapter.activate s ≡ r
at_end s e adapter same h = let s_eq : s ≡ e = ground arith in ap adapter.activate s_eq ∙ h

-- SLIM is used exactly when an endpoint is set that is not empty, the adapter is available and its
-- activation with that endpoint succeeds; and a fallback is reported as a failed activation
-- exactly when the activation was tried and failed, with the adapter's reason.
activate_slim_iff :
    (endpoint : Option String) (adapter : SlimTransportAdapter)
    → ((e : String)
        → (activate_slim endpoint adapter ≡ slim_activated e) ↔ (
            (endpoint ≡ some e)
            × ((e == "") ≡ false)
            × (adapter.is_available ≡ ok true)
            × (adapter.activate e ≡ ok tt)))
      × ((reason : String)
          → (activate_slim endpoint adapter ≡ local_fallback reason true) ↔ (
              (e : String) × (endpoint ≡ some e)
              × ((e == "") ≡ false)
              × (adapter.is_available ≡ ok true)
              × (adapter.activate e ≡ err reason)))
unfolding activate_slim
activate_slim_iff none adapter =
    (λ e. ground arith, λ reason. (λ h. absurd (ground arith), λ h. absurd (ground (arith, h.1))))
activate_slim_iff (some s) adapter = elim (Bool-cases (s == "")) [
  | inl z ↦ (
    λ e. (λ h. absurd (ground arith), λ h. absurd (ground (arith, h))),
    λ reason. (λ h. absurd (ground arith), λ h. absurd (ground (arith, h))),
  )
  | inr z ↦ elim (Result-cases adapter.is_available) [
    | inl (x, v) ↦ (
      λ e. (λ h. absurd (ground arith), λ h. absurd (ground (arith, h))),
      λ reason. (λ h. absurd (ground arith), λ h. absurd (ground (arith, h))),
    )
    | inr (false, v) ↦ (
      λ e. (λ h. absurd (ground arith), λ h. absurd (ground (arith, h))),
      λ reason. (λ h. absurd (ground arith), λ h. absurd (ground (arith, h))),
    )
    | inr (true, v) ↦ elim (Result-cases (adapter.activate s)) [
      | inl (x, t) ↦ (
        λ e. (
          λ h. absurd (ground arith),
          λ h. absurd (ground (arith, at_end s e adapter h.0 h.3, t)),
        ),
        λ reason. (
          λ h. (s, refl, z, v, ground arith),
          λ h.
              let c = sym (at_end s h.0 adapter h.1 h.4) ∙ t in
              rw (activate_slim, z, v, t) (ground (arith, c)),
        ),
      )
      | inr (u, t) ↦ (
        λ e. (
          λ h.
              let same : s ≡ e = ground arith in
              (
                ap some same,
                subst (λ y. (y == "") ≡ false) same z,
                v,
                ap adapter.activate (sym same) ∙ t,
              ),
          λ h. rw (activate_slim, z, v, t) (ground (arith, h.0)),
        ),
        λ reason. (
          λ h. absurd (ground arith),
          λ h. absurd (ground (arith, at_end s h.0 adapter h.1 h.4, t)),
        ),
      )
    ]
  ]
]
