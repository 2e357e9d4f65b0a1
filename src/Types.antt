-- ===== src/Types.antt =====
-- crates/ruflo-types/src/{capability,error}.rs: the capability contract, and the error type that
-- the crates share.
use ruflo_rust.Prelude.{ℕ, String, Option, none, some}

pub data CapabilityStatus : Type 0 where
  supported migrating unsupported : CapabilityStatus

pub record Capability : Type 0 where
  pub name : String
  pub wave : ℕ  -- u8
  pub status : CapabilityStatus
  pub migration : Option String

unfoldable pub new_supported : String → ℕ → Capability
new_supported name wave = record { name = name; wave = wave; status = supported; migration = none }

unfoldable pub new_migrating : String → ℕ → String → Capability
new_migrating name wave note = record {
  name = name;
  wave = wave;
  status = migrating;
  migration = some note;
}

unfoldable pub new_unsupported : String → ℕ → String → Capability
new_unsupported name wave note = record {
  name = name;
  wave = wave;
  status = unsupported;
  migration = some note;
}

pub data RufloError : Type 0 where
  invalid_input : String → String → RufloError
  unauthenticated : RufloError
  unauthorized : String → RufloError
  unsupported_in_wave : Capability → RufloError
  rate_limited : ℕ → RufloError
  timeout : RufloError
  cancelled : RufloError
  lock_conflict : RufloError
  migration_failed : String → RufloError
  upstream_adapter : String → RufloError
