-- ===== src/Lifecycle/Sessions/Restoring.antt =====
-- A session that was saved and is restored later.
use ruflo_rust.Prelude.{string_eq}
