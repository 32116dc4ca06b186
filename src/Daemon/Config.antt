-- ===== src/Daemon/Config.antt =====
-- The runtime limits of tasks (crates/divan-daemon/src/config.rs). The paths of the configuration
-- are left out.
use ajan_orkestrasyonu.Prelude.{ℕ, Option, map_or}
use ajan_orkestrasyonu.Core.TaskKind.{TaskKind}

pub record RuntimeDefaults : Type 0 where
  pub implement_secs : ℕ
  pub review_secs : ℕ
  pub test_secs : ℕ
  pub other_secs : ℕ

abbrev pub runtime_defaults : RuntimeDefaults
runtime_defaults = record {
  implement_secs = 1800;
  review_secs = 900;
  test_secs = 1200;
  other_secs = 900;
}

abbrev pub for_kind : RuntimeDefaults → TaskKind → ℕ
for_kind d TaskKind.implement = d.implement_secs
for_kind d TaskKind.review = d.review_secs
for_kind d TaskKind.test = d.test_secs
for_kind d _ = d.other_secs

-- An explicit value wins.
unfoldable pub runtime_secs : RuntimeDefaults → TaskKind → Option ℕ → ℕ
runtime_secs d kind explicit = map_or (for_kind d kind) (λ s. s) explicit
