-- ===== src/Prelude/Options.antt =====
-- Tests on optional texts.
use Prim.Native.String.{String}
use mathlib.Core.Path.{◌≡◌, refl, ap}
use mathlib.Core.Logic.{◌↔◌}
use mathlib.Core.Bool.{true}
use mathlib.Core.Option.{Option, none, some}
use native.Mathlib.Omega.{arith}
use text.Mathlib.TextEquality.{eq_iff}
use ajan_orkestrasyonu.Prelude.Tests.{holds, is_none, is_some}

pub holds_iff : (o : Option String) (t : String) → (holds o t ≡ true) ↔ (o ≡ some t)
holds_iff none t = (λ h. cc, λ h. cc)
holds_iff (some s) t = (λ h. ap some ((eq_iff s t).0 h), λ h. (eq_iff s t).1 (ground arith))

pub is_none_iff {ℓ} : {A : Type ℓ} (o : Option A) → (is_none o ≡ true) ↔ (o ≡ none)
is_none_iff none = (λ h. refl, λ h. refl)
is_none_iff (some a) = (λ h. cc, λ h. cc)

pub is_some_iff {ℓ} : {A : Type ℓ} (o : Option A) → is_some o ≡ true → (a : A) × (o ≡ some a)
is_some_iff none h = cc
is_some_iff (some a) h = (a, refl)
