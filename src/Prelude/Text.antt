-- ===== src/Prelude/Text.antt =====
-- Equality tests of texts.
use Prim.Native.String.{String}
use mathlib.Core.Path.{◌≡◌}
use mathlib.Core.Logic.{◌≢◌}
use mathlib.Core.Bool.{true, false}
use native.Mathlib.Omega.{arith}
use text.Mathlib.Text.{◌==◌}
use text.Mathlib.TextEquality.{eq_iff}

pub text_eq : (s t : String) → (s == t) ≡ true → s ≡ t
text_eq s t = (eq_iff s t).0

pub text_ne : (s t : String) → (s == t) ≡ false → s ≢ t
text_ne s t h = λ e. ground (arith, eq_iff s t)

pub text_ne_false : (s t : String) → s ≢ t → (s == t) ≡ false
text_ne_false s t h = ground (arith, eq_iff s t)

pub text_eq_sym : (s t : String) → (s == t) ≡ (t == s)
text_eq_sym s t = ground (arith, eq_iff s t, eq_iff t s)
