-- ===== src/Prelude/Order.antt =====
-- The order of texts that Rust's `Ord` for `String` and SQLite's BINARY collation share: that of
-- the UTF-8 bytes, which is that of the characters' numbers.
use Prim.Native.Char.{code}
use Prim.Native.String.{String}
use mathlib.Core.Path.{◌≡◌, refl, ap₂}
use mathlib.Core.Bool.{Bool, true, false}
use native.Mathlib.Omega.{arith}
use text.Mathlib.TextEquality.{Char-path}
use ajan_orkestrasyonu.Prelude.Tests.{ltb, if◌then◌else◌}

abbrev pub text_leb : String → String → Bool
text_leb String.[] t = true
text_leb (String.◌∷◌ c s) String.[] = false
text_leb (String.◌∷◌ c s) (String.◌∷◌ d t) =
    if ltb (code c) (code d) then true else if ltb (code d) (code c) then false else text_leb s t

pub text_leb_refl : (s : String) → text_leb s s ≡ true
text_leb_refl String.[] = refl
text_leb_refl (String.◌∷◌ c s) = ground (arith, text_leb_refl s)

pub text_leb_total : (s t : String) → text_leb s t ≡ false → text_leb t s ≡ true
text_leb_total String.[] t h = cc
text_leb_total (String.◌∷◌ c s) String.[] h = refl
text_leb_total (String.◌∷◌ c s) (String.◌∷◌ d t) h = ground (arith, text_leb_total s t)

pub text_leb_trans :
    (s t u : String) → text_leb s t ≡ true → text_leb t u ≡ true → text_leb s u ≡ true
text_leb_trans String.[] t u p q = refl
text_leb_trans (String.◌∷◌ c s) String.[] u p q = cc
text_leb_trans (String.◌∷◌ c s) (String.◌∷◌ d t) String.[] p q = cc
text_leb_trans (String.◌∷◌ c s) (String.◌∷◌ d t) (String.◌∷◌ e u) p q =
    ground (arith, text_leb_trans s t u)

pub text_leb_antisymm : (s t : String) → text_leb s t ≡ true → text_leb t s ≡ true → s ≡ t
text_leb_antisymm String.[] String.[] p q = refl
text_leb_antisymm String.[] (String.◌∷◌ d t) p q = cc
text_leb_antisymm (String.◌∷◌ c s) String.[] p q = cc
text_leb_antisymm (String.◌∷◌ c s) (String.◌∷◌ d t) p q =
    ap₂ (λ a b. String.◌∷◌ a b) (Char-path c d (ground arith))
      (text_leb_antisymm s t (ground arith) (ground arith))
