-- ===== src/Daemon/Scheduler/Ids.antt =====
-- The three tasks of a run have different ids (crates/divan-daemon/src/scheduler.rs).
use Prim.Native.Char.{Char, code}
use Prim.Native.String.{◌++◌ as concat}
use Prim.Native.String.append
use ajan_orkestrasyonu.Prelude.{ℕ, ◌≡◌, ◌≢◌, refl, ap, arith, String}
use ajan_orkestrasyonu.Prelude.Decimal.{show}
use ajan_orkestrasyonu.Daemon.Scheduler.Flow.{root_id, impl_id, review_id}

-- The code of the second character.
abbrev second : String → ℕ
second String.[] = 0
second (String.◌∷◌ a String.[]) = 0
second (String.◌∷◌ a (String.◌∷◌ b s)) = code b

second-concat :
    (a b : Char) (s t : String) → second (concat (String.◌∷◌ a (String.◌∷◌ b s)) t) ≡ code b
second-concat a b s t = rw (append.cons a (String.◌∷◌ b s) t, append.cons b s t) refl

pub root-impl : (now : ℕ) → root_id now ≢ impl_id now
root-impl now = λ e.
    let f : second (root_id now) ≡ second (impl_id now) = ap second e in
    ground (arith, second-concat "r" "o" "ot-" (show now), second-concat "i" "m" "pl-" (show now))

pub root-review : (now : ℕ) → root_id now ≢ review_id now
root-review now = λ e.
    let f : second (root_id now) ≡ second (review_id now) = ap second e in
    ground (arith, second-concat "r" "o" "ot-" (show now), second-concat "r" "e" "view-" (show now))

pub impl-review : (now : ℕ) → impl_id now ≢ review_id now
impl-review now = λ e.
    let f : second (impl_id now) ≡ second (review_id now) = ap second e in
    ground (arith, second-concat "i" "m" "pl-" (show now), second-concat "r" "e" "view-" (show now))
