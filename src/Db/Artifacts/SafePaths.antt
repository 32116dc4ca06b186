-- ===== src/Db/Artifacts/SafePaths.antt =====
-- The path of a digest stays under the root of the artifacts (crates/divan-core/src/artifact.rs).
use Prim.Native.Char.{Char, code}
use Prim.Native.String.{◌++◌ as concat}
use Prim.Native.String.append
use ajan_orkestrasyonu.Prelude.{
  ◌≡◌, refl, subst, inl, inr, Bool, true, false, not, ◌&&◌, ◌||◌, String, ◌==◌, len, any, ltb, eqb,
  arith, Bool-cases, text_eq,
}
use ajan_orkestrasyonu.Prelude.Files.{split_from, slash, is_absolute, has_parent_dir}
use ajan_orkestrasyonu.Db.Artifacts.{shard}

-- Neither a dot nor a slash: what the hexadecimal text of a digest is made of.
abbrev pub is_plain : Char → Bool
is_plain c = not (eqb (code c) 46) && not (eqb (code c) 47)

abbrev pub all_plain : String → Bool
all_plain String.[] = true
all_plain (String.◌∷◌ c s) = is_plain c && all_plain s

-- Without a dot.
abbrev dotless : String → Bool
dotless String.[] = true
dotless (String.◌∷◌ c s) = not (eqb (code c) 46) && dotless s

and_both : (a b : Bool) → a && b ≡ true → (a ≡ true) × (b ≡ true)
and_both true b h = (refl, h)
and_both false b h = cc

dotless-concat : (s t : String) → dotless s ≡ true → dotless t ≡ true → dotless (concat s t) ≡ true
dotless-concat String.[] t h k = rw (append.nil t) k
dotless-concat (String.◌∷◌ c s) t h k = rw (append.cons c s t) (ground (arith, dotless-concat s t))

dotless-not_parent : (s : String) → dotless s ≡ true → (s == "..") ≡ false
dotless-not_parent s h = elim (Bool-cases (s == "..")) [
  | inl e ↦ cc (subst (λ x. dotless x ≡ true) (text_eq s ".." e) h)
  | inr e ↦ e
]

split-safe :
    (part s : String)
    → dotless part ≡ true
    → dotless s ≡ true
    → any (λ c. c == "..") (split_from slash part s) ≡ false
unfolding split_from
split-safe part String.[] h k = rw (dotless-not_parent part h) refl
split-safe part (String.◌∷◌ c s) h k =
    let (p, q) = and_both (not (eqb (code c) 46)) (dotless s) k in
    elim (Bool-cases (eqb (code c) slash)) [
      | inl e ↦ rw (e, dotless-not_parent part h) (split-safe "" s refl q)
      | inr e ↦ rw e (
          split-safe (concat part (String.◌∷◌ c "")) s (dotless-concat part _ h (ground (arith, p)))
            q)
    ]

plain-dotless : (s : String) → all_plain s ≡ true → dotless s ≡ true
plain-dotless String.[] h = refl
plain-dotless (String.◌∷◌ c s) h =
    let (p, q) = and_both (is_plain c) (all_plain s) h in
    let (a, b) = and_both (not (eqb (code c) 46)) (not (eqb (code c) 47)) p in
    ground (arith, a, plain-dotless s q)

no_parent : (p : String) → dotless p ≡ true → has_parent_dir p ≡ false
no_parent p h = split-safe "" p refl h

relative : (c : Char) → is_plain c ≡ true → eqb (code c) slash ≡ false
relative c h = ground arith

-- The path of a digest stays under the root.
pub shard-safe :
    (d : String)
    → all_plain d ≡ true
    → ltb (len d) 3 ≡ false
    → is_absolute (shard d) || has_parent_dir (shard d) ≡ false
shard-safe String.[] h k = cc
shard-safe (String.◌∷◌ a String.[]) h k =
    let (p, q) = and_both (is_plain a) true h in
    let d : dotless (String.◌∷◌ a "/") ≡ true = ground (arith, p) in
    rw (relative a p) (no_parent (String.◌∷◌ a "/") d)
shard-safe (String.◌∷◌ a (String.◌∷◌ b rest)) h k =
    let (p, q) = and_both (is_plain a) (is_plain b && all_plain rest) h in
    let (x, y) = and_both (is_plain b) (all_plain rest) q in
    let e : dotless (concat "/" rest) ≡ true =
      dotless-concat "/" rest refl (plain-dotless rest y) in
    let d : dotless (shard (String.◌∷◌ a (String.◌∷◌ b rest))) ≡ true = ground (arith, p, x, e) in
    rw (relative a p) (no_parent (shard (String.◌∷◌ a (String.◌∷◌ b rest))) d)
