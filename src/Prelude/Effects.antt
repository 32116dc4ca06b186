-- ===== src/Prelude/Effects.antt =====
-- Operations that read and write a state and may fail. What was written before a failure stays
-- written, so the state comes back beside the error too; `transaction` takes the writes back.
use mathlib.Core.Path.{◌≡◌, refl, ap}
use mathlib.Core.Logic.{◌⊎◌, inl, inr}

pub data Result (E A : Type 0) : Type 0 where
  ok : A → Result E A
  err : E → Result E A

abbrev pub Exec : Type 0 → Type 0 → Type 0 → Type 0
Exec S E A = S → Result E A × S

module _ {S E A : Type 0} where
  abbrev pub pure : A → Exec S E A
  pure a s = (ok a, s)

  abbrev pub raise : E → Exec S E A
  raise e s = (err e, s)

  abbrev pub gets : (S → A) → Exec S E A
  gets f s = (ok (f s), s)

  -- Dropping a `rusqlite::Transaction` that was not committed rolls it back.
  abbrev rollback : S → Result E A × S → Result E A × S
  rollback s (ok a, s') = (ok a, s')
  rollback s (err e, s') = (err e, s)

  abbrev pub transaction : Exec S E A → Exec S E A
  transaction m s = rollback s (m s)

  -- `let _ = m;`: the result is dropped, the writes stay.
  abbrev pub ignore : Exec S E A → S → S
  ignore m s = (m s).1

abbrev pub modify : {S E : Type 0} → (S → S) → Exec S E (Unit {0})
modify f s = (ok tt, f s)

module _ {S E A B : Type 0} where
  abbrev pub proceed : (A → Exec S E B) → Result E A × S → Result E B × S
  proceed f (ok a, s) = f a s
  proceed f (err e, s) = (err e, s)

  infixl 5 ◌>>=◌ ◌>>◌
  abbrev pub ◌>>=◌ : Exec S E A → (A → Exec S E B) → Exec S E B
  ◌>>=◌ m f s = proceed f (m s)

  abbrev pub ◌>>◌ : Exec S E A → Exec S E B → Exec S E B
  m >> n = m >>= λ _. n

module _ {S E A B : Type 0} where
  proceed_ok :
      (f : A → Exec S E B) (r : Result E A × S) (b : B)
      → (proceed f r).0 ≡ ok b
      → (a : A) × (r.0 ≡ ok a) × ((f a r.1).0 ≡ ok b) × (proceed f r ≡ f a r.1)
  proceed_ok f (ok a, s) b h = (a, refl, h, refl)
  proceed_ok f (err e, s) b h = cc

  -- A chain that succeeds has a first part that succeeds, and goes on from the state it leaves.
  pub >>=-eq-ok :
      (m : Exec S E A) (f : A → Exec S E B) (s : S) (b : B)
      → ((m >>= f) s).0 ≡ ok b
      → (a : A) × ((m s).0 ≡ ok a) × ((f a (m s).1).0 ≡ ok b) × ((m >>= f) s ≡ f a (m s).1)
  >>=-eq-ok m f s b h = proceed_ok f (m s) b h

module _ {S E A B : Type 0} where
  proceed_err :
      (f : A → Exec S E B) (r : Result E A × S) (e : E)
      → (proceed f r).0 ≡ err e
      → ((r.0 ≡ err e) × ((proceed f r).1 ≡ r.1))
        ⊎ ((a : A) × (r.0 ≡ ok a) × ((f a r.1).0 ≡ err e) × (proceed f r ≡ f a r.1))
  proceed_err f (ok a, s) e h = inr (a, refl, h, refl)
  proceed_err f (err x, s) e h = inl (cc, refl)

  -- A chain that fails has a first part that fails, or goes on from the state that it leaves.
  pub >>=-eq-err :
      (m : Exec S E A) (f : A → Exec S E B) (s : S) (e : E)
      → ((m >>= f) s).0 ≡ err e
      → (((m s).0 ≡ err e) × (((m >>= f) s).1 ≡ (m s).1))
        ⊎ ((a : A) × ((m s).0 ≡ ok a) × ((f a (m s).1).0 ≡ err e) × ((m >>= f) s ≡ f a (m s).1))
  >>=-eq-err m f s e h = proceed_err f (m s) e h

module _ {S E A B : Type 0} where
  -- A first part that is known to succeed.
  pub >>=-ok :
      (m : Exec S E A) (f : A → Exec S E B) (s s' : S) (a : A)
      → m s ≡ (ok a, s')
      → (m >>= f) s ≡ f a s'
  >>=-ok m f s s' a h = ap (proceed f) h

  -- A first part that is known to fail.
  pub >>=-err :
      (m : Exec S E A) (f : A → Exec S E B) (s s' : S) (e : E)
      → m s ≡ (err e, s')
      → (m >>= f) s ≡ (err e, s')
  >>=-err m f s s' e h = ap (proceed f) h

module _ {S E A : Type 0} where
  rollback_ok :
      (s : S) (r : Result E A × S) (a : A)
      → (rollback s r).0 ≡ ok a
      → (r.0 ≡ ok a) × (rollback s r ≡ r)
  rollback_ok s (ok b, s') a h = (h, refl)
  rollback_ok s (err e, s') a h = cc

  -- A transaction that succeeds is its body.
  pub transaction_ok :
      (m : Exec S E A) (s : S) (a : A)
      → (transaction m s).0 ≡ ok a
      → ((m s).0 ≡ ok a) × (transaction m s ≡ m s)
  transaction_ok m s a h = rollback_ok s (m s) a h

  rollback_err :
      (s : S) (r : Result E A × S) (e : E) → (rollback s r).0 ≡ err e → (rollback s r).1 ≡ s
  rollback_err s (ok b, s') e h = cc
  rollback_err s (err x, s') e h = refl

  -- A transaction that fails leaves the state as it was.
  pub transaction_err :
      (m : Exec S E A) (s : S) (e : E) → (transaction m s).0 ≡ err e → (transaction m s).1 ≡ s
  transaction_err m s e h = rollback_err s (m s) e h

  rollback_total : (s : S) (r : Result E A × S) (a : A) → r.0 ≡ ok a → (rollback s r).0 ≡ ok a
  rollback_total s (ok b, s') a h = h
  rollback_total s (err x, s') a h = cc

  -- A body that succeeds is committed.
  pub transaction_total :
      (m : Exec S E A) (s : S) (a : A) → (m s).0 ≡ ok a → (transaction m s).0 ≡ ok a
  transaction_total m s a h = rollback_total s (m s) a h
