-- ===== src/Db/Artifacts/RoundTrip.antt =====
-- A published artifact is read back (crates/divan-db/src/artifacts.rs), for files that keep what is
-- written and a digest in hexadecimal.
use ajan_orkestrasyonu.Prelude.{
  ℕ, ◌≡◌, refl, ◌∙◌, ap, subst, inl, inr, true, false, Option, none, some, String, len, ltb,
  Bool-cases, Result, sym, pure, ok, err, proceed, >>=-eq-ok, ◌>>=◌, ◌>>◌,
}
use ajan_orkestrasyonu.Prelude.Files.{Os, path_join}
use ajan_orkestrasyonu.Core.Ids.{AgentId, ArtifactRef}
use ajan_orkestrasyonu.Core.Message.{validate_summary}
use ajan_orkestrasyonu.Db.Store.{Db}
use ajan_orkestrasyonu.Db.Artifacts.{
  Stored, StoreExec, shard, shard_path, insert_meta, meta, get_meta, safe_join, on_os, of_io,
  write_if_absent, parent, checked, put, require_summary, require_path, get,
}
use ajan_orkestrasyonu.Db.Artifacts.SafePaths.{all_plain, shard-safe}
use ajan_orkestrasyonu.Db.Artifacts.Rows.{IsSharded, insert_meta-find}

long_path : (d : String) (p : String) → ltb (len d) 3 ≡ false → shard_path d ≡ some p → p ≡ shard d
unfolding shard_path
long_path d p k = rw k (λ h. cc h)

module _ {W : Type 0} where
  of_io-ok :
      {A : Type 0} (db : Db) (r : Result String A × W) (a : A) → (of_io db r).0 ≡ ok a → r.0 ≡ ok a
  of_io-ok db (ok x, w) a h = cc h
  of_io-ok db (err e, w) a h = cc h

  of_io-back :
      {A : Type 0} (db : Db) (r : Result String A × W) (a : A) → r.0 ≡ ok a → (of_io db r).0 ≡ ok a
  of_io-back db (ok x, w) a h = cc h
  of_io-back db (err e, w) a h = cc h

  of_io-os : {A : Type 0} (db : Db) (r : Result String A × W) → (of_io db r).1.os ≡ r.1
  of_io-os db (ok x, w) = refl
  of_io-os db (err e, w) = refl

  of_io-db : {A : Type 0} (db : Db) (r : Result String A × W) → (of_io db r).1.db ≡ db
  of_io-db db (ok x, w) = refl
  of_io-db db (err e, w) = refl

module _ {W : Type 0} (os : Os W) (digest : String → String) where
  -- A write that succeeds is what a read finds.
  abbrev pub KeepsFiles : Type 0
  KeepsFiles =
      (path content : String) (w : W)
      → (os.write path content w).0 ≡ ok tt
      → (os.read path (os.write path content w).1).0 ≡ ok content

  module _ (root content : String) (mime summary : Option String) (by : Option AgentId) (ts : ℕ)
      (s : Stored W) where
    abbrev pub target : String
    target = path_join root (shard (digest content))

    abbrev write_file : StoreExec W (Unit {0})
    write_file = on_os (os.write target content)

    made :
        (db : Db) (r : Result String (Unit {0}) × W)
        → KeepsFiles
        → (proceed (λ u. write_file) (of_io db r)).0 ≡ ok tt
        → (os.read target (proceed (λ u. write_file) (of_io db r)).1.os).0 ≡ ok content
    made db (err e, w) keeps h = cc h
    made db (ok u, w) keeps h =
        let r = os.write target content w in
        ap (λ v. (os.read target v).0) (of_io-os db r) ∙ keeps target content w (of_io-ok db r tt h)

    made-db :
        (db : Db) (r : Result String (Unit {0}) × W)
        → (proceed (λ u. write_file) (of_io db r)).1.db ≡ db
    made-db db (err e, w) = refl
    made-db db (ok u, w) = of_io-db db (os.write target content w)

    abbrev write_target : StoreExec W (Unit {0})
    write_target = write_if_absent os digest (parent os digest root (digest content)) target content

    write_target-db : (write_target s).1.db ≡ s.db
    write_target-db = elim (Bool-cases (os.exists target s.os)) [
      | inl e ↦ rw e refl
      | inr e ↦
          rw e (made-db s.db (os.create_dir_all (parent os digest root (digest content)) s.os))
    ]

    written :
        KeepsFiles
        → (os.exists target s.os ≡ true → (os.read target s.os).0 ≡ ok content)
        → (write_target s).0 ≡ ok tt
        → (os.read target (write_target s).1.os).0 ≡ ok content
    written keeps there = elim (Bool-cases (os.exists target s.os)) [
      | inl e ↦ rw e (λ h. there e)
      | inr e ↦
          rw e (made s.db (os.create_dir_all (parent os digest root (digest content)) s.os) keeps)
    ]

    -- What follows the write.
    abbrev after : StoreExec W ArtifactRef
    after t = (
      ok (digest content),
      record t {
        db =
            insert_meta (meta (digest content) (shard (digest content)) content mime summary by ts)
              t.db;
      },
    )

    -- The row and the file of the digest are there, so the content is read.
    stored :
        (t : Stored W)
        → all_plain (digest content) ≡ true
        → ltb (len (digest content)) 3 ≡ false
        → IsSharded t.db
        → (os.read target t.os).0 ≡ ok content
        → (get os digest root (digest content) (record t {
          db =
              insert_meta
                (meta (digest content) (shard (digest content)) content mime summary by ts)
                t.db;
        })).0
          ≡ ok content
    unfolding get get_meta safe_join shard_path
    stored t h k sharded r =
        let m = meta (digest content) (shard (digest content)) content mime summary by ts in
        let (x, q, p) = insert_meta-find m t.db sharded (rw k refl) in
        let e : x.path ≡ shard (digest content) = long_path (digest content) x.path k p in
        rw (q, e, shard-safe (digest content) h k)
          (of_io-back (insert_meta m t.db) (os.read target t.os) content r)

    checked-state : (o : Option String) → (checked os digest o s).1 ≡ s
    checked-state none = refl
    checked-state (some x) = elim (validate_summary x) as (λ v. (require_summary v s).1 ≡ s) [
      | none ↦ refl
      | some f ↦ refl
    ]

    -- A write that succeeds, then the insertion of the row: the content is read.
    kept :
        (r : ArtifactRef)
        → KeepsFiles
        → all_plain (digest content) ≡ true
        → ltb (len (digest content)) 3 ≡ false
        → IsSharded s.db
        → (os.exists target s.os ≡ true → (os.read target s.os).0 ≡ ok content)
        → (proceed (λ u. after) (write_target s)).0 ≡ ok r
        → (get os digest root r (proceed (λ u. after) (write_target s)).1).0 ≡ ok content
    kept r keeps h k sharded there q =
        let (u, w, f, e) = >>=-eq-ok write_target (λ u. after) s r q in
        let t = (write_target s).1 in
        let read : (os.read target t.os).0 ≡ ok content = written keeps there w in
        let rows : IsSharded t.db = subst IsSharded (sym write_target-db) sharded in
        let same : digest content ≡ r = cc f in
        subst (λ v. (get os digest root r v.1).0 ≡ ok content) (sym e)
          (subst (λ d. (get os digest root d (after t).1).0 ≡ ok content) same
            (stored t h k rows read))

    outcome :
        (r : ArtifactRef)
        → KeepsFiles
        → all_plain (digest content) ≡ true
        → IsSharded s.db
        → (os.exists target s.os ≡ true → (os.read target s.os).0 ≡ ok content)
        → (put os digest root content mime summary by ts s).0 ≡ ok r
        → (get os digest root r (put os digest root content mime summary by ts s).1).0 ≡ ok content
    unfolding put shard_path
    outcome r keeps h sharded there q =
        let rest : String → StoreExec W ArtifactRef = λ rel. do
          write_if_absent os digest (parent os digest root (digest content)) (path_join root rel)
              content
          (λ t. (
            ok tt,
            record t {
              db = insert_meta (meta (digest content) rel content mime summary by ts) t.db;
            },
          ))
          pure (digest content)
        in let next : StoreExec W ArtifactRef =
            require_path (shard_path (digest content)) >>= rest in
          let (u, a, f, e) = >>=-eq-ok (checked os digest summary) (λ v. next) s r q in
          let same : (checked os digest summary s).1 ≡ s = checked-state summary in
          let g : (next s).0 ≡ ok r = subst (λ v. (next v).0 ≡ ok r) same f in
          subst (λ v. (get os digest root r v.1).0 ≡ ok content) (sym (e ∙ ap next same))
            (elim (Bool-cases (ltb (len (digest content)) 3)) [
              | inl k ↦
                  let j : shard_path (digest content) ≡ none = rw k refl in
                  cc (subst (λ o. ((require_path o >>= rest) s).0 ≡ ok r) j g)
              | inr k ↦
                  let j : shard_path (digest content) ≡ some (shard (digest content)) = rw k refl in
                  let l : next s ≡ proceed (λ u. after) (write_target s) = rw j refl in
                  subst (λ v. (get os digest root r v.1).0 ≡ ok content) (sym l)
                    (kept r keeps h k sharded there (subst (λ v. v.0 ≡ ok r) l g))
            ])

  -- On files that keep what is written, with a digest of characters other than `.` and `/` and rows
  -- that name the path of their digest: when a file that is already at the path of the content's
  -- digest holds the content, a successful `put` answers a reference, and `get` of it in the state
  -- that `put` leaves reads the content.
  pub put-get :
      KeepsFiles
      → (root content : String) (mime summary : Option String) (by : Option AgentId) (ts : ℕ)
      → (s : Stored W) (r : ArtifactRef) → all_plain (digest content) ≡ true
      → IsSharded s.db
      → (os.exists (path_join root (shard (digest content))) s.os ≡ true
          → (os.read (path_join root (shard (digest content))) s.os).0 ≡ ok content)
      → (put os digest root content mime summary by ts s).0 ≡ ok r
      → (get os digest root r (put os digest root content mime summary by ts s).1).0 ≡ ok content
  put-get keeps root content mime summary by ts s r h sharded there q =
      outcome root content mime summary by ts s r keeps h sharded there q
