-- ===== src/Db/Artifacts/Rows.antt =====
-- The rows of the artifacts and the paths they name (crates/divan-db/src/artifacts.rs).
use ajan_orkestrasyonu.Prelude.{
  ◌≡◌, refl, subst, inl, inr, true, false, some, ◌==◌, List, [], ◌∷◌, ◌++◌, any, find, All, arith,
  Bool-cases, text_eq, eq_refl,
}
use ajan_orkestrasyonu.Core.Ids.{ArtifactRef}
use ajan_orkestrasyonu.Db.Store.{Db, ArtifactMeta}
use ajan_orkestrasyonu.Db.Artifacts.{shard_path, is_ref, insert_meta}

-- Every row names the path of its digest.
abbrev pub IsSharded : Db → Type 0
IsSharded db = All (λ m. shard_path m.artifact_ref ≡ some m.path) db.artifacts

row-path :
    (d : ArtifactRef) (rows : List ArtifactMeta) (m : ArtifactMeta)
    → All (λ x. shard_path x.artifact_ref ≡ some x.path) rows
    → find (is_ref d) rows ≡ some m
    → shard_path d ≡ some m.path
row-path d [] m h q = cc
row-path d (x ∷ rows) m (p, h) q = elim (Bool-cases (x.artifact_ref == d)) [
  | inl e ↦
      let g : x ≡ m = ground arith in
      subst (λ y. shard_path d ≡ some y.path) g
        (subst (λ r. shard_path r ≡ some x.path) (text_eq x.artifact_ref d e) p)
  | inr e ↦ row-path d rows m h (ground arith)
]

any-find :
    (d : ArtifactRef) (rows : List ArtifactMeta)
    → any (is_ref d) rows ≡ true
    → (m : ArtifactMeta) × (find (is_ref d) rows ≡ some m)
any-find d [] h = cc
any-find d (x ∷ rows) h = elim (Bool-cases (x.artifact_ref == d)) [
  | inl e ↦ (x, rw e refl)
  | inr e ↦ let (m, q) = any-find d rows (ground arith) in (m, rw e q)
]

find-last :
    (d : ArtifactRef) (rows : List ArtifactMeta) (m : ArtifactMeta)
    → any (is_ref d) rows ≡ false
    → (m.artifact_ref == d) ≡ true
    → find (is_ref d) (rows ++ (m ∷ [])) ≡ some m
find-last d [] m h q = rw q refl
find-last d (x ∷ rows) m h q = ground (arith, find-last d rows m)

-- After the insertion the row of the digest is there, with the path of the digest.
pub insert_meta-find :
    (m : ArtifactMeta) (db : Db)
    → IsSharded db
    → shard_path m.artifact_ref ≡ some m.path
    → (x : ArtifactMeta) × (find (is_ref m.artifact_ref) (insert_meta m db).artifacts ≡ some x)
      × (shard_path m.artifact_ref ≡ some x.path)
insert_meta-find m db h p = elim (Bool-cases (any (is_ref m.artifact_ref) db.artifacts)) [
  | inl e ↦
      let (x, q) = any-find m.artifact_ref db.artifacts e in
      (x, rw e q, row-path m.artifact_ref db.artifacts x h q)
  | inr e ↦ (m, rw e (find-last m.artifact_ref db.artifacts m e (eq_refl m.artifact_ref)), p)
]
