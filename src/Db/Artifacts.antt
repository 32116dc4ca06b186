-- ===== src/Db/Artifacts.antt =====
-- The content-addressed artifact store (crates/divan-db/src/artifacts.rs) and the layout of its
-- paths (crates/divan-core/src/artifact.rs). The bytes of an artifact are held as the text that
-- they encode: every caller publishes the bytes of a `str`. BLAKE3 is the parameter `digest`.
pub mod SafePaths
pub mod Rows
pub mod RoundTrip
use Prim.Native.String.{◌++◌ as concat}
use ajan_orkestrasyonu.Prelude.{
  ℕ, Bool, Option, none, some, String, len, ◌==◌, [], ◌∷◌, ◌++◌, any, find, ltb, ◌||◌,
  if◌then◌else◌, Result, ok, err, Exec, pure, raise, gets, ◌>>=◌, ◌>>◌,
}
use ajan_orkestrasyonu.Prelude.Files.{Os, is_absolute, has_parent_dir, path_join}
use ajan_orkestrasyonu.Core.Ids.{AgentId, ArtifactRef}
use ajan_orkestrasyonu.Core.Message.{SummaryFault, validate_summary}
use ajan_orkestrasyonu.Core.Error.{invalid_summary}
use ajan_orkestrasyonu.Db.Store.{Db, DbError, ArtifactMeta, io, domain, not_found, integrity}

-- The database and the world that holds the files.
pub record Stored (W : Type 0) : Type 0 where
  pub db : Db
  pub os : W

abbrev pub StoreExec : Type 0 → Type 0 → Type 0
StoreExec W A = Exec (Stored W) DbError A

-- `digest.split_at(2)`, for a digest of ASCII characters.
abbrev pub shard : String → String
shard String.[] = "/"
shard (String.◌∷◌ a String.[]) = String.◌∷◌ a "/"
shard (String.◌∷◌ a (String.◌∷◌ b rest)) = String.◌∷◌ a (String.◌∷◌ b (concat "/" rest))

unfoldable pub shard_path : String → Option String
shard_path digest = if ltb (len digest) 3 then none else some (shard digest)

abbrev pub is_ref : ArtifactRef → ArtifactMeta → Bool
is_ref r m = m.artifact_ref == r

-- `ON CONFLICT(ref) DO NOTHING`
abbrev pub insert_meta : ArtifactMeta → Db → Db
insert_meta m db =
    if any (is_ref m.artifact_ref) db.artifacts
    then db
    else record db { artifacts = db.artifacts ++ (m ∷ []) }

abbrev pub meta :
    ArtifactRef
    → String
    → String
    → Option String
    → Option String
    → Option AgentId
    → ℕ
    → ArtifactMeta
meta digest rel content mime summary created_by created_at = record {
  artifact_ref = digest;
  path = rel;
  mime = mime;
  bytes = len content;
  summary = summary;
  created_by = created_by;
  created_at = created_at;
}

module _ {W : Type 0} where
  abbrev pub require_summary : Option SummaryFault → StoreExec W (Unit {0})
  require_summary none = pure tt
  require_summary (some fault) = raise (domain (invalid_summary fault))

  abbrev pub of_io : {A : Type 0} → Db → Result String A × W → Result DbError A × Stored W
  of_io db (ok a, w) = (ok a, record { db = db; os = w })
  of_io db (err e, w) = (err (io e), record { db = db; os = w })

  -- A call of the file system; `?` turns its error into `DbError::Io`.
  abbrev pub on_os : {A : Type 0} → (W → Result String A × W) → StoreExec W A
  on_os m s = of_io s.db (m s.os)

  abbrev pub require_path : Option String → StoreExec W String
  require_path none = raise (integrity "digest too short")
  require_path (some rel) = pure rel

  abbrev pub require_meta : ArtifactRef → Option ArtifactMeta → StoreExec W ArtifactMeta
  require_meta r none = raise (not_found (concat "artifact " r))
  require_meta r (some m) = pure m

  unfoldable pub get_meta : ArtifactRef → StoreExec W (Option ArtifactMeta)
  get_meta r = gets (λ s. find (is_ref r) s.db.artifacts)

  -- Under the root, without a way out of it.
  unfoldable pub safe_join : String → String → StoreExec W String
  safe_join root rel =
      if is_absolute rel || has_parent_dir rel
      then raise (integrity (concat "unsafe artifact path: " rel))
      else pure (path_join root rel)

  -- `parent` is `abs.parent()`: the root and the first two characters of the digest.
  module _ (os : Os W) (digest : String → String) where
    abbrev pub write_if_absent : String → String → String → StoreExec W (Unit {0})
    write_if_absent parent abs content s =
        if os.exists abs s.os
        then (ok tt, s)
        else (on_os (os.create_dir_all parent) >> on_os (os.write abs content)) s

    abbrev pub parent : String → String → String
    parent root String.[] = root
    parent root (String.◌∷◌ a String.[]) = path_join root (String.◌∷◌ a "")
    parent root (String.◌∷◌ a (String.◌∷◌ b rest)) = path_join root (String.◌∷◌ a (String.◌∷◌ b ""))

    abbrev pub checked : Option String → StoreExec W (Unit {0})
    checked none = pure tt
    checked (some s) = require_summary (validate_summary s)

    unfoldable pub put :
        String
        → String
        → Option String
        → Option String
        → Option AgentId
        → ℕ
        → StoreExec W ArtifactRef
    put root content mime summary created_by created_at = do
      checked summary
      rel ← require_path (shard_path (digest content))
      write_if_absent (parent root (digest content)) (path_join root rel) content
      (λ s. (
        ok tt,
        record s {
          db =
              insert_meta (meta (digest content) rel content mime summary created_by created_at)
                s.db;
        },
      ))
      pure (digest content)

    unfoldable pub get : String → ArtifactRef → StoreExec W String
    get root r = do
      found ← get_meta r
      m ← require_meta r found
      abs ← safe_join root m.path
      on_os (os.read abs)
