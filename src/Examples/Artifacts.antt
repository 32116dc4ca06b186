-- ===== src/Examples/Artifacts.antt =====
-- An artifact published and read back, on files held as a list of paths and contents.
use ajan_orkestrasyonu.Prelude.{
  ◌≡◌, refl, Bool, true, false, none, some, String, ◌==◌, List, [], ◌∷◌, Result, ok, err, eq_refl,
  if◌then◌else◌,
}
use ajan_orkestrasyonu.Prelude.Files.{Os}
use ajan_orkestrasyonu.Core.Message.{validate_summary}
use ajan_orkestrasyonu.Db.Store.{fresh}
use ajan_orkestrasyonu.Db.Artifacts.{Stored, put, get, shard_path}
use ajan_orkestrasyonu.Db.Artifacts.RoundTrip.{KeepsFiles, put-get}

abbrev Files : Type 0
Files = List (String × String)

abbrev has_file : String → Files → Bool
has_file path [] = false
has_file path ((p, c) ∷ w) = if p == path then true else has_file path w

abbrev read_file : String → Files → Result String String × Files
read_file path [] = (err "not found", [])
read_file path ((p, c) ∷ w) = if p == path then (ok c, (p, c) ∷ w) else read_file path w

abbrev files : Os Files
files = record {
  git = λ repo args w. (err "no git", w);
  exists = has_file;
  create_dir_all = λ path w. (ok tt, w);
  write = λ path content w. (ok tt, (path, content) ∷ w);
  read = read_file;
  now_ms = λ w. (0, w);
}

abbrev digest : String → String
digest content = "abcdef"

keeps : KeepsFiles files digest
keeps path content w h = rw (eq_refl path) refl

abbrev empty : Stored Files
empty = record { db = fresh; os = [] }

put_succeeds : (put files digest "root" "text" none (some "a report") none 7 empty).0 ≡ ok "abcdef"
unfolding put shard_path validate_summary
put_succeeds = refl

put-get_example :
    (get files digest "root" "abcdef"
      (put files digest "root" "text" none (some "a report") none 7 empty).1).0
    ≡ ok "text"
put-get_example =
    put-get files digest keeps "root" "text" none (some "a report") none 7 empty "abcdef" refl tt
      (λ h. cc h) put_succeeds
