-- ===== src/Db/Tasks/Rows.antt =====
-- The task table as a map from ids to rows (crates/divan-db/src/tasks.rs).
use ajan_orkestrasyonu.Prelude.{
  ◌≡◌, refl, ◌≢◌, none, some, String, ◌==◌, eq_iff, List, [], ◌∷◌, ◌++◌, any, find, update_if,
  arith, if◌then◌else◌, is_some,
}
use ajan_orkestrasyonu.Db.Store.{TaskRow}
use ajan_orkestrasyonu.Db.Tasks.{has_id}

module _ (f : TaskRow → TaskRow) (keep : (r : TaskRow) → (f r).id ≡ r.id) where
  -- A rewritten row is found under its id.
  pub find-update_self :
      (id : String) (rows : List TaskRow) (r : TaskRow)
      → find (has_id id) rows ≡ some r
      → find (has_id id) (update_if (has_id id) f rows) ≡ some (f r)
  find-update_self id [] r h = cc
  find-update_self id (x ∷ rows) r h = ground (arith, keep x, find-update_self id rows r)

  -- The other ids keep their rows.
  pub find-update_ne :
      (id j : String) (rows : List TaskRow)
      → id ≢ j
      → find (has_id j) (update_if (has_id id) f rows) ≡ find (has_id j) rows
  find-update_ne id j [] ne = refl
  find-update_ne id j (x ∷ rows) ne =
      ground (arith, keep x, eq_iff x.id id, eq_iff x.id j, find-update_ne id j rows ne)

  pub find-update_none :
      (id j : String) (rows : List TaskRow)
      → find (has_id j) rows ≡ none
      → find (has_id j) (update_if (has_id id) f rows) ≡ none
  find-update_none id j [] h = refl
  find-update_none id j (x ∷ rows) h = ground (arith, keep x, find-update_none id j rows)

pub find-append :
    (j : String) (rows : List TaskRow) (r : TaskRow)
    → find (has_id j) (rows ++ (r ∷ []))
      ≡ (if any (has_id j) rows then find (has_id j) rows else if r.id == j then some r else none)
find-append j [] r = refl
find-append j (x ∷ rows) r = ground (arith, find-append j rows r)

pub find-any :
    (j : String) (rows : List TaskRow) → any (has_id j) rows ≡ is_some (find (has_id j) rows)
find-any j [] = refl
find-any j (x ∷ rows) = ground (arith, find-any j rows)

-- A row is found under its own id only.
pub find-id :
    (j : String) (rows : List TaskRow) (r : TaskRow) → find (has_id j) rows ≡ some r → r.id ≡ j
find-id j [] r h = cc
find-id j (x ∷ rows) r h = ground (arith, eq_iff x.id j, find-id j rows r)
