-- ===== src/Prelude/Json.antt =====
-- The JSON values of serde_json and what the code uses of them. An object is its fields in an order
-- of their own: the code reads and writes them by key.
use ajan_orkestrasyonu.Prelude.{
  ◌≡◌, refl, ap, Bool, true, false, ◌||◌, Option, none, some, String, ◌==◌, eq_refl, Bool-cases,
  inl, inr, if◌then◌else◌, text_eq, subst, sym,
}

mutual
  pub data Value : Type 0 where
    null : Value
    boolean : Bool → Value
    number : String → Value
    text : String → Value
    array : Values → Value
    object : Fields → Value

  pub data Values : Type 0 where
    nil : Values
    cons : Value → Values → Values

  pub data Fields : Type 0 where
    end : Fields
    field : String → Value → Fields → Fields

-- `Map::get`
abbrev pub field_of : String → Fields → Option Value
field_of k end = none
field_of k (field j v fs) = if j == k then some v else field_of k fs

-- `Map::insert`
abbrev pub set_field : String → Value → Fields → Fields
set_field k v end = field k v end
set_field k v (field j w fs) =
    let rest = set_field k v fs in if j == k then field j v fs else field j w rest

-- `Map::remove`
abbrev pub remove_field : String → Fields → Fields
remove_field k end = end
remove_field k (field j v fs) =
    let rest = remove_field k fs in if j == k then rest else field j v rest

abbrev pub as_object : Value → Option Fields
as_object (object fs) = some fs
as_object _ = none

abbrev pub as_array : Value → Option Values
as_array (array vs) = some vs
as_array _ = none

abbrev pub as_str : Value → Option String
as_str (text s) = some s
as_str _ = none

-- `Value::get` with a key
abbrev pub get_key : String → Value → Option Value
get_key k (object fs) = field_of k fs
get_key _ _ = none

abbrev pub any_value : (Value → Bool) → Values → Bool
any_value p nil = false
any_value p (cons v vs) = p v || any_value p vs

abbrev pub push : Values → Value → Values
push nil v = cons v nil
push (cons w vs) v = cons w (push vs v)

abbrev pub is_nil : Values → Bool
is_nil nil = true
is_nil (cons v vs) = false

pub any_value-push :
    (p : Value → Bool) (vs : Values) (v : Value) → p v ≡ true → any_value p (push vs v) ≡ true
any_value-push p nil v h = rw h refl
any_value-push p (cons w vs) v h = rw (any_value-push p vs v h) (or_true (p w))
  where
    or_true : (b : Bool) → b || true ≡ true
    or_true true = refl
    or_true false = refl

pub field_of-set_field :
    (k : String) (v : Value) (fs : Fields) → field_of k (set_field k v fs) ≡ some v
field_of-set_field k v end = rw (eq_refl k) refl
field_of-set_field k v (field j w fs) = elim (Bool-cases (j == k)) [
  | inl e ↦ rw (e, e) refl
  | inr e ↦ rw (e, e) (field_of-set_field k v fs)
]

-- Setting a field leaves every other one.
pub field_of-set_other :
    (k j : String) (v : Value) (fs : Fields)
    → (k == j) ≡ false
    → field_of j (set_field k v fs) ≡ field_of j fs
field_of-set_other k j v end h = rw h refl
field_of-set_other k j v (field i w fs) h = elim (Bool-cases (i == k)) [
  | inl e ↦ rw (e, subst (λ x. (x == j) ≡ false) (sym (text_eq i k e)) h) refl
  | inr e ↦ rw (e, field_of-set_other k j v fs h) refl
]

pub set_field-same :
    (k : String) (v : Value) (fs : Fields) → field_of k fs ≡ some v → set_field k v fs ≡ fs
set_field-same k v end = λ h. cc h
set_field-same k v (field j w fs) = elim (Bool-cases (j == k)) [
  | inl e ↦ rw e (λ h. cc h)
  | inr e ↦ rw e (λ h. ap (field j w) (set_field-same k v fs h))
]

-- A removed field is gone.
pub field_of-remove_field : (k : String) (fs : Fields) → field_of k (remove_field k fs) ≡ none
field_of-remove_field k end = refl
field_of-remove_field k (field i v fs) = elim (Bool-cases (i == k)) [
  | inl e ↦ rw e (field_of-remove_field k fs)
  | inr e ↦ rw (e, e) (field_of-remove_field k fs)
]

-- Removing a field leaves every other one.
pub field_of-remove_other :
    (k j : String) (fs : Fields) → (k == j) ≡ false → field_of j (remove_field k fs) ≡ field_of j fs
field_of-remove_other k j end h = refl
field_of-remove_other k j (field i v fs) h = elim (Bool-cases (i == k)) [
  | inl e ↦
      rw (e, subst (λ x. (x == j) ≡ false) (sym (text_eq i k e)) h) (field_of-remove_other k j fs h)
  | inr e ↦ rw (e, field_of-remove_other k j fs h) refl
]
