-- ===== src/Hooks/Settings/Idempotent.antt =====
-- Installing the hooks again changes nothing (crates/divan-hooks/src/settings.rs).
use ajan_orkestrasyonu.Prelude.{
  subst, ◌≡◌, refl, ◌∙◌, ap, true, false, Bool-cases, inl, inr, Option, none, some, String, ◌==◌,
  Result, ok, err, eq_refl, if◌then◌else◌,
}
use ajan_orkestrasyonu.Prelude.Json.{
  Value, Values, Fields, null, text, array, object, nil, field_of, set_field, as_array, as_object,
  end, push, any_value-push, field_of-set_field, field_of-set_other, set_field-same,
}
use ajan_orkestrasyonu.Hooks.Settings.{
  SettingsError, turn_end_event, activity_event, pretooluse_event, pretooluse_matcher, ◌>>=◌,
  require, entry_or, already_present, hook_entry, has_command, add_command_entry, merge_install,
  root_of,
}

-- The command stands under the event.
pub record Installed (event command : String) (hooks : Fields) : Type 0 where
  pub entries : Values
  pub under : field_of event hooks ≡ some (array entries)
  pub present : already_present command entries ≡ true

bind_ok :
    {A B : Type 0} (r : Result SettingsError A) (f : A → Result SettingsError B) (b : B)
    → r >>= f ≡ ok b
    → (a : A) × (r ≡ ok a) × (f a ≡ ok b)
bind_ok (ok a) f b h = (a, refl, h)
bind_ok (err e) f b h = cc h

require_ok :
    {A : Type 0} (what : String) (o : Option A) (a : A) → require what o ≡ ok a → o ≡ some a
require_ok what none a h = cc h
require_ok what (some x) a h = cc h

array_of : (v : Value) (vs : Values) → as_array v ≡ some vs → v ≡ array vs
array_of (array ws) vs h = cc h
array_of null vs h = cc h
array_of (Value.boolean b) vs h = cc h
array_of (Value.number n) vs h = cc h
array_of (text s) vs h = cc h
array_of (object fs) vs h = cc h

hook_entry-present :
    (m : Option String) (c : String) → has_command (λ x. x == c) (hook_entry m c) ≡ true
hook_entry-present none c = rw (eq_refl c) refl
hook_entry-present (some m) c = rw (eq_refl c) refl

add_result-present :
    (m : Option String) (c : String) (arr : Values)
    → already_present c (if already_present c arr then arr else push arr (hook_entry m c)) ≡ true
add_result-present m c arr = elim (Bool-cases (already_present c arr)) [
  | inl e ↦ rw (e, e) refl
  | inr e ↦ rw e (any_value-push _ arr (hook_entry m c) (hook_entry-present m c))
]

-- An addition that succeeds writes under its event only, and its command is there.
record Added (e c : String) (hooks hooks' : Fields) : Type 0 where
  arr : Values
  is_set : hooks' ≡ set_field e (array arr) hooks
  there : already_present c arr ≡ true

add-Added :
    (e : String) (m : Option String) (c : String) (hooks hooks' : Fields)
    → add_command_entry e m c hooks ≡ ok hooks'
    → Added e c hooks hooks'
unfolding add_command_entry
add-Added e m c hooks hooks' h =
    let (arr, p, q) =
      bind_ok (require "hooks event array" (as_array (entry_or e (array nil) hooks)))
        (λ x.
          ok (
            set_field e (array (if already_present c x then x else push x (hook_entry m c))) hooks))
        hooks' h in
    record {
      arr = if already_present c arr then arr else push arr (hook_entry m c);
      is_set = cc q;
      there = add_result-present m c arr;
    }

add-Installed :
    {e c : String} {hooks hooks' : Fields} → Added e c hooks hooks' → Installed e c hooks'
add-Installed {e} {c} {hooks} {hooks'} a = record {
  entries = a.arr;
  under = ap (field_of e) a.is_set ∙ field_of-set_field e (array a.arr) hooks;
  present = a.there;
}

-- An addition under another event leaves what is installed.
add-keeps :
    {e c e' c' : String} {hooks hooks' : Fields}
    → (e == e') ≡ false
    → Added e c hooks hooks'
    → Installed e' c' hooks
    → Installed e' c' hooks'
add-keeps {e} {c} {e'} {c'} {hooks} d a i = record {
  entries = i.entries;
  under = ap (field_of e') a.is_set ∙ field_of-set_other e e' (array a.arr) hooks d ∙ i.under;
  present = i.present;
}

-- Adding what is installed changes nothing.
add-again :
    (e : String) (m : Option String) (c : String) (hooks : Fields)
    → Installed e c hooks
    → add_command_entry e m c hooks ≡ ok hooks
unfolding add_command_entry
add-again e m c hooks i =
    rw (i.under, i.present) (ap ok (set_field-same e (array i.entries) hooks i.under))

-- The three additions of an installation, with what each leaves.
record Installation (a b c : String) (hooks hooks' : Fields) : Type 0 where
  one : Fields
  two : Fields
  first : add_command_entry turn_end_event none a hooks ≡ ok one
  second : add_command_entry activity_event none b one ≡ ok two
  third : add_command_entry pretooluse_event (some pretooluse_matcher) c two ≡ ok hooks'

-- After an installation each of its commands stands under its event.
record AllInstalled (a b c : String) (hooks : Fields) : Type 0 where
  turn_end : Installed turn_end_event a hooks
  activity : Installed activity_event b hooks
  pretooluse : Installed pretooluse_event c hooks

Installation-AllInstalled :
    {a b c : String} {hooks hooks' : Fields}
    → Installation a b c hooks hooks'
    → AllInstalled a b c hooks'
Installation-AllInstalled {a} {b} {c} {hooks} {hooks'} i =
    let x = add-Added turn_end_event none a hooks i.one i.first in
    let y = add-Added activity_event none b i.one i.two i.second in
    let z = add-Added pretooluse_event (some pretooluse_matcher) c i.two hooks' i.third in
    record {
      turn_end = add-keeps refl z (add-keeps refl y (add-Installed x));
      activity = add-keeps refl z (add-Installed y);
      pretooluse = add-Installed z;
    }

-- What a successful installation puts under the root.
merge_install-object :
    (a b c : String) (root root' : Value)
    → merge_install a b c root ≡ ok root'
    → (obj hooks hooks' : Fields) × Installation a b c hooks hooks'
      × (object (set_field "hooks" (object hooks') obj) ≡ root')
unfolding merge_install
merge_install-object a b c root root' h =
    let put : Fields → Fields → Result SettingsError Value =
      λ obj three. ok (object (set_field "hooks" (object three) obj)) in
    let after_two : Fields → Fields → Result SettingsError Value =
      λ obj two. add_command_entry pretooluse_event (some pretooluse_matcher) c two >>= put obj in
    let after_one : Fields → Fields → Result SettingsError Value =
      λ obj one. add_command_entry activity_event none b one >>= after_two obj in
    let after_hooks : Fields → Fields → Result SettingsError Value =
      λ obj hooks. add_command_entry turn_end_event none a hooks >>= after_one obj in
    let (obj, _, h1) =
      bind_ok (require "root" (as_object (root_of root)))
        (λ obj. require "hooks" (as_object (entry_or "hooks" (object end) obj)) >>= after_hooks obj)
        root' h in
    let (hooks, _, h2) =
      bind_ok (require "hooks" (as_object (entry_or "hooks" (object end) obj))) (after_hooks obj)
        root' h1 in
    let (one, u, h3) =
      bind_ok (add_command_entry turn_end_event none a hooks) (after_one obj) root' h2 in
    let (two, v, h4) =
      bind_ok (add_command_entry activity_event none b one) (after_two obj) root' h3 in
    let (three, w, h5) =
      bind_ok (add_command_entry pretooluse_event (some pretooluse_matcher) c two) (put obj) root'
        h4 in
    (obj, hooks, three, record { one = one; two = two; first = u; second = v; third = w }, cc h5)

-- An installation that succeeds leaves settings that the same installation does not change.
pub merge_install-again :
    (turn_end_path activity_path pretooluse_path : String) (root root' : Value)
    → merge_install turn_end_path activity_path pretooluse_path root ≡ ok root'
    → merge_install turn_end_path activity_path pretooluse_path root' ≡ ok root'
unfolding merge_install
merge_install-again a b c root root' h =
    let (obj, hooks, hooks', i, e) = merge_install-object a b c root root' h in
    let all = Installation-AllInstalled i in
    let at = field_of-set_field "hooks" (object hooks') obj in
    subst (λ r. merge_install a b c r ≡ ok r) e
      (rw
        (
          at,
          add-again turn_end_event none a hooks' all.turn_end,
          add-again activity_event none b hooks' all.activity,
          add-again pretooluse_event (some pretooluse_matcher) c hooks' all.pretooluse,
        )
        (ap (λ fs. ok (object fs))
          (set_field-same "hooks" (object hooks') (set_field "hooks" (object hooks') obj) at)))
