-- ===== src/Hooks/Settings/Removal.antt =====
-- Uninstalling leaves no hook of Divan (crates/divan-hooks/src/settings.rs).
use ajan_orkestrasyonu.Prelude.{
  ok, ◌≡◌, refl, text_eq, subst, Bool, false, Bool-cases, inl, inr, Option, none, some, String,
  ◌==◌, map_or, List, [], ◌∷◌,
}
use ajan_orkestrasyonu.Prelude.Json.{
  field, end, as_object, Value, Values, Fields, null, text, array, object, nil, cons, field_of,
  set_field, remove_field, as_array, field_of-set_field, field_of-set_other, field_of-remove_field,
  field_of-remove_other, any_value, is_nil, get_key,
}
use ajan_orkestrasyonu.Hooks.Settings.{
  clean_hooks, stripped, pruned, put_hooks, merge_uninstall, empty_events, activity_event,
  turn_end_event, pretooluse_event, has_command, command_is, inner_hooks, is_divan_command,
  retain_user, with_hooks, strip_matcher, strip_divan_from_event, strip_event, remove_all,
}

-- Some entry under the event holds a command of Divan.
abbrev holds_divan : Option Value → Bool
holds_divan o = map_or false (any_value (has_command is_divan_command)) (map_or none as_array o)

abbrev pub under_hooks : String → Value → Option Value
under_hooks event root = map_or none (get_key event) (get_key "hooks" root)

-- None of the three events has a command of Divan.
abbrev pub IsClean : Value → Type 0
IsClean root =
    (holds_divan (under_hooks turn_end_event root) ≡ false)
    × (holds_divan (under_hooks activity_event root) ≡ false)
    × (holds_divan (under_hooks pretooluse_event root) ≡ false)

retain_user-clean : (hs : Values) → any_value (command_is is_divan_command) (retain_user hs) ≡ false
retain_user-clean nil = refl
retain_user-clean (cons h hs) = elim (Bool-cases (command_is is_divan_command h)) [
  | inl e ↦ rw e (retain_user-clean hs)
  | inr e ↦ rw (e, e) (retain_user-clean hs)
]

with_hooks-clean :
    (vs : Values) (m : Value) (inner : Values)
    → inner_hooks m ≡ some inner
    → any_value (command_is is_divan_command) vs ≡ false
    → has_command is_divan_command (with_hooks vs m) ≡ false
with_hooks-clean vs (object fs) inner h k = rw (field_of-set_field "hooks" (array vs) fs) k
with_hooks-clean vs null inner h k = refl
with_hooks-clean vs (Value.boolean b) inner h k = refl
with_hooks-clean vs (Value.number n) inner h k = refl
with_hooks-clean vs (text s) inner h k = refl
with_hooks-clean vs (array ws) inner h k = refl

strip_matcher-clean :
    (m : Value) (rest : Values) (o : Option Values)
    → inner_hooks m ≡ o
    → any_value (has_command is_divan_command) rest ≡ false
    → any_value (has_command is_divan_command) (strip_matcher m rest o) ≡ false
strip_matcher-clean m rest none h k = rw (h, k) refl
strip_matcher-clean m rest (some inner) h k = elim (Bool-cases (is_nil (retain_user inner))) [
  | inl e ↦ rw e k
  | inr e ↦ rw (e, with_hooks-clean (retain_user inner) m inner h (retain_user-clean inner)) k
]

strip-clean :
    (ms : Values) → any_value (has_command is_divan_command) (strip_divan_from_event ms) ≡ false
strip-clean nil = refl
strip-clean (cons m ms) =
    strip_matcher-clean m (strip_divan_from_event ms) (inner_hooks m) refl (strip-clean ms)

abbrev strip_found : String → Fields → Option Values → Fields
strip_found event hooks o =
    map_or hooks (λ arr. set_field event (array (strip_divan_from_event arr)) hooks) o

strip_event-clean :
    (e : String) (hooks : Fields) → holds_divan (field_of e (strip_event e hooks)) ≡ false
strip_event-clean e hooks = found (map_or none as_array (field_of e hooks)) refl
  where
    found :
        (o : Option Values)
        → map_or none as_array (field_of e hooks) ≡ o
        → holds_divan (field_of e (strip_found e hooks o)) ≡ false
    found none h = rw h refl
    found (some arr) h =
        rw (field_of-set_field e (array (strip_divan_from_event arr)) hooks) (strip-clean arr)

strip_event-other :
    (e e' : String) (hooks : Fields)
    → (e == e') ≡ false
    → field_of e' (strip_event e hooks) ≡ field_of e' hooks
strip_event-other e e' hooks d = found (map_or none as_array (field_of e hooks))
  where
    found : (o : Option Values) → field_of e' (strip_found e hooks o) ≡ field_of e' hooks
    found none = refl
    found (some arr) = field_of-set_other e e' (array (strip_divan_from_event arr)) hooks d

remove_all-clean :
    (ks : List String) (e : String) (hooks : Fields)
    → holds_divan (field_of e hooks) ≡ false
    → holds_divan (field_of e (remove_all ks hooks)) ≡ false
remove_all-clean [] e hooks h = h
remove_all-clean (k ∷ ks) e hooks h =
    remove_all-clean ks e (remove_field k hooks) (elim (Bool-cases (k == e)) [
      | inl q ↦
          subst (λ x. holds_divan (field_of x (remove_field k hooks)) ≡ false) (text_eq k e q)
            (rw (field_of-remove_field k hooks) refl)
      | inr q ↦ rw (field_of-remove_other k e hooks q) h
    ])

-- An event that holds no command before another is stripped holds none after.
strip_event-keeps :
    (e e' : String) (hooks : Fields)
    → (e == e') ≡ false
    → holds_divan (field_of e' hooks) ≡ false
    → holds_divan (field_of e' (strip_event e hooks)) ≡ false
strip_event-keeps e e' hooks d h = rw (strip_event-other e e' hooks d) h

put_hooks-clean :
    (event : String) (obj hooks : Fields)
    → holds_divan (field_of event hooks) ≡ false
    → holds_divan (under_hooks event (put_hooks obj hooks)) ≡ false
put_hooks-clean event obj end h = rw (field_of-remove_field "hooks" obj) refl
put_hooks-clean event obj (field k v fs) h =
    rw (field_of-set_field "hooks" (object (field k v fs)) obj) h

cleaned : (obj hooks : Fields) → IsClean (put_hooks obj (pruned (stripped hooks)))
cleaned obj hooks =
    let one = strip_event turn_end_event hooks in
    let two = strip_event activity_event one in
    let three = strip_event pretooluse_event two in
    let at : (e : String)
        → holds_divan (field_of e three) ≡ false
        → holds_divan (under_hooks e (put_hooks obj (pruned three))) ≡ false =
      λ e h.
        put_hooks-clean e obj (pruned three) (remove_all-clean (empty_events three) e three h) in
    (
      at turn_end_event (
          strip_event-keeps pretooluse_event turn_end_event two refl (
            strip_event-keeps activity_event turn_end_event one refl
              (strip_event-clean turn_end_event hooks))),
      at activity_event (
          strip_event-keeps pretooluse_event activity_event two refl
            (strip_event-clean activity_event one)),
      at pretooluse_event (strip_event-clean pretooluse_event two),
    )

clean_hooks-IsClean :
    (obj : Fields) (v : Option Value)
    → field_of "hooks" obj ≡ v
    → IsClean (clean_hooks (object obj) obj (map_or none as_object v))
clean_hooks-IsClean obj none h = rw h (refl, refl, refl)
clean_hooks-IsClean obj (some (object hooks)) h = cleaned obj hooks
clean_hooks-IsClean obj (some null) h = rw h (refl, refl, refl)
clean_hooks-IsClean obj (some (Value.boolean b)) h = rw h (refl, refl, refl)
clean_hooks-IsClean obj (some (Value.number n)) h = rw h (refl, refl, refl)
clean_hooks-IsClean obj (some (text s)) h = rw h (refl, refl, refl)
clean_hooks-IsClean obj (some (array vs)) h = rw h (refl, refl, refl)

-- Uninstalling succeeds on any settings, and no entry under the three events of Divan holds a
-- command of Divan afterwards.
pub merge_uninstall-IsClean :
    (root : Value) → (root' : Value) × (merge_uninstall root ≡ ok root') × IsClean root'
unfolding merge_uninstall
merge_uninstall-IsClean (object obj) = (
  clean_hooks (object obj) obj (map_or none as_object (field_of "hooks" obj)),
  refl,
  clean_hooks-IsClean obj (field_of "hooks" obj) refl,
)
merge_uninstall-IsClean null = (null, refl, (refl, refl, refl))
merge_uninstall-IsClean (Value.boolean b) = (Value.boolean b, refl, (refl, refl, refl))
merge_uninstall-IsClean (Value.number n) = (Value.number n, refl, (refl, refl, refl))
merge_uninstall-IsClean (text s) = (text s, refl, (refl, refl, refl))
merge_uninstall-IsClean (array vs) = (array vs, refl, (refl, refl, refl))
