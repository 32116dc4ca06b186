-- ===== src/Hooks/Settings.antt =====
-- The merge of the hooks of Divan into Claude's `settings.json`
-- (crates/divan-hooks/src/settings.rs). A path is the text that `to_string_lossy` gives.
pub mod Idempotent
pub mod Removal
use ajan_orkestrasyonu.Prelude.{
  Bool, true, false, ◌||◌, not, Option, none, some, map_or, String, ◌==◌, List, [], ◌∷◌, any,
  Result, ok, err, if◌then◌else◌,
}
use ajan_orkestrasyonu.Prelude.Json.{
  Value, Values, Fields, null, text, array, object, nil, cons, end, field, field_of, set_field,
  remove_field, as_object, as_array, as_str, get_key, any_value, push, is_nil,
}

pub data SettingsError : Type 0 where
  json : String → SettingsError
  not_an_object : String → SettingsError

abbrev pub turn_end_event : String
turn_end_event = "UserPromptSubmit"

abbrev pub activity_event : String
activity_event = "Stop"

abbrev pub pretooluse_event : String
pretooluse_event = "PreToolUse"

abbrev pub pretooluse_matcher : String
pretooluse_matcher = "Write|Edit|MultiEdit"

abbrev divan_basenames : List String
divan_basenames = "divan-turn-end.sh" ∷ "divan-activity.sh" ∷ "divan-pretooluse.sh" ∷ []

-- `str::ends_with`
abbrev ends_with : String → String → Bool
ends_with String.[] b = "" == b
ends_with (String.◌∷◌ c s) b = String.◌∷◌ c s == b || ends_with s b

unfoldable pub is_divan_command : String → Bool
is_divan_command cmd = any (λ b. ends_with cmd b) divan_basenames

module _ {A B : Type 0} where
  infixl 5 ◌>>=◌
  abbrev pub ◌>>=◌ : Result SettingsError A → (A → Result SettingsError B) → Result SettingsError B
  ok a >>= f = f a
  err e >>= f = err e

abbrev pub require : {A : Type 0} → String → Option A → Result SettingsError A
require what none = err (not_an_object what)
require what (some a) = ok a

-- `entry(key).or_insert_with(..)`
abbrev pub entry_or : String → Value → Fields → Value
entry_or k v fs = map_or v (λ w. w) (field_of k fs)

-- `h.get("command").and_then(Value::as_str)`, tested
abbrev pub command_is : (String → Bool) → Value → Bool
command_is p h = map_or false (λ v. map_or false p (as_str v)) (get_key "command" h)

-- `matcher.get("hooks").and_then(Value::as_array)`
abbrev pub inner_hooks : Value → Option Values
inner_hooks m = map_or none as_array (get_key "hooks" m)

abbrev pub has_command : (String → Bool) → Value → Bool
has_command p m = map_or false (any_value (command_is p)) (inner_hooks m)

abbrev pub already_present : String → Values → Bool
already_present command = any_value (has_command (λ c. c == command))

abbrev command_hook : String → Value
command_hook command = object (field "type" (text "command") (field "command" (text command) end))

abbrev hook_list : String → Fields
hook_list command = field "hooks" (array (cons (command_hook command) nil)) end

abbrev pub hook_entry : Option String → String → Value
hook_entry none command = object (hook_list command)
hook_entry (some m) command = object (field "matcher" (text m) (hook_list command))

-- The entry is appended under the event, unless the command is there.
unfoldable pub add_command_entry :
    String → Option String → String → Fields → Result SettingsError Fields
add_command_entry event matcher command hooks = do
  arr ← require "hooks event array" (as_array (entry_or event (array nil) hooks))
  ok (
      set_field event
        (array (if already_present command arr then arr else push arr (hook_entry matcher command)))
        hooks)

abbrev pub root_of : Value → Value
root_of null = object end
root_of v = v

unfoldable pub merge_install : String → String → String → Value → Result SettingsError Value
merge_install turn_end_path activity_path pretooluse_path root = do
  obj ← require "root" (as_object (root_of root))
  hooks ← require "hooks" (as_object (entry_or "hooks" (object end) obj))
  one ← add_command_entry turn_end_event none turn_end_path hooks
  two ← add_command_entry activity_event none activity_path one
  three ← add_command_entry pretooluse_event (some pretooluse_matcher) pretooluse_path two
  ok (object (set_field "hooks" (object three) obj))

abbrev pub retain_user : Values → Values
retain_user nil = nil
retain_user (cons h hs) =
    let rest = retain_user hs in if command_is is_divan_command h then rest else cons h rest

-- `matcher` with its inner list replaced.
abbrev pub with_hooks : Values → Value → Value
with_hooks vs (object fs) = object (set_field "hooks" (array vs) fs)
with_hooks vs v = v

abbrev pub strip_matcher : Value → Values → Option Values → Values
strip_matcher m rest none = cons m rest
strip_matcher m rest (some inner) =
    if is_nil (retain_user inner) then rest else cons (with_hooks (retain_user inner) m) rest

abbrev pub strip_divan_from_event : Values → Values
strip_divan_from_event nil = nil
strip_divan_from_event (cons m ms) = strip_matcher m (strip_divan_from_event ms) (inner_hooks m)

abbrev pub strip_event : String → Fields → Fields
strip_event event hooks =
    map_or hooks (λ arr. set_field event (array (strip_divan_from_event arr)) hooks)
      (map_or none as_array (field_of event hooks))

abbrev pub empty_events : Fields → List String
empty_events end = []
empty_events (field k v fs) =
    let rest = empty_events fs in if map_or false is_nil (as_array v) then k ∷ rest else rest

abbrev pub remove_all : List String → Fields → Fields
remove_all [] fs = fs
remove_all (k ∷ ks) fs = remove_all ks (remove_field k fs)

abbrev pub no_fields : Fields → Bool
no_fields end = true
no_fields (field k v fs) = false

abbrev pub stripped : Fields → Fields
stripped hooks =
    strip_event pretooluse_event (strip_event activity_event (strip_event turn_end_event hooks))

abbrev pub pruned : Fields → Fields
pruned hooks = remove_all (empty_events hooks) hooks

abbrev pub put_hooks : Fields → Fields → Value
put_hooks obj hooks =
    object
      (if no_fields hooks then remove_field "hooks" obj else set_field "hooks" (object hooks) obj)

abbrev pub clean_hooks : Value → Fields → Option Fields → Value
clean_hooks root obj none = root
clean_hooks root obj (some hooks) = put_hooks obj (pruned (stripped hooks))

unfoldable pub merge_uninstall : Value → Result SettingsError Value
merge_uninstall root = ok (
    map_or root (λ obj. clean_hooks root obj (map_or none as_object (field_of "hooks" obj)))
      (as_object root))
