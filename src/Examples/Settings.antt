-- ===== src/Examples/Settings.antt =====
-- Hooks merged into settings that have a hook of the user, and removed.
use ajan_orkestrasyonu.Prelude.{◌≡◌, refl, none, ok, Result}
use ajan_orkestrasyonu.Prelude.Json.{Value, array, object, nil, cons, end, field}
use ajan_orkestrasyonu.Hooks.Settings.{
  SettingsError, merge_install, merge_uninstall, add_command_entry, hook_entry, is_divan_command,
}
use ajan_orkestrasyonu.Hooks.Settings.Idempotent.{merge_install-again}
use ajan_orkestrasyonu.Hooks.Settings.Removal.{IsClean, merge_uninstall-IsClean}

abbrev user_settings : Value
user_settings = object (
    field "hooks"
      (object (field "UserPromptSubmit" (array (cons (hook_entry none "/u/user.sh") nil)) end)) end)

abbrev install : Value → Result SettingsError Value
install = merge_install "/c/divan-turn-end.sh" "/c/divan-activity.sh" "/c/divan-pretooluse.sh"

abbrev merged : Result SettingsError Value → Value
merged (ok v) = v
merged (Result.err e) = Value.null

abbrev installed : Value
installed = merged (install user_settings)

install_succeeds : install user_settings ≡ ok installed
unfolding merge_install add_command_entry
install_succeeds = refl

merge_install-again_example : install installed ≡ ok installed
merge_install-again_example =
    merge_install-again "/c/divan-turn-end.sh" "/c/divan-activity.sh" "/c/divan-pretooluse.sh"
      user_settings installed install_succeeds

merge_uninstall-IsClean_example :
    (root' : Value) × (merge_uninstall installed ≡ ok root') × IsClean root'
merge_uninstall-IsClean_example = merge_uninstall-IsClean installed

-- The hook of the user is what is left.
uninstall_restores : merge_uninstall installed ≡ ok user_settings
unfolding merge_install add_command_entry merge_uninstall is_divan_command
uninstall_restores = refl
