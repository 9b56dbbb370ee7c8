-- ===== src/Desktop/UpdatePolicy.antt =====
-- apps/desktop/src/main/update-policy.ts: what the auto-updater shows and does. `show` prints a
-- number, and a rounded percentage arrives as the number that `Math.round` gives.
pub mod Actions
use Prim.Native.String
use brevi.Base.{
  ℕ, String, Bool, true, false, ◌&&◌, Option, none, some, if◌then◌else◌, ◌==◌, str_eq, min, max,
}

pub data UpdaterState : Type 0 where
  unsupported : String → UpdaterState
  idle : Option ℕ → UpdaterState
  checking : UpdaterState
  downloading : String → ℕ → UpdaterState
  ready : String → ℕ → UpdaterState
  installing : String → UpdaterState
  error : String → UpdaterState

pub record UpdateEnvironment : Type 0 where
  pub platform : String
  pub packaged : Bool
  pub app_image : Bool

pub data UpdateSupport : Type 0 where
  supported : UpdateSupport
  not_supported : String → UpdateSupport

infixl 60 ◌then_text◌
abbrev ◌then_text◌ : String → String → String
a then_text b = String.◌++◌ a b

unfoldable pub update_support : UpdateEnvironment → UpdateSupport
update_support env =
    if env.packaged
    then (if str_eq env.platform "darwin"
        then supported
        else if str_eq env.platform "linux"
        then (if env.app_image
            then supported
            else not_supported "managed by your package manager (deb/rpm)")
        else not_supported ("unsupported on " then_text env.platform))
    else not_supported "disabled in development builds"

unfoldable pub clamp_percent : ℕ → ℕ
clamp_percent percent = min 100 (max 0 percent)

module _ (show : ℕ → String) where
  unfoldable pub update_line : UpdaterState → Option String
  unfolding clamp_percent
  update_line (unsupported reason) = some ("Updates: " then_text reason)
  update_line (idle last_checked_at) = none
  update_line checking = some "Update: checking..."
  update_line (downloading version percent) = some (
      "Update: downloading v"
      then_text version
      then_text " ("
      then_text show (clamp_percent percent)
      then_text "%)")
  update_line (ready version busy_runs) =
      if busy_runs == 0
      then some ("Update: v" then_text version then_text " ready, restarting shortly")
      else some (
          "Update: v"
          then_text version
          then_text " ready (waiting for "
          then_text show busy_runs
          then_text " run"
          then_text (if busy_runs == 1 then "" else "s")
          then_text ")")
  update_line (installing version) = some ("Update: installing v" then_text version then_text "...")
  update_line (error message) = some ("Update: check failed (" then_text message then_text ")")

pub record MenuItem : Type 0 where
  pub label : String
  pub enabled : Bool

unfoldable pub update_menu_item : UpdaterState → MenuItem
update_menu_item (unsupported reason) = record { label = "Check for Updates"; enabled = false }
update_menu_item checking = record { label = "Checking for Updates..."; enabled = false }
update_menu_item (downloading version percent) = record {
  label = "Downloading v" then_text version then_text "...";
  enabled = false;
}
update_menu_item (ready version busy_runs) = record {
  label = "Restart to Update (v" then_text version then_text ")";
  enabled = true;
}
update_menu_item (installing version) = record { label = "Restarting..."; enabled = false }
update_menu_item (idle last_checked_at) = record { label = "Check for Updates"; enabled = true }
update_menu_item (error message) = record { label = "Check for Updates"; enabled = true }

pub data UpdateAction : Type 0 where
  install check nothing : UpdateAction

unfoldable pub update_action : UpdaterState → UpdateAction
update_action (ready version busy_runs) = install
update_action (idle last_checked_at) = check
update_action (error message) = check
update_action _ = nothing

unfoldable pub should_install_now : UpdaterState → ℕ → Bool
should_install_now (ready version n) busy_runs = busy_runs == 0
should_install_now _ busy_runs = false
