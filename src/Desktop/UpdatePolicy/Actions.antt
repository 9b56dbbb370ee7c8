-- ===== src/Desktop/UpdatePolicy/Actions.antt =====
-- What a click on the menu item does agrees with what the item shows (update-policy.ts).
use brevi.Base.{ℕ, ◌≡◌, refl, Bool, true, false, ◌&&◌, ◌==◌}
use brevi.Desktop.UpdatePolicy.{
  UpdaterState, UpdateAction, install, check, nothing, update_action, update_menu_item,
  should_install_now,
}

abbrev pub does_something : UpdateAction → Bool
does_something install = true
does_something check = true
does_something nothing = false

abbrev pub would_install : UpdateAction → Bool
would_install install = true
would_install check = false
would_install nothing = false

-- The menu item is enabled exactly when a click on it does something.
pub menu_item_enabled_iff_action :
    (state : UpdaterState) → (update_menu_item state).enabled ≡ does_something (update_action state)
unfolding update_menu_item update_action
menu_item_enabled_iff_action (UpdaterState.unsupported reason) = refl
menu_item_enabled_iff_action (UpdaterState.idle at) = refl
menu_item_enabled_iff_action UpdaterState.checking = refl
menu_item_enabled_iff_action (UpdaterState.downloading v p) = refl
menu_item_enabled_iff_action (UpdaterState.ready v n) = refl
menu_item_enabled_iff_action (UpdaterState.installing v) = refl
menu_item_enabled_iff_action (UpdaterState.error m) = refl

-- The updater installs by itself exactly where a click would install and no run is busy.
pub installs_by_itself :
    (state : UpdaterState) (busy_runs : ℕ)
    → should_install_now state busy_runs ≡ (would_install (update_action state) && busy_runs == 0)
unfolding should_install_now update_action
installs_by_itself (UpdaterState.unsupported reason) n = refl
installs_by_itself (UpdaterState.idle at) n = refl
installs_by_itself UpdaterState.checking n = refl
installs_by_itself (UpdaterState.downloading v p) n = refl
installs_by_itself (UpdaterState.ready v b) n = refl
installs_by_itself (UpdaterState.installing v) n = refl
installs_by_itself (UpdaterState.error m) n = refl
