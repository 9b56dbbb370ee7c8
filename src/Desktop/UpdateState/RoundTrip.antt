-- ===== src/Desktop/UpdateState/RoundTrip.antt =====
-- What is written is read back (`writeUpdateState`, `readUpdateState` of update-state.ts).
use brevi.Base.{◌≡◌, refl, String, Option, none, some, List, [], ◌∷◌}
use brevi.Desktop.Json.{get_field}
use brevi.Desktop.UpdateState.{
  DesktopUpdateState, PendingInstall, strings, items_of, written, read_update_state,
  pending_install, pending_of_fields, quarantined_of,
}

strings-items_of : (ss : List String) → strings (items_of ss) ≡ some ss
unfolding strings items_of
strings-items_of [] = refl
strings-items_of (s ∷ ss) = rw (strings-items_of ss)

-- Reading the value that was written gives the state back.
pub read_update_state-written :
    (state : DesktopUpdateState) → read_update_state (some (written state)) ≡ state
unfolding read_update_state written pending_install pending_of_fields get_field quarantined_of
read_update_state-written state = go state.pending state.quarantined
  where
    go :
        (p : Option PendingInstall) (q : List String)
        → let s : DesktopUpdateState = record { pending = p; quarantined = q } in
          read_update_state (some (written s)) ≡ s
    go none q = rw (strings-items_of q, quarantined_of)
    go (some p) q = rw (strings-items_of q, quarantined_of)
