-- ===== src/Patches/Tests.antt =====
-- The theorems on patches at one that sets the status, clears an error and ends the retention.
use brevi.Base.{◌≡◌, refl, String, some, [], ◌∷◌}
use brevi.Patches.{
  undefined, value, RunPatch, RunState, read, spread, to_run_patch, on_wire, reporter_update,
  apply_run_patch,
}
use brevi.Patches.Mirror.{fields_mirrored, sandbox_mirrored, owner_is_lease_holder}

abbrev patch : RunPatch String
patch = record {
  fields = ("status", value "running") ∷ ("error", undefined) ∷ [];
  sandbox = some (value (("retainedUntil", undefined) ∷ ("workerId", value "w9") ∷ []));
}

abbrev run : RunState String
run = record {
  fields = ("status", value "preparing") ∷ ("error", value "late") ∷ [];
  sandbox = ("workerId", value "w1") ∷ ("retainedUntil", value "noon") ∷ [];
}

error_cleared : read "error" (reporter_update patch run).fields ≡ undefined
unfolding reporter_update spread
error_cleared = refl

fields_mirrored_example :
    read "error" (apply_run_patch "w1" (on_wire (to_run_patch patch)) run).fields
    ≡ read "error" (reporter_update patch run).fields
fields_mirrored_example = fields_mirrored "w1" patch run run "error" refl refl refl refl

sandbox_mirrored_example :
    read "retainedUntil" (apply_run_patch "w1" (on_wire (to_run_patch patch)) run).sandbox
    ≡ read "retainedUntil" (reporter_update patch run).sandbox
sandbox_mirrored_example = sandbox_mirrored "w1" patch run run "retainedUntil" refl refl refl

owner_is_lease_holder_example :
    read "workerId" (apply_run_patch "w1" patch run).sandbox ≡ value "w1"
owner_is_lease_holder_example =
    owner_is_lease_holder "w1" patch run
      (value (("retainedUntil", undefined) ∷ ("workerId", value "w9") ∷ [])) refl
