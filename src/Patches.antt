-- ===== src/Patches.antt =====
-- The patch of a run on its way from a worker to the host: `toRunPatch`, `toSandboxPatch` and
-- `RunReporter.update` of packages/worker/src/reporter.ts, the frame's JSON text, which drops the keys
-- whose value is undefined, and `patchFromWire`, `mergeSandbox` and `#applyRunPatch` of
-- packages/orchestrator/src/workers.ts. An object is a map from its keys to their values.
pub mod Mirror
mod Tests
use brevi.Base.{
  ◌∷◌, String, Bool, true, false, not, ◌&&◌, Option, none, some, List, [], if◌then◌else◌, Dict, get,
  put, contains, str_eq,
}

-- The keys of RUN_PATCH_FIELDS but `sandbox`, and SANDBOX_PATCH_FIELDS.
abbrev pub run_patch_fields : List String
run_patch_fields =
    "status" ∷ "startedAt" ∷ "finishedAt" ∷ "queuedAt" ∷ "error" ∷ "resumeAt" ∷ "agentSessionId"
    ∷ "limit" ∷ "result" ∷ "prUrl" ∷ "prState" ∷ "attempts" ∷ "costs" ∷ "costTotals" ∷ []

abbrev pub sandbox_patch_fields : List String
sandbox_patch_fields = "provider" ∷ "id" ∷ "retainedUntil" ∷ []

-- What a key of an object may hold.
pub data Js {ℓ} (V : Type ℓ) : Type ℓ where
  undefined null : Js V
  value : V → Js V

-- `value === undefined ? null : value`, and `value === null ? undefined : value`.
abbrev pub or_null {ℓ} : {V : Type ℓ} → Js V → Js V
or_null undefined = null
or_null v = v

abbrev pub from_null {ℓ} : {V : Type ℓ} → Js V → Js V
from_null null = undefined
from_null v = v

module _ {ℓ} {V : Type ℓ} where
  -- `object[key]`: a key that is not there, and one that is undefined, read the same.
  abbrev pub read : String → List (String × Js V) → Js V
  read key object = elim (get key object) [ none ↦ undefined | some v ↦ v ]

  -- `{ ...object, ...patch }`.
  unfoldable pub spread : List (String × Js V) → List (String × Js V) → List (String × Js V)
  spread object [] = object
  spread object ((key, v) ∷ patch) = spread (put key v object) patch

  -- `toRunPatch` on the flat fields and `toSandboxPatch`: the listed keys that the patch names.
  unfoldable pub pick : List String → List (String × Js V) → List (String × Js V)
  pick [] source = []
  pick (key ∷ keys) source =
      let rest = pick keys source in
      elim (get key source) [ none ↦ rest | some v ↦ (key, or_null v) ∷ rest ]

  -- The object once it has been written as JSON and read back.
  unfoldable pub json : List (String × Js V) → List (String × Js V)
  json [] = []
  json ((key, v) ∷ object) =
      let rest = json object in
      elim v [ undefined ↦ rest | null ↦ (key, null) ∷ rest | value x ↦ (key, value x) ∷ rest ]

  -- `patchFromWire`, the sandbox being apart.
  unfoldable pub patch_from_wire : List (String × Js V) → List (String × Js V)
  patch_from_wire [] = []
  patch_from_wire ((key, v) ∷ patch) = (key, from_null v) ∷ patch_from_wire patch

  -- `if (patch[key] !== undefined) next[key] = patch[key] ?? undefined` for each key in turn.
  unfoldable pub merge_keys :
      List String → List (String × Js V) → List (String × Js V) → List (String × Js V)
  merge_keys [] patch next = next
  merge_keys (key ∷ keys) patch next = merge_keys keys patch (elim (read key patch) [
    | undefined ↦ next
    | null ↦ put key undefined next
    | value x ↦ put key (value x) next
  ])

-- A run as the two sides keep it.
pub record RunState {ℓ} (V : Type ℓ) : Type ℓ where
  pub fields : List (String × Js V)
  pub sandbox : List (String × Js String)

-- A patch of a run as a worker makes it, and as it travels. `sandbox` is none when the patch does not
-- name it.
abbrev pub SandboxPatch : Type 0
SandboxPatch = Option (Js (List (String × Js String)))

pub record RunPatch {ℓ} (V : Type ℓ) : Type ℓ where
  pub fields : List (String × Js V)
  pub sandbox : SandboxPatch

unfoldable pub pick_sandbox : SandboxPatch → SandboxPatch
unfolding pick
pick_sandbox none = none
pick_sandbox (some undefined) = some null
pick_sandbox (some null) = some null
pick_sandbox (some (value sandbox)) = some (value (pick sandbox_patch_fields sandbox))

unfoldable pub json_sandbox : SandboxPatch → SandboxPatch
unfolding json
json_sandbox none = none
json_sandbox (some undefined) = none
json_sandbox (some null) = some null
json_sandbox (some (value sandbox)) = some (value (json sandbox))

unfoldable pub spread_sandbox : List (String × Js String) → SandboxPatch → List (String × Js String)
unfolding spread
spread_sandbox current none = current
spread_sandbox current (some undefined) = current
spread_sandbox current (some null) = current
spread_sandbox current (some (value sandbox)) = spread current sandbox

module _ {ℓ} {V : Type ℓ} where
  unfoldable pub to_run_patch : RunPatch V → RunPatch V
  unfolding pick pick_sandbox
  to_run_patch patch = record {
    fields = pick run_patch_fields patch.fields;
    sandbox = pick_sandbox patch.sandbox;
  }

  -- The patch of a frame as it arrives.
  unfoldable pub on_wire : RunPatch V → RunPatch V
  unfolding json json_sandbox
  on_wire patch = record { fields = json patch.fields; sandbox = json_sandbox patch.sandbox }

  -- `RunReporter.update`: the snapshot that the worker keeps.
  unfoldable pub reporter_update : RunPatch V → RunState V → RunState V
  unfolding spread spread_sandbox
  reporter_update patch run = record {
    fields = spread run.fields patch.fields;
    sandbox = spread_sandbox run.sandbox patch.sandbox;
  }

unfoldable pub merge_sandbox :
    List (String × Js String) → Js (List (String × Js String)) → String → List (String × Js String)
unfolding merge_keys
merge_sandbox current patch worker_id =
    let next = put "workerId" (value worker_id) current in
    elim patch [
      | undefined ↦ next
      | null ↦ next
      | value named ↦ merge_keys sandbox_patch_fields named next
    ]

-- `if ("sandbox" in patch)`.
unfoldable pub apply_sandbox :
    String → SandboxPatch → List (String × Js String) → List (String × Js String)
unfolding merge_sandbox
apply_sandbox worker_id none current = current
apply_sandbox worker_id (some named) current = merge_sandbox current named worker_id

module _ {ℓ} {V : Type ℓ} where
  -- `#applyRunPatch`.
  unfoldable pub apply_run_patch : String → RunPatch V → RunState V → RunState V
  unfolding apply_sandbox spread patch_from_wire
  apply_run_patch worker_id patch run = record {
    fields = spread run.fields (patch_from_wire patch.fields);
    sandbox = apply_sandbox worker_id patch.sandbox run.sandbox;
  }
