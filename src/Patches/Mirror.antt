-- ===== src/Patches/Mirror.antt =====
-- The host's copy of a run follows the worker's (reporter.ts against workers.ts).
use brevi.Base.{
  ◌∷◌, ◌≡◌, ◌⊎◌, refl, ap, sym, ◌∙◌, inl, inr, arith, String, Bool, true, false, not, ◌&&◌, Option,
  none, some, List, [], if◌then◌else◌, get, put, get-put, contains, str_eq, eq_iff, Bool-cases,
  Option-cases,
}
use brevi.Patches.{
  run_patch_fields, sandbox_patch_fields, Js, undefined, null, value, or_null, from_null, read,
  spread, pick, json, patch_from_wire, merge_keys, RunState, RunPatch, to_run_patch, on_wire,
  reporter_update, merge_sandbox, apply_run_patch, SandboxPatch, pick_sandbox, json_sandbox,
  spread_sandbox, apply_sandbox,
}

module _ {ℓ} {V : Type ℓ} where
  abbrev value_of : Option (Js V) → Js V
  value_of none = undefined
  value_of (some v) = v

  -- The value of a key, or else what was there before.
  abbrev or_before : Option (Js V) → Option (Js V) → Option (Js V)
  or_before none before = before
  or_before (some v) before = some v

  -- No key stands twice, as in an object.
  abbrev pub distinct : List (String × Js V) → Bool
  distinct [] = true
  distinct ((k, v) ∷ m) = elim (get k m) [ none ↦ true | some w ↦ false ] && distinct m

  abbrev is_null : Js V → Bool
  is_null null = true
  is_null v = false

  -- No key holds null: the runs of both sides and the patches that a worker makes have none.
  abbrev pub no_nulls : List (String × Js V) → Bool
  no_nulls [] = true
  no_nulls ((k, v) ∷ m) = not (is_null v) && no_nulls m

  no_nulls-get :
      (key : String) (object : List (String × Js V)) (v : Js V)
      → no_nulls object ≡ true
      → get key object ≡ some v
      → is_null v ≡ false
  no_nulls-get key [] v h e = ground arith
  no_nulls-get key ((k, w) ∷ m) v h e = elim (Bool-cases (str_eq k key)) [
    | inl f ↦ let same : w ≡ v = ground (arith, e, f) in ground (arith, h, ap is_null same)
    | inr f ↦ no_nulls-get key m v (ground (arith, h)) (ground (arith, e, f))
  ]

  from-or_null : (v : Js V) → is_null v ≡ false → from_null (or_null v) ≡ v
  from-or_null undefined h = refl
  from-or_null null h = ground arith
  from-or_null (value x) h = refl

  get-spread :
      (key : String) (object patch : List (String × Js V))
      → distinct patch ≡ true
      → get key (spread object patch) ≡ or_before (get key patch) (get key object)
  unfolding spread
  get-spread key object [] h = refl
  get-spread key object ((j, v) ∷ patch) h =
      ground (arith, get-spread key (put j v object) patch, get-put key j v object, eq_iff j key)

  -- What a key of the patch has become on the way.
  abbrev arrived : Option (Js V) → Option (Js V)
  arrived none = none
  arrived (some v) = some (from_null (or_null v))

  json-or_null :
      (key : String) (v : Js V) (object : List (String × Js V))
      → json ((key, or_null v) ∷ object) ≡ (key, or_null v) ∷ json object
  unfolding json
  json-or_null key undefined object = refl
  json-or_null key null object = refl
  json-or_null key (value x) object = refl

  get-spread-wire :
      (key : String) (keys : List String) (object source : List (String × Js V))
      → get key (spread object (patch_from_wire (json (pick keys source)))) ≡ (
          if contains key keys
          then or_before (arrived (get key source)) (get key object)
          else get key object)
  unfolding spread pick json patch_from_wire
  get-spread-wire key [] object source = refl
  get-spread-wire key (k ∷ keys) object source = elim (Option-cases (get k source)) [
    | inl f ↦ ground (arith, f, eq_iff k key, get-spread-wire key keys object source)
    | inr (v, f) ↦ ground (
      arith,
      f,
      eq_iff k key,
      json-or_null k v (pick keys source),
      get-spread-wire key keys (put k (from_null (or_null v)) object) source,
      get-put key k (from_null (or_null v)) object,
    )
  ]

  read-json :
      (key k : String) (v : Js V) (object : List (String × Js V))
      → read key (json ((k, or_null v) ∷ object))
        ≡ (if str_eq k key then or_null v else read key (json object))
  read-json key k v object = ap (read key) (json-or_null k v object) ∙ ground (arith, eq_iff k key)

  -- A key of a patch as it arrives.
  abbrev sent : Option (Js V) → Js V
  sent none = undefined
  sent (some v) = or_null v

  read-json-pick :
      (key : String) (keys : List String) (source : List (String × Js V))
      → read key (json (pick keys source))
        ≡ (if contains key keys then sent (get key source) else undefined)
  unfolding pick json
  read-json-pick key [] source = refl
  read-json-pick key (k ∷ keys) source = elim (Option-cases (get k source)) [
    | inl f ↦ ground (arith, f, eq_iff k key, read-json-pick key keys source)
    | inr (v, f) ↦ ground (
      arith,
      f,
      eq_iff k key,
      read-json key k v (pick keys source),
      read-json-pick key keys source,
    )
  ]

  -- What the merge makes of a key.
  abbrev after_merge : Js V → Option (Js V) → Option (Js V)
  after_merge undefined before = before
  after_merge null before = some undefined
  after_merge (value x) before = some (value x)

  Js-cases : (v : Js V) → (v ≡ undefined) ⊎ ((v ≡ null) ⊎ ((x : V) × (v ≡ value x)))
  Js-cases undefined = inl refl
  Js-cases null = inr (inl refl)
  Js-cases (value x) = inr (inr (x, refl))

  get-merge_keys :
      (key : String) (keys : List String) (patch next : List (String × Js V))
      → get key (merge_keys keys patch next)
        ≡ (if contains key keys then after_merge (read key patch) (get key next) else get key next)
  unfolding merge_keys
  get-merge_keys key [] patch next = refl
  get-merge_keys key (k ∷ keys) patch next = elim (Js-cases (read k patch)) [
    | inl f ↦ ground (arith, f, eq_iff k key, get-merge_keys key keys patch next)
    | inr (inl f) ↦ ground (
      arith,
      f,
      eq_iff k key,
      get-merge_keys key keys patch (put k undefined next),
      get-put key k undefined next,
    )
    | inr (inr (x, f)) ↦ ground (
      arith,
      f,
      eq_iff k key,
      get-merge_keys key keys patch (put k (value x) next),
      get-put key k (value x) next,
    )
  ]

  read-or_before :
      (o h w : Option (Js V))
      → ((v : Js V) → o ≡ some v → is_null v ≡ false)
      → value_of h ≡ value_of w
      → value_of (or_before (arrived o) h) ≡ value_of (or_before o w)
  read-or_before none h w n same = same
  read-or_before (some v) h w n same = from-or_null v (n v refl)

  -- A field that may travel reads the same on both sides after an update, if it did before: what the
  -- worker sets, the host sets; what it clears, which travels as null, the host clears; and the rest
  -- stays. The patch has each key once, and no null.
  pub fields_mirrored :
      (worker_id : String) (patch : RunPatch V) (host worker : RunState V) (key : String)
      → distinct patch.fields ≡ true
      → no_nulls patch.fields ≡ true
      → contains key run_patch_fields ≡ true
      → read key host.fields ≡ read key worker.fields
      → read key (apply_run_patch worker_id (on_wire (to_run_patch patch)) host).fields
        ≡ read key (reporter_update patch worker).fields
  unfolding apply_run_patch to_run_patch reporter_update on_wire
  fields_mirrored worker_id patch host worker key d n c same =
      let arrives : get key
            (spread host.fields (patch_from_wire (json (pick run_patch_fields patch.fields))))
          ≡ or_before (arrived (get key patch.fields)) (get key host.fields) =
        get-spread-wire key run_patch_fields host.fields patch.fields ∙ rw c refl in
      ap value_of arrives
      ∙ read-or_before (get key patch.fields) (get key host.fields) (get key worker.fields)
          (λ v e. no_nulls-get key patch.fields v n e) same
      ∙ ap value_of (sym (get-spread key worker.fields patch.fields d))

-- A sandbox that a patch names has no key twice, and no null.
abbrev pub is_sandbox_patch : SandboxPatch → Bool
is_sandbox_patch (some (value sandbox)) = distinct sandbox && no_nulls sandbox
is_sandbox_patch (some null) = false
is_sandbox_patch (some undefined) = true
is_sandbox_patch none = true

-- The worker's identifier is none of the fields that a worker reports.
owner-apart :
    (key : String) → contains key sandbox_patch_fields ≡ true → str_eq "workerId" key ≡ false
owner-apart key c = elim (Bool-cases (str_eq "workerId" key)) [
  | inr e ↦ e
  | inl e ↦
      let same : "workerId" ≡ key = ground (arith, eq_iff "workerId" key) in
      let never : false ≡ true = ap (λ k. contains k sandbox_patch_fields) same ∙ c in ground arith
]

after_merge-or_before :
    (o h w : Option (Js String))
    → ((v : Js String) → o ≡ some v → is_null v ≡ false)
    → value_of h ≡ value_of w
    → value_of (after_merge (sent o) h) ≡ value_of (or_before o w)
after_merge-or_before none h w n same = same
after_merge-or_before (some undefined) h w n same = refl
after_merge-or_before (some null) h w n same = let never = n null refl in ground arith
after_merge-or_before (some (value x)) h w n same = refl

read-apply_sandbox :
    (worker_id : String) (named : SandboxPatch) (host worker : List (String × Js String))
    (key : String)
    → is_sandbox_patch named ≡ true
    → contains key sandbox_patch_fields ≡ true
    → read key host ≡ read key worker
    → read key (apply_sandbox worker_id (json_sandbox (pick_sandbox named)) host)
      ≡ read key (spread_sandbox worker named)
unfolding apply_sandbox pick_sandbox json_sandbox spread_sandbox merge_sandbox
read-apply_sandbox worker_id none host worker key d c same = same
read-apply_sandbox worker_id (some undefined) host worker key d c same =
    ground (arith, get-put key "workerId" (value worker_id) host, owner-apart key c)
read-apply_sandbox worker_id (some null) host worker key d c same = ground arith
read-apply_sandbox worker_id (some (value named)) host worker key d c same =
    let once : distinct named ≡ true = ground arith in
    let full : no_nulls named ≡ true = ground arith in
    let next : List (String × Js String) = put "workerId" (value worker_id) host in
    let sent_patch : List (String × Js String) = json (pick sandbox_patch_fields named) in
    let here : get key next ≡ get key host =
      get-put key "workerId" (value worker_id) host ∙ rw (owner-apart key c) refl in
    let arrives : read key sent_patch ≡ sent (get key named) =
      read-json-pick key sandbox_patch_fields named ∙ rw c refl in
    ap value_of (
      get-merge_keys key sandbox_patch_fields sent_patch next
      ∙ rw c (ap (λ v. after_merge v (get key next)) arrives)
      ∙ ap (after_merge (sent (get key named))) here)
    ∙ after_merge-or_before (get key named) (get key host) (get key worker)
        (λ v e. no_nulls-get key named v full e) same
    ∙ ap value_of (sym (get-spread key worker named once))

-- Whatever a patch that names the sandbox says, the host records the worker that holds the lease.
read-owner :
    (worker_id : String) (named : Js (List (String × Js String)))
    (current : List (String × Js String))
    → read "workerId" (apply_sandbox worker_id (some named) current) ≡ value worker_id
unfolding apply_sandbox merge_sandbox
read-owner worker_id undefined current =
    ground (arith, get-put "workerId" "workerId" (value worker_id) current)
read-owner worker_id null current =
    ground (arith, get-put "workerId" "workerId" (value worker_id) current)
read-owner worker_id (value named) current = ground (
  arith,
  get-merge_keys "workerId" sandbox_patch_fields named (put "workerId" (value worker_id) current),
  get-put "workerId" "workerId" (value worker_id) current,
)

module _ {ℓ} {V : Type ℓ} where
  -- A field of the sandbox that a worker reports reads the same on both sides after an update, if it
  -- did before: what the worker clears travels as null and is cleared. The patch has each key of the
  -- sandbox once, and no null.
  pub sandbox_mirrored :
      (worker_id : String) (patch : RunPatch V) (host worker : RunState V) (key : String)
      → is_sandbox_patch patch.sandbox ≡ true
      → contains key sandbox_patch_fields ≡ true
      → read key host.sandbox ≡ read key worker.sandbox
      → read key (apply_run_patch worker_id (on_wire (to_run_patch patch)) host).sandbox
        ≡ read key (reporter_update patch worker).sandbox
  unfolding apply_run_patch to_run_patch reporter_update on_wire
  sandbox_mirrored worker_id patch host worker key =
      read-apply_sandbox worker_id patch.sandbox host.sandbox worker.sandbox key

  -- Whatever a patch that names the sandbox says, the host then records the worker that holds the
  -- lease: a worker can neither drop nor reassign a sandbox.
  pub owner_is_lease_holder :
      (worker_id : String) (patch : RunPatch V) (run : RunState V)
      (named : Js (List (String × Js String)))
      → patch.sandbox ≡ some named
      → read "workerId" (apply_run_patch worker_id patch run).sandbox ≡ value worker_id
  unfolding apply_run_patch
  owner_is_lease_holder worker_id patch run named e =
      ap (λ s. read "workerId" (apply_sandbox worker_id s run.sandbox)) e
      ∙ read-owner worker_id named run.sandbox
