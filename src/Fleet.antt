-- ===== src/Fleet.antt =====
-- packages/orchestrator/src/fleet.ts: the enrolled workers and the pairing tokens. What the code
-- takes from outside is an argument: the time in milliseconds, the random token, credential and id
-- that a call draws, and whether the write of the file succeeds. A call and its write are one step
-- here; Writes has them apart. `sha256Hex` and the rest of the
-- platform are the parameter `Platform`. The file holds the workers as the last write that
-- succeeded left them.
pub mod Pairing
pub mod Names
pub mod Writes
mod Tests
use Prim.Native.Char.{Char, code}
use brevi.Base.{
  ◌==◌, ◌||◌, ℕ, zero, suc, ◌+◌, ◌*◌, String, Bool, true, false, not, ◌&&◌, Option, none, some,
  List, [], ◌∷◌, map, leb, ltb, if◌then◌else◌, Dict, get, put, delete, str_eq, length,
}

-- Control characters, which the regular expression strips, and what `trim` takes off.
unfoldable pub is_control : Char → Bool
is_control c = ltb (code c) 0x20 || code c == 0x7f

unfoldable pub is_space : Char → Bool
is_space c =
    (leb 9 (code c) && leb (code c) 13)
    || code c == 0x20
    || code c == 0xa0
    || code c == 0x1680
    || (leb 0x2000 (code c) && leb (code c) 0x200a)
    || code c == 0x2028
    || code c == 0x2029
    || code c == 0x202f
    || code c == 0x205f
    || code c == 0x3000
    || code c == 0xfeff

unfoldable pub strip_control : String → String
unfolding is_control
strip_control String.[] = ""
strip_control (String.◌∷◌ c s) =
    let rest = strip_control s in if is_control c then rest else String.◌∷◌ c rest

unfoldable pub trim_start : String → String
unfolding is_space
trim_start String.[] = ""
trim_start (String.◌∷◌ c s) = if is_space c then trim_start s else String.◌∷◌ c s

unfoldable pub all_space : String → Bool
unfolding is_space
all_space String.[] = true
all_space (String.◌∷◌ c s) = is_space c && all_space s

unfoldable pub trim_end : String → String
unfolding all_space
trim_end String.[] = ""
trim_end (String.◌∷◌ c s) = if is_space c && all_space s then "" else String.◌∷◌ c (trim_end s)

-- `slice(0, n)` of a text of characters that are one UTF-16 unit each.
unfoldable pub slice_to : ℕ → String → String
slice_to zero s = ""
slice_to (suc n) String.[] = ""
slice_to (suc n) (String.◌∷◌ c s) = String.◌∷◌ c (slice_to n s)

abbrev pub max_worker_name_chars : ℕ
max_worker_name_chars = 60

unfoldable pub sanitize_worker_name : String → String
unfolding strip_control trim_start trim_end slice_to
sanitize_worker_name raw =
    slice_to max_worker_name_chars (trim_end (trim_start (strip_control raw)))

pub data WorkerState : Type 0 where
  active draining : WorkerState

pub record WorkerCapabilities : Type 0 where
  pub provider : String
  pub agent_commands : List String
  pub max_concurrency : ℕ

pub record WorkerRecord : Type 0 where
  pub id : String
  pub name : String
  pub secret_hash : String
  pub state : WorkerState
  pub enrolled_at : ℕ
  pub last_seen_at : Option ℕ
  pub capabilities : Option WorkerCapabilities
  pub local : Bool

pub record FleetStore : Type 0 where
  pub workers : Dict WorkerRecord
  pub pairing_tokens : Dict ℕ
  pub on_disk : Dict WorkerRecord

-- The digest of node:crypto, and `${clean} (${n})` and `worker-${n}`, the texts built from a number.
pub record Platform : Type 0 where
  pub sha256_hex : String → String
  pub numbered_name : String → ℕ → String
  pub worker_name : ℕ → String

pub data DenyReason : Type 0 where
  invalid_token expired_token : DenyReason

-- A call that fails to persist rejects; the store is given beside it.
pub data Outcome {ℓ} (A : Type ℓ) : Type ℓ where
  done : A → Outcome A
  failed : Outcome A

unfoldable pub sweep_pairing_tokens : ℕ → Dict ℕ → Dict ℕ
sweep_pairing_tokens now [] = []
sweep_pairing_tokens now ((key, expires_at) ∷ rest) =
    let swept = sweep_pairing_tokens now rest in
    if leb expires_at now then swept else (key, expires_at) ∷ swept

abbrev pub name_taken : String → Dict WorkerRecord → Bool
name_taken name [] = false
name_taken name ((_, w) ∷ rest) = if str_eq w.name name then true else name_taken name rest

-- `while (taken(candidate n)) n += 1`, with fuel.
unfoldable pub first_free : ℕ → (ℕ → String) → ℕ → Dict WorkerRecord → ℕ
first_free zero candidate n workers = n
first_free (suc fuel) candidate n workers = elim (name_taken (candidate n) workers) [
  | true ↦ first_free fuel candidate (n + 1) workers
  | false ↦ n
]

module _ (platform : Platform) where
  open platform use {sha256_hex, numbered_name, worker_name}

  -- As many rounds as there are workers, and one more: distinct candidates cannot all be taken.
  unfoldable pub name_for : Option String → FleetStore → String
  unfolding first_free sanitize_worker_name
  name_for requested store =
      let raw : String = elim requested [ none ↦ "" | some r ↦ r ] in
      let clean = sanitize_worker_name raw in
      let size = length store.workers in
      if str_eq clean ""
      then worker_name (first_free (size + 1) worker_name (size + 1) store.workers)
      else if name_taken clean store.workers
      then numbered_name clean (first_free (size + 1) (numbered_name clean) 2 store.workers)
      else clean

  unfoldable pub mint_pairing_token :
      (ttl_minutes now : ℕ) (token : String) → FleetStore → FleetStore × ℕ
  unfolding sweep_pairing_tokens
  mint_pairing_token ttl_minutes now token store =
      let expires_at = now + ttl_minutes * 60000 in
      (
        record store {
          pairing_tokens =
              put (sha256_hex token) expires_at (sweep_pairing_tokens now store.pairing_tokens);
        },
        expires_at,
      )

  abbrev pub enrolled :
      String → String → ℕ → Option String → WorkerCapabilities → FleetStore → WorkerRecord
  enrolled id credential now name capabilities store = record {
    id = id;
    name = name_for name store;
    secret_hash = sha256_hex credential;
    state = active;
    enrolled_at = now;
    last_seen_at = some now;
    capabilities = some capabilities;
    local = false;
  }

  -- Look the token up, spend it, sweep, and enroll; a failed write takes the record out again.
  unfoldable pub redeem_pairing :
      (token : String) (name : Option String) (capabilities : WorkerCapabilities) (now : ℕ)
      (id credential : String) (write_succeeds : Bool)
      → FleetStore
      → FleetStore × Outcome (Option DenyReason)
  unfolding sweep_pairing_tokens
  redeem_pairing token name capabilities now id credential write_succeeds store =
      let key = sha256_hex token in
      let swept = record store {
        pairing_tokens = sweep_pairing_tokens now (delete key store.pairing_tokens);
      } in
      elim (get key store.pairing_tokens) [
        | none ↦ (swept, done (some invalid_token))
        | some expires_at ↦
            if leb expires_at now
            then (swept, done (some expired_token))
            else (let worker = enrolled id credential now name capabilities swept in
                let workers = put id worker swept.workers in
                if write_succeeds
                then (record swept { workers = workers; on_disk = workers }, done none)
                else (record swept { workers = delete id workers }, failed))
      ]

  -- The comparison of the two digests is constant-time, and so an equality.
  unfoldable pub authenticate : String → String → FleetStore → Option WorkerRecord
  authenticate worker_id secret store = elim (get worker_id store.workers) [
    | none ↦ none
    | some worker ↦ if str_eq worker.secret_hash (sha256_hex secret) then some worker else none
  ]

unfoldable pub local_worker : Dict WorkerRecord → Option WorkerRecord
local_worker [] = none
local_worker ((_, w) ∷ rest) = if w.local then some w else local_worker rest

-- A change of one record in place, persisted; `null` when the worker is unknown. The source leaves
-- the change in memory when the write fails.
unfoldable pub update_worker :
    (WorkerRecord → WorkerRecord) → String → Bool → FleetStore → FleetStore × Outcome Bool
update_worker change id write_succeeds store = elim (get id store.workers) [
  | none ↦ (store, done false)
  | some worker ↦
      let workers = put id (change worker) store.workers in
      if write_succeeds
      then (record store { workers = workers; on_disk = workers }, done true)
      else (record store { workers = workers }, failed)
]

unfoldable pub rename : String → String → Bool → FleetStore → FleetStore × Outcome Bool
unfolding update_worker
rename id name = update_worker (λ w. record w { name = name }) id

unfoldable pub set_state : String → WorkerState → Bool → FleetStore → FleetStore × Outcome Bool
unfolding update_worker
set_state id state = update_worker (λ w. record w { state = state }) id

abbrev pub refreshed_by :
    (last_seen_at : Option ℕ) → Option WorkerCapabilities → WorkerRecord → WorkerRecord
refreshed_by last_seen_at capabilities w = record w {
  last_seen_at = elim last_seen_at [ none ↦ w.last_seen_at | some t ↦ some t ];
  capabilities = elim capabilities [ none ↦ w.capabilities | some c ↦ some c ];
}

unfoldable pub touch :
    String → Option ℕ → Option WorkerCapabilities → Bool → FleetStore → FleetStore × Outcome Bool
unfolding update_worker
touch id last_seen_at capabilities = update_worker (refreshed_by last_seen_at capabilities) id

-- Drop the record; a failed write puts it back, at the end of the map.
unfoldable pub revoke : String → Bool → FleetStore → FleetStore × Outcome Bool
revoke id write_succeeds store = elim (get id store.workers) [
  | none ↦ (store, done false)
  | some worker ↦
      let workers = delete id store.workers in
      if write_succeeds
      then (record store { workers = workers; on_disk = workers }, done true)
      else (record store { workers = put id worker workers }, failed)
]

module _ (platform : Platform) where
  open platform use {sha256_hex}

  -- The host's own worker: its record is kept and its credential drawn anew, or it is created.
  unfoldable pub ensure_local_worker :
      (name : String) (now : ℕ) (id credential : String) (write_succeeds : Bool)
      → FleetStore
      → FleetStore × Outcome String
  unfolding local_worker sanitize_worker_name
  ensure_local_worker name now id credential write_succeeds store =
      elim (local_worker store.workers) [
        | some existing ↦
            let clean = sanitize_worker_name name in
            let refreshed = record existing {
              secret_hash = sha256_hex credential;
              name = if str_eq clean "" then existing.name else clean;
            } in
            let workers = put existing.id refreshed store.workers in
            if write_succeeds
            then (record store { workers = workers; on_disk = workers }, done existing.id)
            else (store, failed)
        | none ↦
            let worker : WorkerRecord = record {
              id = id;
              name = name_for platform (some name) store;
              secret_hash = sha256_hex credential;
              state = active;
              enrolled_at = now;
              last_seen_at = none;
              capabilities = none;
              local = true;
            } in
            let workers = put id worker store.workers in
            if write_succeeds
            then (record store { workers = workers; on_disk = workers }, done id)
            else (record store { workers = delete id workers }, failed)
      ]
