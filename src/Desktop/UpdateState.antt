-- ===== src/Desktop/UpdateState.antt =====
-- apps/desktop/src/main/update-state.ts: the bookkeeping of the auto-updater. Times are milliseconds
-- (ISO texts in the source, which nothing reads back); the file is the value that `JSON.parse` gives.
pub mod Quarantine
pub mod RoundTrip
use brevi.Base.{
  ℕ, ◌+◌, String, Bool, true, false, ◌&&◌, Option, none, some, List, [], ◌∷◌, ◌++◌, leb,
  if◌then◌else◌, str_eq, contains,
}
use brevi.Desktop.Json.{
  Json, null, bool, num, str, arr, obj, Items, nil, cons, Fields, end, field, get_field,
}

abbrev pub max_install_attempts : ℕ
max_install_attempts = 2

pub record PendingInstall : Type 0 where
  pub version : String
  pub from : String
  pub attempts : ℕ
  pub started_at : String

pub record DesktopUpdateState : Type 0 where
  pub pending : Option PendingInstall
  pub quarantined : List String

abbrev pub empty_state : DesktopUpdateState
empty_state = record { pending = none; quarantined = [] }

-- The four fields of a pending install, each of its type, or nothing.
unfoldable pub pending_of_fields : Fields → Option PendingInstall
unfolding get_field
pending_of_fields fs = elim (get_field "version" fs) [
  | some (str version) ↦ elim (get_field "from" fs) [
    | some (str from) ↦ elim (get_field "attempts" fs) [
      | some (num attempts) ↦ elim (get_field "startedAt" fs) [
        | some (str started_at) ↦ some (record {
          version = version;
          from = from;
          attempts = attempts;
          started_at = started_at;
        })
        | _ ↦ none
      ]
      | _ ↦ none
    ]
    | _ ↦ none
  ]
  | _ ↦ none
]

-- `isPendingInstall`, with the value it admits.
unfoldable pub pending_install : Option Json → Option PendingInstall
unfolding pending_of_fields
pending_install (some (obj fs)) = pending_of_fields fs
pending_install _ = none

-- `Array.isArray(quarantined) && quarantined.every(string)`, with the texts.
unfoldable pub strings : Items → Option (List String)
strings nil = some []
strings (cons (str s) rest) = elim (strings rest) [ none ↦ none | some ss ↦ some (s ∷ ss) ]
strings (cons _ rest) = none

unfoldable pub quarantined_of : Option Json → List String
unfolding strings
quarantined_of (some (arr items)) = elim (strings items) [ none ↦ [] | some ss ↦ ss ]
quarantined_of _ = []

-- `none` is a file that cannot be read or parsed.
unfoldable pub read_update_state : Option Json → DesktopUpdateState
unfolding pending_install quarantined_of get_field
read_update_state (some (obj fs)) = record {
  pending = pending_install (get_field "pending" fs);
  quarantined = quarantined_of (get_field "quarantined" fs);
}
read_update_state _ = empty_state

-- The value that `writeUpdateState` prints: an absent `pending` is left out.
unfoldable pub items_of : List String → Items
items_of [] = nil
items_of (s ∷ ss) = cons (str s) (items_of ss)

unfoldable pub written : DesktopUpdateState → Json
unfolding items_of
written state =
    let rest = field "quarantined" (arr (items_of state.quarantined)) end in
    elim state.pending [
      | none ↦ obj rest
      | some p ↦ obj (
          field "pending"
            (obj (
              field "version" (str p.version) (
                field "from" (str p.from)
                  (field "attempts" (num p.attempts) (field "startedAt" (str p.started_at) end)))))
            rest)
    ]

unfoldable pub mark_install_started :
    DesktopUpdateState → String → String → String → DesktopUpdateState
mark_install_started state from to now =
    let fresh : PendingInstall = record {
      version = to;
      from = from;
      attempts = 1;
      started_at = now;
    } in
    record state {
      pending = elim state.pending [
        | none ↦ some fresh
        | some existing ↦
            if str_eq existing.version to
            then some (record existing { attempts = existing.attempts + 1; started_at = now })
            else some fresh
      ];
    }

-- The new state, and the version that failed, if one did.
unfoldable pub reconcile : DesktopUpdateState → String → DesktopUpdateState × Option String
reconcile state running_version = elim state.pending [
  | none ↦ (state, none)
  | some pending ↦
      if str_eq pending.version running_version
      then (record state { pending = none }, none)
      else if leb max_install_attempts pending.attempts
      then (
        record {
          pending = none;
          quarantined =
              if contains pending.version state.quarantined
              then state.quarantined
              else state.quarantined ++ pending.version ∷ [];
        },
        some pending.version,
      )
      else (state, some pending.version)
]

unfoldable pub is_quarantined : DesktopUpdateState → String → Bool
is_quarantined state version = contains version state.quarantined
