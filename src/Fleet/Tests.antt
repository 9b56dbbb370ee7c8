-- ===== src/Fleet/Tests.antt =====
-- The theorems on the fleet at a small store. The digest of these examples is the text itself, and a
-- number is printed as that many strokes.
use brevi.Base.{
  ℕ, zero, suc, ◌+◌, ◌<◌, ◌≡◌, ◌≢◌, refl, ap, inl, inr, arith, String, true, false, ◌&&◌, none,
  some, List, [], ◌∷◌, if◌then◌else◌, get, str_eq, eq_iff, Bool-cases,
}
use brevi.Fleet.{
  FleetStore, Platform, WorkerRecord, WorkerCapabilities, active, invalid_token, done,
  redeem_pairing, authenticate, revoke, name_for, name_taken,
}
use brevi.Fleet.Pairing.{
  Operation, mints, revokes, operate_all, pairing_token_single_use,
  redeemed_credential_authenticates, authenticate-revoke,
}
use brevi.Fleet.Names.{name_for_is_free, char_count}
use brevi.Fleet.Writes.{
  FleetWrites, redeem_call, touch_call, settled_apart, undone_enrolment_is_written,
}

-- The text after that many strokes.
abbrev stroked : ℕ → String → String
stroked zero s = s
stroked (suc n) s = String.◌∷◌ "|" (stroked n s)

abbrev platform : Platform
platform = record {
  sha256_hex = λ s. s;
  numbered_name = λ clean n. stroked n clean;
  worker_name = λ n. stroked n "";
}

abbrev capabilities : WorkerCapabilities
capabilities = record { provider = "bwrap"; agent_commands = "claude" ∷ []; max_concurrency = 2 }

abbrev box : WorkerRecord
box = record {
  id = "w1";
  name = "box";
  secret_hash = "secret";
  state = active;
  enrolled_at = 0;
  last_seen_at = none;
  capabilities = some capabilities;
  local = false;
}

abbrev store : FleetStore
store = record {
  workers = ("w1", box) ∷ [];
  pairing_tokens = ("token", 600) ∷ [];
  on_disk = ("w1", box) ∷ [];
}

abbrev meanwhile : List Operation
meanwhile = mints 1 10 "other" ∷ revokes "w1" true ∷ []

pairing_token_single_use_example :
    let once =
      (redeem_pairing platform "token" (some "new") capabilities 5 "w2" "key" true store).0 in
    let later = operate_all platform once meanwhile in
    (redeem_pairing platform "token" none capabilities 20 "w3" "key3" true later).1
    ≡ done (some invalid_token)
pairing_token_single_use_example =
    pairing_token_single_use platform "token" (some "new") none capabilities capabilities 5 20 "w2"
      "w3" "key" "key3" true true store meanwhile (refl, tt)

redeemed_credential_authenticates_example :
    let after = (redeem_pairing platform "token" none capabilities 5 "w2" "key" true store).0 in
    (authenticate platform "w2" "key" after ≡ get "w2" after.on_disk)
    × (authenticate platform "w2" "key" after ≢ none)
    × (authenticate platform "w2" "wrong" after ≡ none)
redeemed_credential_authenticates_example =
    redeemed_credential_authenticates platform "token" none capabilities 5 600 "w2" "key" "wrong"
      store refl (omega arith) refl

authenticate-revoke_example :
    authenticate platform "w1" "secret" (revoke "w1" true store).0
    ≡ (if true && str_eq "w1" "w1" then none else authenticate platform "w1" "secret" store)
authenticate-revoke_example = authenticate-revoke platform "w1" "w1" "secret" true store

char_count-stroked : (n : ℕ) (s : String) → char_count (stroked n s) ≡ n + char_count s
char_count-stroked zero s = omega arith
char_count-stroked (suc n) s = omega (arith, char_count-stroked n s)

numbered-distinct :
    (clean : String) (m n : ℕ) → m < n → str_eq (stroked n clean) (stroked m clean) ≡ false
numbered-distinct clean m n h = elim (Bool-cases (str_eq (stroked n clean) (stroked m clean))) [
  | inr e ↦ e
  | inl e ↦
      let same : stroked n clean ≡ stroked m clean =
        ground (arith, eq_iff (stroked n clean) (stroked m clean)) in
      let counts = ap char_count same in
      absurd (omega (arith, counts, char_count-stroked n clean, char_count-stroked m clean))
]

name_for_is_free_example : name_taken (name_for platform (some "box") store) store.workers ≡ false
name_for_is_free_example =
    name_for_is_free platform (some "box") store numbered-distinct (numbered-distinct "")

undone_enrolment_is_written_example :
    let fleet : FleetWrites = record { store = store; queued = [] } in
    let called = redeem_call platform "token" none capabilities 5 "w2" "key" fleet in
    let end = settled_apart "w2" (touch_call "w1" (some 6) none called) in
    (get "w2" end.store.workers ≡ none)
    × ((worker : WorkerRecord) × (get "w2" end.store.on_disk ≡ some worker)
        × (worker.secret_hash ≡ "key"))
undone_enrolment_is_written_example =
    undone_enrolment_is_written platform "token" none capabilities 5 "w2" "key" "w1" (some 6) 600
      box store refl refl refl refl
