-- ===== src/Fleet/Pairing.antt =====
-- Pairing tokens and credentials (`mintPairingToken`, `redeemPairing`, `authenticate`, `revoke` of
-- fleet.ts): who gets in, and once only.
use brevi.Base.{
  ℕ, ◌+◌, ◌*◌, ◌<◌, ◌≡◌, ◌≢◌, refl, ◌∙◌, inl, inr, String, Bool, true, false, ◌&&◌, Option, none,
  some, List, [], ◌∷◌, arith, leb, if◌then◌else◌, Dict, get, put, delete, str_eq, eq_iff, get-put,
  get-delete, Option-cases,
}
use brevi.Fleet.{
  WorkerCapabilities, WorkerState, FleetStore, Platform, invalid_token, expired_token, done, failed,
  sweep_pairing_tokens, mint_pairing_token, redeem_pairing, authenticate, revoke, rename, set_state,
  touch, update_worker, ensure_local_worker, enrolled,
}

-- The sweep only removes, so what was not there is not there after it.
sweep-absent :
    (now : ℕ) (key : String) (tokens : Dict ℕ)
    → get key tokens ≡ none
    → get key (sweep_pairing_tokens now tokens) ≡ none
unfolding sweep_pairing_tokens
sweep-absent now key [] h = refl
sweep-absent now key ((j, e) ∷ rest) h = ground (arith, sweep-absent now key rest)

-- The operations on the store; the time, the drawn texts and the fate of the write are given.
pub data Operation : Type 0 where
  mints : (ttl_minutes now : ℕ) (token : String) → Operation
  redeems :
      (token : String) (name : Option String) (capabilities : WorkerCapabilities) (now : ℕ)
      (id credential : String) (write_succeeds : Bool)
      → Operation
  revokes : (id : String) (write_succeeds : Bool) → Operation
  renames : (id name : String) (write_succeeds : Bool) → Operation
  sets_state : (id : String) (state : WorkerState) (write_succeeds : Bool) → Operation
  touches :
      (id : String) (seen : Option ℕ) (capabilities : Option WorkerCapabilities)
      (write_succeeds : Bool)
      → Operation
  ensures : (name : String) (now : ℕ) (id credential : String) (write_succeeds : Bool) → Operation

module _ (platform : Platform) where
  open platform use {sha256_hex}

  unfoldable pub operate : FleetStore → Operation → FleetStore
  operate store (mints ttl now token) = (mint_pairing_token platform ttl now token store).0
  operate store (redeems token name capabilities now id credential ok) =
      (redeem_pairing platform token name capabilities now id credential ok store).0
  operate store (revokes id ok) = (revoke id ok store).0
  operate store (renames id name ok) = (rename id name ok store).0
  operate store (sets_state id state ok) = (set_state id state ok store).0
  operate store (touches id seen capabilities ok) = (touch id seen capabilities ok store).0
  operate store (ensures name now id credential ok) =
      (ensure_local_worker platform name now id credential ok store).0

  unfoldable pub operate_all : FleetStore → List Operation → FleetStore
  operate_all store [] = store
  operate_all store (o ∷ os) = operate_all (operate store o) os

  -- No operation mints a token with this digest.
  abbrev pub NeverMints : String → List Operation → Type 0
  NeverMints key [] = Unit
  NeverMints key (mints ttl now token ∷ os) =
      (str_eq (sha256_hex token) key ≡ false) × NeverMints key os
  NeverMints key (_ ∷ os) = NeverMints key os

  redeem_pairing-tokens :
      (token : String) (name : Option String) (capabilities : WorkerCapabilities) (now : ℕ)
      (id credential : String) (ok : Bool) (store : FleetStore)
      → (redeem_pairing platform token name capabilities now id credential ok
          store).0.pairing_tokens
        ≡ sweep_pairing_tokens now (delete (sha256_hex token) store.pairing_tokens)
  unfolding redeem_pairing
  redeem_pairing-tokens token name capabilities now id credential ok store = ground arith

  operate-absent :
      (key : String) (o : Operation) (os : List Operation) (store : FleetStore)
      → NeverMints key (o ∷ os)
      → get key store.pairing_tokens ≡ none
      → get key (operate store o).pairing_tokens ≡ none
  unfolding operate mint_pairing_token revoke rename set_state touch update_worker
      ensure_local_worker
  operate-absent key (mints ttl now token) os store n h =
      get-put key (sha256_hex token) (now + ttl * 60000)
        (sweep_pairing_tokens now store.pairing_tokens)
      ∙ rw n.0 (sweep-absent now key store.pairing_tokens h)
  operate-absent key (redeems token name capabilities now id credential ok) os store n h =
      rw (redeem_pairing-tokens token name capabilities now id credential ok store) (
        sweep-absent now key (delete (sha256_hex token) store.pairing_tokens)
          (ground (arith, get-delete key (sha256_hex token) store.pairing_tokens)))
  operate-absent key (revokes id ok) os store n h = ground arith
  operate-absent key (renames id name ok) os store n h = ground arith
  operate-absent key (sets_state id state ok) os store n h = ground arith
  operate-absent key (touches id seen capabilities ok) os store n h = ground arith
  operate-absent key (ensures name now id credential ok) os store n h = ground arith

  NeverMints-tail :
      (key : String) (o : Operation) (os : List Operation)
      → NeverMints key (o ∷ os)
      → NeverMints key os
  NeverMints-tail key (mints ttl now token) os n = n.1
  NeverMints-tail key (revokes id ok) os n = n
  NeverMints-tail key _ os n = n

  operate_all-absent :
      (key : String) (os : List Operation) (store : FleetStore)
      → NeverMints key os
      → get key store.pairing_tokens ≡ none
      → get key (operate_all store os).pairing_tokens ≡ none
  unfolding operate_all
  operate_all-absent key [] store n h = h
  operate_all-absent key (o ∷ os) store n h =
      operate_all-absent key os (operate store o) (NeverMints-tail key o os n)
        (operate-absent key o os store n h)

  redeem-unknown :
      (token : String) (name : Option String) (capabilities : WorkerCapabilities) (now : ℕ)
      (id credential : String) (ok : Bool) (store : FleetStore)
      → get (sha256_hex token) store.pairing_tokens ≡ none
      → (redeem_pairing platform token name capabilities now id credential ok store).1
        ≡ done (some invalid_token)
  unfolding redeem_pairing
  redeem-unknown token name capabilities now id credential ok store h = rw (h, redeem_pairing) refl

  -- A token that has been presented once, with whatever outcome, is refused as invalid ever after,
  -- whatever else is done to the store, as long as no token with the same digest is minted.
  pub pairing_token_single_use :
      (token : String) (name name' : Option String)
      (capabilities capabilities' : WorkerCapabilities) (now now' : ℕ)
      (id id' credential credential' : String) (ok ok' : Bool) (store : FleetStore)
      (os : List Operation)
      → NeverMints (sha256_hex token) os
      → let once = (redeem_pairing platform token name capabilities now id credential ok store).0 in
        let later = operate_all once os in
        (redeem_pairing platform token name' capabilities' now' id' credential' ok' later).1
        ≡ done (some invalid_token)
  pairing_token_single_use token name name' capabilities capabilities' now now' id id' credential
        credential' ok ok' store os n =
      let once = (redeem_pairing platform token name capabilities now id credential ok store).0 in
      let spent : get (sha256_hex token) once.pairing_tokens ≡ none =
        rw (redeem_pairing-tokens token name capabilities now id credential ok store) (
          sweep-absent now (sha256_hex token) (delete (sha256_hex token) store.pairing_tokens) (
            ground (
              arith,
              get-delete (sha256_hex token) (sha256_hex token) store.pairing_tokens,
              eq_iff (sha256_hex token) (sha256_hex token),
            ))) in
      redeem-unknown token name' capabilities' now' id' credential' ok' (operate_all once os)
        (operate_all-absent (sha256_hex token) os once n spent)

  -- A token redeemed right after it was minted: refused as expired from its deadline on, and
  -- otherwise accepted exactly when the record reaches the disk.
  pub minted_token_outcome :
      (token : String) (name : Option String) (capabilities : WorkerCapabilities) (ttl t now : ℕ)
      (id credential : String) (ok : Bool) (store : FleetStore)
      → (redeem_pairing platform token name capabilities now id credential ok
          (mint_pairing_token platform ttl t token store).0).1
        ≡ (if leb (t + ttl * 60000) now
            then done (some expired_token)
            else if ok
            then done none
            else failed)
  unfolding redeem_pairing mint_pairing_token
  minted_token_outcome token name capabilities ttl t now id credential ok store =
      let key = sha256_hex token in
      let swept = sweep_pairing_tokens t store.pairing_tokens in
      let found : get key (put key (t + ttl * 60000) swept) ≡ some (t + ttl * 60000) =
        ground (arith, get-put key key (t + ttl * 60000) swept, eq_iff key key) in
      rw (found, redeem_pairing) (ground arith)

  -- A token that is known and not past its deadline enrolls the worker, if the record reaches the
  -- disk: its credential authenticates it with the record that is on disk, and a secret with another
  -- digest does not.
  pub redeemed_credential_authenticates :
      (token : String) (name : Option String) (capabilities : WorkerCapabilities)
      (now expires_at : ℕ) (id credential other : String) (store : FleetStore)
      → get (sha256_hex token) store.pairing_tokens ≡ some expires_at
      → now < expires_at
      → str_eq (sha256_hex credential) (sha256_hex other) ≡ false
      → let after =
          (redeem_pairing platform token name capabilities now id credential true store).0 in
        (authenticate platform id credential after ≡ get id after.on_disk)
        × (authenticate platform id credential after ≢ none)
        × (authenticate platform id other after ≡ none)
  unfolding redeem_pairing authenticate
  redeemed_credential_authenticates token name capabilities now expires_at id credential other store
        known early differs =
      let key = sha256_hex token in
      let swept = record store {
        pairing_tokens = sweep_pairing_tokens now (delete key store.pairing_tokens);
      } in
      let worker = enrolled platform id credential now name capabilities swept in
      let stored : get id (put id worker store.workers) ≡ some worker =
        ground (arith, get-put id id worker store.workers, eq_iff id id) in
      let timely : leb expires_at now ≡ false = ground arith in
      let same : str_eq (sha256_hex credential) (sha256_hex credential) ≡ true =
        (eq_iff (sha256_hex credential) (sha256_hex credential)).1 refl in
      rw (known, timely, redeem_pairing)
        (rw (stored, same, differs, authenticate) (refl, (λ e. cc), refl))

  -- Whether a secret authenticates a worker after a revocation: as before, except that the revoked
  -- worker is refused once the write succeeded.
  pub authenticate-revoke :
      (id j secret : String) (ok : Bool) (store : FleetStore)
      → authenticate platform j secret (revoke id ok store).0
        ≡ (if ok && str_eq id j then none else authenticate platform j secret store)
  unfolding revoke authenticate
  authenticate-revoke id j secret ok store = elim (Option-cases (get id store.workers)) [
    | inl e ↦ rw (e, revoke) (ground (arith, eq_iff id j))
    | inr (w, e) ↦
        rw (e, revoke)
          (ground (
            arith,
            get-delete j id store.workers,
            get-put j id w (delete id store.workers),
            eq_iff id j,
          ))
  ]
