-- ===== src/Delivery/Lost.antt =====
-- A number that the host still waits for and the worker neither holds nor declares lost: the run's
-- completion is held back for good (connection.ts against workers.ts).
use brevi.Base.{
  ℕ, ◌+◌, ◌≤◌, ◌<◌, ◌≡◌, refl, ◌∙◌, inl, inr, Bool, true, false, ◌&&◌, some, List, [], ◌∷◌, map,
  arith, leb, ltb, keep, elem, Bool-cases,
}
use brevi.Watermark.{Lease, contiguous_below}
use brevi.Watermark.Exact.{
  accounted, mark_applied-accounted, skip_lease_gap-accounted, admit_frame-accounted,
  write_failed-accounted,
}
use brevi.Replay.{
  Frame, LeaseBuffer, set_delivered, on_lease_ack, on_close, on_connect, flush_lease,
}
use brevi.Delivery.Flight.{arrival-in_flight, failure-in_flight, landing-in_flight, gap-in_flight}
use brevi.Delivery.{
  Link, Exchange, sends, lands, fails, arrives, acks, gives_up, restarts, reconnects, holds,
  restored_lease, exchange, run, departs, can_arrive, can_land,
}

-- The worker sends nothing new: its run is over.
abbrev pub IsQuiet : List Exchange → Type 0
IsQuiet [] = Unit
IsQuiet (sends t ∷ xs) = ⊥
IsQuiet (_ ∷ xs) = IsQuiet xs

-- `m` is missing: not counted by the host, not held, above what was declared lost, and neither being
-- written nor on its way.
pub record IsMissing (m : ℕ) (l : Link) : Type 0 where
  pub uncounted : accounted l.host m ≡ false
  pub unheld : holds m l.worker.frames ≡ false
  pub undeclared : l.worker.gap_through < m
  pub unwritten : elem m l.host.in_flight_seqs ≡ false
  pub unsent : elem m l.in_transit ≡ false

holds-map : (b : Bool) (s : ℕ) (fs : List Frame) → holds s (map (set_delivered b) fs) ≡ holds s fs
holds-map b s [] = refl
holds-map b s (f ∷ fs) = ground (arith, holds-map b s fs)

holds-keep :
    (seq s : ℕ) (fs : List Frame)
    → holds s (keep (λ f. ltb seq f.seq) fs) ≡ (ltb seq s && holds s fs)
holds-keep seq s [] = ground arith
holds-keep seq s (f ∷ fs) = ground (arith, holds-keep seq s fs)

on_lease_ack-holds :
    (online : Bool) (k e s : ℕ) (b : LeaseBuffer)
    → holds s (on_lease_ack online k e b).0.frames ≡ (ltb k s && holds s b.frames)
unfolding on_lease_ack flush_lease
on_lease_ack-holds online k e s b = ground (
  arith,
  holds-keep k s b.frames,
  holds-map false s (keep (λ f. ltb k f.seq) b.frames),
  holds-map true s (map (set_delivered false) (keep (λ f. ltb k f.seq) b.frames)),
  holds-map true s (keep (λ f. ltb k f.seq) b.frames),
)

on_lease_ack-gap :
    (online : Bool) (k e : ℕ) (b : LeaseBuffer)
    → (on_lease_ack online k e b).0.gap_through ≡ b.gap_through
unfolding on_lease_ack flush_lease
on_lease_ack-gap online k e b = ground arith

lands-IsMissing :
    (limit m t : ℕ) (l : Link) → IsMissing m l → IsMissing m (exchange limit l (lands t))
unfolding exchange
lands-IsMissing limit m t l v = elim (Bool-cases (can_land t l)) [
  | inr e ↦ rw (e, exchange) v
  | inl e ↦
      let w = v.unwritten in
      rw (e, exchange)
        (record {
          uncounted =
              let u = v.uncounted in
              let h = v.unheld in ground (arith, mark_applied-accounted l.host t m);
          unheld = v.unheld;
          undeclared = v.undeclared;
          unwritten = ground (arith, landing-in_flight l.host t m);
          unsent = v.unsent;
        })
]

arrives-IsMissing :
    (limit m t : ℕ) (l : Link) → IsMissing m l → IsMissing m (exchange limit l (arrives t))
unfolding exchange
arrives-IsMissing limit m t l v = elim (Bool-cases (can_arrive t l)) [
  | inr e ↦ rw (e, exchange) v
  | inl e ↦
      let w = v.unwritten in
      let h = v.unheld in
      let n = v.unsent in
      rw (e, exchange)
        (record {
          uncounted = admit_frame-accounted l.host t m ∙ v.uncounted;
          unheld = v.unheld;
          undeclared = v.undeclared;
          unwritten = ground (arith, arrival-in_flight l.host t m);
          unsent = v.unsent;
        })
]

exchange-IsMissing :
    (limit m : ℕ) (l : Link) (x : Exchange)
    → IsQuiet (x ∷ [])
    → IsMissing m l
    → IsMissing m (exchange limit l x)
unfolding exchange on_close on_connect
exchange-IsMissing limit m l (sends t) q v = absurd q
exchange-IsMissing limit m l (lands t) q v = lands-IsMissing limit m t l v
exchange-IsMissing limit m l (arrives t) q v = arrives-IsMissing limit m t l v
exchange-IsMissing limit m l (departs t) q v = elim (Bool-cases (holds t l.worker.frames)) [
  | inl e ↦
      let h = v.unheld in
      let n = v.unsent in
      rw (e, exchange)
        (record {
          uncounted = v.uncounted;
          unheld = v.unheld;
          undeclared = v.undeclared;
          unwritten = v.unwritten;
          unsent = ground arith;
        })
  | inr e ↦ rw (e, exchange) v
]
exchange-IsMissing limit m l (fails t) q v = record {
  uncounted = write_failed-accounted l.host t m ∙ v.uncounted;
  unheld = v.unheld;
  undeclared = v.undeclared;
  unwritten = let w = v.unwritten in ground (arith, failure-in_flight l.host t m);
  unsent = v.unsent;
}
exchange-IsMissing limit m l (acks k e) q v = elim (Bool-cases (leb k l.host.applied_seq)) [
  | inl c ↦
      rw (c, exchange)
        (record {
          uncounted = v.uncounted;
          unheld = let u = v.unheld in ground (arith, on_lease_ack-holds true k e m l.worker);
          undeclared = let u = v.undeclared in omega (arith, on_lease_ack-gap true k e l.worker);
          unwritten = v.unwritten;
          unsent = v.unsent;
        })
  | inr c ↦ rw (c, exchange) v
]
exchange-IsMissing limit m l (gives_up k) q v = elim (Bool-cases (leb k l.worker.gap_through)) [
  | inl c ↦
      rw (c, exchange)
        (record {
          uncounted =
              let u = v.uncounted in
              let d = v.undeclared in ground (arith, skip_lease_gap-accounted l.host k m);
          unheld = v.unheld;
          undeclared = v.undeclared;
          unwritten = gap-in_flight l.host k m ∙ v.unwritten;
          unsent = v.unsent;
        })
  | inr c ↦ rw (c, exchange) v
]
exchange-IsMissing limit m l (restarts p) q v = elim (Bool-cases (leb p l.host.applied_seq)) [
  | inl c ↦
      rw (c, exchange)
        (record {
          uncounted = let u = v.uncounted in ground arith;
          unheld = v.unheld;
          undeclared = v.undeclared;
          unwritten = refl;
          unsent = refl;
        })
  | inr c ↦ rw (c, exchange) v
]
exchange-IsMissing limit m l reconnects q v = record {
  uncounted = v.uncounted;
  unheld = holds-map false m l.worker.frames ∙ v.unheld;
  undeclared = v.undeclared;
  unwritten = v.unwritten;
  unsent = v.unsent;
}

IsQuiet-head : (x : Exchange) (xs : List Exchange) → IsQuiet (x ∷ xs) → IsQuiet (x ∷ [])
IsQuiet-head (sends t) xs q = q
IsQuiet-head _ xs q = tt

IsQuiet-tail : (x : Exchange) (xs : List Exchange) → IsQuiet (x ∷ xs) → IsQuiet xs
IsQuiet-tail (sends t) xs q = absurd q
IsQuiet-tail (lands t) xs q = q
IsQuiet-tail _ xs q = q

run-IsMissing :
    (limit m : ℕ) (l : Link) (xs : List Exchange)
    → IsQuiet xs
    → IsMissing m l
    → IsMissing m (run limit l xs)
unfolding run
run-IsMissing limit m l [] q v = v
run-IsMissing limit m l (x ∷ xs) q v =
    run-IsMissing limit m (exchange limit l x) xs (IsQuiet-tail x xs q)
      (exchange-IsMissing limit m l x (IsQuiet-head x xs q) v)

-- A frame is missing, and the worker sends nothing new. Then, whatever is delivered, acknowledged,
-- declared, reconnected or restarted, no completion above the missing frame may be applied.
pub missing_holds_completion :
    (limit m seq : ℕ) (l : Link) (xs : List Exchange)
    → IsMissing m l
    → IsQuiet xs
    → m < seq
    → contiguous_below (run limit l xs).host (some seq) ≡ false
unfolding contiguous_below
missing_holds_completion limit m seq l xs v q h =
    let u = (run-IsMissing limit m l xs q v).uncounted in ground arith

-- The host told the worker a watermark `k` that had not reached the disk, and started again from
-- an older one, `p`. Unless the worker had declared a loss beyond `p`, and while it sends nothing
-- new, no completion above `p + 1` may be applied any more.
pub stale_restart_holds_completion :
    (limit k p seq e : ℕ) (host : Lease) (b : LeaseBuffer) (landed : List ℕ) (xs : List Exchange)
    → p < k
    → b.gap_through ≤ p
    → IsQuiet xs
    → p + 1 < seq
    → let restarted : Link = record {
      host = restored_lease p host;
      worker = (on_lease_ack true k e b).0;
      in_transit = [];
      landed = landed;
    } in
      contiguous_below (run limit restarted xs).host (some seq) ≡ false
stale_restart_holds_completion limit k p seq e host b landed xs lt gap q above =
    missing_holds_completion limit (p + 1) seq _ xs
      (record {
        uncounted = unfold restored_lease in ground arith;
        unheld = ground (arith, on_lease_ack-holds true k e (p + 1) b);
        undeclared = omega (arith, on_lease_ack-gap true k e b);
        unwritten = unfold restored_lease in refl;
        unsent = refl;
      })
      q above
