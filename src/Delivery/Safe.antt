-- ===== src/Delivery/Safe.antt =====
-- No frame that may not be dropped is lost between a worker and the host, whatever fails
-- (connection.ts against workers.ts).
use brevi.Base.{
  ℕ, ◌+◌, ◌≤◌, ◌<◌, ◌≡◌, refl, ◌∙◌, inl, inr, true, false, not, ◌||◌, List, [], ◌∷◌, arith, leb,
  ltb, elem, Bool-cases,
}
use brevi.Watermark.Exact.{
  accounted, mark_applied-accounted, skip_lease_gap-accounted, admit_frame-accounted,
  write_failed-accounted,
}
use brevi.Replay.{
  FrameType, Frame, LeaseBuffer, new_buffer, send_reporting, on_lease_ack, on_close, on_connect,
  cap_lease_buffer, after_cap, flush_lease, push_frame,
}
use brevi.Replay.Cap.{droppable, essential}
use brevi.Replay.Kept.{essential-map, send_reporting-essential, on_lease_ack-essential}
use brevi.Replay.Order.{
  Ascends, IsOrdered, Ascends-le, Ascends-map, send_reporting-IsOrdered, on_lease_ack-IsOrdered,
}
use brevi.Delivery.Flight.{arrival-in_flight, failure-in_flight, landing-in_flight, gap-in_flight}
use brevi.Delivery.{
  Link, Exchange, sends, lands, fails, arrives, acks, gives_up, restarts, reconnects, holds,
  departs, can_arrive, can_land, exchange, run,
}

essential-above :
    (lo hi s : ℕ) (fs : List Frame) → Ascends lo hi fs → essential s fs ≡ true → lo < s
essential-above lo hi s [] h e = ground arith
essential-above lo hi s (f ∷ fs) h e = ground (arith, essential-above f.seq hi s fs h.1)

-- One frame is safe: it is held or its write landed, and the host does not count it before that.
record IsSafe (s : ℕ) (l : Link) : Type 0 where
  ordered : IsOrdered l.worker
  kept : (essential s l.worker.frames || elem s l.landed) ≡ true
  honest : (not (accounted l.host s) || elem s l.landed) ≡ true

gives_up-honest :
    (s k : ℕ) (l : Link)
    → IsSafe s l
    → k ≤ l.worker.gap_through
    → (not (accounted l.host s || leb s k) || elem s l.landed) ≡ true
gives_up-honest s k l v le = elim (Bool-cases (essential s l.worker.frames)) [
  | inl e ↦
      let above = essential-above l.worker.gap_through l.worker.seq s l.worker.frames v.ordered e in
      let honest = v.honest in ground arith
  | inr e ↦ let kept = v.kept in ground arith
]

exchange-IsSafe :
    (limit s : ℕ) (l : Link) (x : Exchange) → IsSafe s l → IsSafe s (exchange limit l x)
unfolding exchange on_close on_connect
exchange-IsSafe limit s l (sends t) v = record {
  ordered = send_reporting-IsOrdered limit true t l.worker v.ordered;
  kept = let k = v.kept in ground (arith, send_reporting-essential limit true t s l.worker);
  honest = v.honest;
}
exchange-IsSafe limit s l (lands t) v = elim (Bool-cases (can_land t l)) [
  | inl e ↦
      rw (e, exchange)
        (record {
          ordered = v.ordered;
          kept = let k = v.kept in ground arith;
          honest = let h = v.honest in ground (arith, mark_applied-accounted l.host t s);
        })
  | inr e ↦ rw (e, exchange) v
]
exchange-IsSafe limit s l (departs t) v = elim (Bool-cases (holds t l.worker.frames)) [
  | inl e ↦ rw (e, exchange) (record { ordered = v.ordered; kept = v.kept; honest = v.honest })
  | inr e ↦ rw (e, exchange) v
]
exchange-IsSafe limit s l (arrives t) v = elim (Bool-cases (can_arrive t l)) [
  | inl e ↦
      rw (e, exchange)
        (record {
          ordered = v.ordered;
          kept = v.kept;
          honest = rw (admit_frame-accounted l.host t s) v.honest;
        })
  | inr e ↦ rw (e, exchange) v
]
exchange-IsSafe limit s l (fails t) v = record {
  ordered = v.ordered;
  kept = v.kept;
  honest = rw (write_failed-accounted l.host t s) v.honest;
}
exchange-IsSafe limit s l (acks k e) v = elim (Bool-cases (leb k l.host.applied_seq)) [
  | inl c ↦
      rw (c, exchange)
        (record {
          ordered = on_lease_ack-IsOrdered true k e l.worker v.ordered;
          kept =
              let kept = v.kept in
              let honest = v.honest in ground (arith, on_lease_ack-essential true k e s l.worker);
          honest = v.honest;
        })
  | inr c ↦ rw (c, exchange) v
]
exchange-IsSafe limit s l (gives_up k) v = elim (Bool-cases (leb k l.worker.gap_through)) [
  | inl c ↦
      rw (c, exchange)
        (record {
          ordered = v.ordered;
          kept = v.kept;
          honest =
              rw (skip_lease_gap-accounted l.host k s) (gives_up-honest s k l v (ground arith));
        })
  | inr c ↦ rw (c, exchange) v
]
exchange-IsSafe limit s l (restarts p) v = elim (Bool-cases (leb p l.host.applied_seq)) [
  | inl c ↦
      rw (c, exchange)
        (record {
          ordered = v.ordered;
          kept = v.kept;
          honest = let honest = v.honest in ground arith;
        })
  | inr c ↦ rw (c, exchange) v
]
exchange-IsSafe limit s l reconnects v = record {
  ordered = Ascends-map false l.worker.gap_through l.worker.seq l.worker.frames v.ordered;
  kept = rw (essential-map false s l.worker.frames) v.kept;
  honest = v.honest;
}

run-IsSafe : (limit s : ℕ) (l : Link) (xs : List Exchange) → IsSafe s l → IsSafe s (run limit l xs)
unfolding run
run-IsSafe limit s l [] v = v
run-IsSafe limit s l (x ∷ xs) v =
    run-IsSafe limit s (exchange limit l x) xs (exchange-IsSafe limit s l x v)

-- The host has counted no frame that the worker has not numbered yet, none is being written, and none
-- is on its way.
record IsBehind (l : Link) : Type 0 where
  ordered : IsOrdered l.worker
  behind : (s : ℕ) → l.worker.seq < s → accounted l.host s ≡ false
  unwritten : (s : ℕ) → l.worker.seq < s → elem s l.host.in_flight_seqs ≡ false
  unsent : (s : ℕ) → l.worker.seq < s → elem s l.in_transit ≡ false

abbrev pub IsFresh : Link → Type 0
IsFresh l =
    (l.worker ≡ new_buffer)
    × (l.host.applied_seq ≡ 0)
    × (l.host.applied_ahead ≡ [])
    × (l.host.in_flight_seqs ≡ [])
    × (l.in_transit ≡ [])

send_reporting-seq :
    (limit : ℕ) (t : FrameType) (b : LeaseBuffer)
    → (send_reporting limit true t b).0.seq ≡ b.seq + 1
unfolding send_reporting cap_lease_buffer after_cap flush_lease push_frame
send_reporting-seq limit t b = ground arith

on_lease_ack-seq : (k e : ℕ) (b : LeaseBuffer) → (on_lease_ack true k e b).0.seq ≡ b.seq
unfolding on_lease_ack flush_lease
on_lease_ack-seq k e b = ground arith

holds-le : (lo hi s : ℕ) (fs : List Frame) → Ascends lo hi fs → holds s fs ≡ true → s ≤ hi
holds-le lo hi s [] h e = ground arith
holds-le lo hi s (f ∷ fs) h e =
    ground (arith, holds-le f.seq hi s fs h.1, Ascends-le f.seq hi fs h.1)

can_arrive-le : (l : Link) (t : ℕ) → IsBehind l → can_arrive t l ≡ true → t ≤ l.worker.seq
can_arrive-le l t v e = elim (Bool-cases (ltb l.worker.seq t)) [
  | inl above ↦
      ground
        (arith, v.unsent t, holds-le l.worker.gap_through l.worker.seq t l.worker.frames v.ordered)
  | inr low ↦ ground arith
]

can_land-le : (l : Link) (t : ℕ) → IsBehind l → can_land t l ≡ true → t ≤ l.worker.seq
can_land-le l t v e = elim (Bool-cases (ltb l.worker.seq t)) [
  | inl above ↦
      ground (
        arith,
        v.unwritten t,
        holds-le l.worker.gap_through l.worker.seq t l.worker.frames v.ordered,
      )
  | inr low ↦ ground arith
]

exchange-IsBehind :
    (limit : ℕ) (l : Link) (x : Exchange) → IsBehind l → IsBehind (exchange limit l x)
unfolding exchange on_close on_connect
exchange-IsBehind limit l (sends t) v = record {
  ordered = send_reporting-IsOrdered limit true t l.worker v.ordered;
  behind = λ s h. v.behind s (omega (arith, send_reporting-seq limit t l.worker));
  unwritten = λ s h. v.unwritten s (omega (arith, send_reporting-seq limit t l.worker));
  unsent = λ s h. v.unsent s (omega (arith, send_reporting-seq limit t l.worker));
}
exchange-IsBehind limit l (departs t) v = elim (Bool-cases (holds t l.worker.frames)) [
  | inl e ↦
      let low = holds-le l.worker.gap_through l.worker.seq t l.worker.frames v.ordered e in
      rw (e, exchange)
        (record {
          ordered = v.ordered;
          behind = v.behind;
          unwritten = v.unwritten;
          unsent = λ s h. ground (arith, v.unsent s h);
        })
  | inr e ↦ rw (e, exchange) v
]
exchange-IsBehind limit l (lands t) v = elim (Bool-cases (can_land t l)) [
  | inl e ↦
      let low = can_land-le l t v e in
      rw (e, exchange)
        (record {
          ordered = v.ordered;
          behind = λ s h. ground (arith, mark_applied-accounted l.host t s, v.behind s h);
          unwritten = λ s h. ground (arith, landing-in_flight l.host t s, v.unwritten s h);
          unsent = v.unsent;
        })
  | inr e ↦ rw (e, exchange) v
]
exchange-IsBehind limit l (arrives t) v = elim (Bool-cases (can_arrive t l)) [
  | inl e ↦
      let low = can_arrive-le l t v e in
      rw (e, exchange)
        (record {
          ordered = v.ordered;
          behind = λ s h. admit_frame-accounted l.host t s ∙ v.behind s h;
          unwritten = λ s h. ground (arith, arrival-in_flight l.host t s, v.unwritten s h);
          unsent = v.unsent;
        })
  | inr e ↦ rw (e, exchange) v
]
exchange-IsBehind limit l (fails t) v = record {
  ordered = v.ordered;
  behind = λ s h. write_failed-accounted l.host t s ∙ v.behind s h;
  unwritten = λ s h. ground (arith, failure-in_flight l.host t s, v.unwritten s h);
  unsent = v.unsent;
}
exchange-IsBehind limit l (acks k e) v = elim (Bool-cases (leb k l.host.applied_seq)) [
  | inl c ↦
      rw (c, exchange)
        (record {
          ordered = on_lease_ack-IsOrdered true k e l.worker v.ordered;
          behind = λ s h. v.behind s (omega (arith, on_lease_ack-seq k e l.worker));
          unwritten = λ s h. v.unwritten s (omega (arith, on_lease_ack-seq k e l.worker));
          unsent = λ s h. v.unsent s (omega (arith, on_lease_ack-seq k e l.worker));
        })
  | inr c ↦ rw (c, exchange) v
]
exchange-IsBehind limit l (gives_up k) v = elim (Bool-cases (leb k l.worker.gap_through)) [
  | inl c ↦
      rw (c, exchange)
        (record {
          ordered = v.ordered;
          behind = λ s h. ground (
            arith,
            skip_lease_gap-accounted l.host k s,
            v.behind s h,
            Ascends-le l.worker.gap_through l.worker.seq l.worker.frames v.ordered,
          );
          unwritten = λ s h. gap-in_flight l.host k s ∙ v.unwritten s h;
          unsent = v.unsent;
        })
  | inr c ↦ rw (c, exchange) v
]
exchange-IsBehind limit l (restarts p) v = elim (Bool-cases (leb p l.host.applied_seq)) [
  | inl c ↦
      rw (c, exchange)
        (record {
          ordered = v.ordered;
          behind = λ s h. ground (arith, v.behind s h);
          unwritten = λ s h. refl;
          unsent = λ s h. refl;
        })
  | inr c ↦ rw (c, exchange) v
]
exchange-IsBehind limit l reconnects v = record {
  ordered = Ascends-map false l.worker.gap_through l.worker.seq l.worker.frames v.ordered;
  behind = v.behind;
  unwritten = v.unwritten;
  unsent = v.unsent;
}

run-IsBehind : (limit : ℕ) (l : Link) (xs : List Exchange) → IsBehind l → IsBehind (run limit l xs)
unfolding run
run-IsBehind limit l [] v = v
run-IsBehind limit l (x ∷ xs) v =
    run-IsBehind limit (exchange limit l x) xs (exchange-IsBehind limit l x v)

IsFresh-IsBehind : (l : Link) → IsFresh l → IsBehind l
IsFresh-IsBehind l (w, a, e, f, t) = record {
  ordered = rw w (omega arith);
  behind = λ s h. rw (a, e) (ground arith);
  unwritten = λ s h. rw f refl;
  unsent = λ s h. rw t refl;
}

sent-IsSafe :
    (limit : ℕ) (l : Link) (t : FrameType)
    → droppable t ≡ false
    → IsBehind l
    → IsSafe (l.worker.seq + 1) (exchange limit l (sends t))
unfolding exchange
sent-IsSafe limit l t d v = record {
  ordered = send_reporting-IsOrdered limit true t l.worker v.ordered;
  kept = ground (arith, send_reporting-essential limit true t (l.worker.seq + 1) l.worker);
  honest = rw (v.behind (l.worker.seq + 1) (omega arith)) refl;
}

-- Start from a fresh lease, let any exchanges happen, send a frame that may not be dropped, and let
-- any exchanges happen again: further sends, drops by the cap, failed writes, late acks and gaps,
-- reconnects, and host restarts from an older watermark. The frame is then still held by the worker
-- or its write has landed on the host, and if the host counts it as applied, it has landed.
pub essential_never_lost :
    (limit : ℕ) (l : Link) (before after : List Exchange) (t : FrameType)
    → IsFresh l
    → droppable t ≡ false
    → let sender = run limit l before in
      let number = sender.worker.seq + 1 in
      let end = run limit (exchange limit sender (sends t)) after in
      ((essential number end.worker.frames || elem number end.landed) ≡ true)
      × ((not (accounted end.host number) || elem number end.landed) ≡ true)
essential_never_lost limit l before after t fresh d =
    let sender = run limit l before in
    let safe =
      run-IsSafe limit (sender.worker.seq + 1) (exchange limit sender (sends t)) after
        (sent-IsSafe limit sender t d (run-IsBehind limit l before (IsFresh-IsBehind l fresh))) in
    (safe.kept, safe.honest)
