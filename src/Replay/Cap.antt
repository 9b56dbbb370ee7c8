-- ===== src/Replay/Cap.antt =====
-- The cap on a replay buffer (`capLeaseBuffer` of connection.ts): it ends, and it drops only what
-- may be dropped.
use brevi.Base.{
  ℕ, zero, suc, ◌+◌, ◌≤◌, ◌≡◌, refl, ◌⊎◌, inl, inr, Bool, true, false, not, ◌&&◌, ◌||◌, none, some,
  List, [], ◌∷◌, arith, ltb, ◌==◌, length, All, Bool-cases, Option-cases,
}
use brevi.Replay.{
  FrameType, Frame, is_run_event, is_run_artifact, drop_first, drop_cheapest, cap_loop,
}

abbrev pub droppable : FrameType → Bool
droppable t = is_run_event t || is_run_artifact t

-- Whether a frame with this number that may not be dropped is held.
abbrev pub essential : ℕ → List Frame → Bool
essential s [] = false
essential s (f ∷ fs) = (f.seq == s && not (droppable f.frame_type)) || essential s fs

abbrev pub AllEssential : List Frame → Type 0
AllEssential = All (λ f. droppable f.frame_type ≡ false)

length-drop_first :
    (p : FrameType → Bool) (fs rest : List Frame)
    → drop_first p fs ≡ some rest
    → length fs ≡ suc (length rest)
unfolding drop_first
length-drop_first p [] rest e = ground arith
length-drop_first p (f ∷ fs) rest e = elim (Option-cases (drop_first p fs)) [
  | inl n ↦ ground arith
  | inr (r, q) ↦ ground (arith, length-drop_first p fs r q)
]

drop_first-none :
    (p : FrameType → Bool) (fs : List Frame)
    → drop_first p fs ≡ none
    → All (λ f. p f.frame_type ≡ false) fs
unfolding drop_first
drop_first-none p [] e = tt
drop_first-none p (f ∷ fs) e = elim (Option-cases (drop_first p fs)) [
  | inl n ↦ (ground arith, drop_first-none p fs n)
  | inr (r, q) ↦ ground arith
]

drop_first-essential :
    (p : FrameType → Bool) (within : (t : FrameType) → p t ≡ true → droppable t ≡ true) (s : ℕ)
    (fs rest : List Frame)
    → drop_first p fs ≡ some rest
    → essential s rest ≡ essential s fs
unfolding drop_first
drop_first-essential p within s [] rest e = ground arith
drop_first-essential p within s (f ∷ fs) rest e = elim (Option-cases (drop_first p fs)) [
  | inl n ↦ ground (arith, within f.frame_type)
  | inr (r, q) ↦ ground (arith, within f.frame_type, drop_first-essential p within s fs r q)
]

All-both :
    (fs : List Frame)
    → All (λ f. is_run_event f.frame_type ≡ false) fs
    → All (λ f. is_run_artifact f.frame_type ≡ false) fs
    → AllEssential fs
All-both [] h k = tt
All-both (f ∷ fs) h k = (ground arith, All-both fs h.1 k.1)

pub drop_cheapest-none : (fs : List Frame) → drop_cheapest fs ≡ none → AllEssential fs
unfolding drop_cheapest
drop_cheapest-none fs e = elim (Option-cases (drop_first is_run_event fs)) [
  | inl n ↦
      All-both fs (drop_first-none is_run_event fs n)
        (drop_first-none is_run_artifact fs (ground arith))
  | inr (r, q) ↦ ground arith
]

event-droppable : (t : FrameType) → is_run_event t ≡ true → droppable t ≡ true
event-droppable t h = ground arith

artifact-droppable : (t : FrameType) → is_run_artifact t ≡ true → droppable t ≡ true
artifact-droppable t h = ground arith

pub length-drop_cheapest :
    (fs rest : List Frame) → drop_cheapest fs ≡ some rest → length fs ≡ suc (length rest)
unfolding drop_cheapest
length-drop_cheapest fs rest e = elim (Option-cases (drop_first is_run_event fs)) [
  | inl n ↦ length-drop_first is_run_artifact fs rest (ground arith)
  | inr (r, q) ↦ length-drop_first is_run_event fs rest (ground arith)
]

pub drop_cheapest-essential :
    (s : ℕ) (fs rest : List Frame)
    → drop_cheapest fs ≡ some rest
    → essential s rest ≡ essential s fs
unfolding drop_cheapest
drop_cheapest-essential s fs rest e = elim (Option-cases (drop_first is_run_event fs)) [
  | inl n ↦ drop_first-essential is_run_artifact artifact-droppable s fs rest (ground arith)
  | inr (r, q) ↦ drop_first-essential is_run_event event-droppable s fs rest (ground arith)
]

-- The loop ends within its fuel: the cap is met, or only frames are left that may not be dropped.
pub cap_loop-ends :
    (fuel limit : ℕ) (fs : List Frame) (dropped : ℕ)
    → length fs ≤ fuel
    → (length (cap_loop fuel limit fs dropped).0 ≤ limit)
      ⊎ AllEssential (cap_loop fuel limit fs dropped).0
unfolding cap_loop
cap_loop-ends zero limit [] dropped h = inl (omega arith)
cap_loop-ends zero limit (f ∷ fs) dropped h = absurd (omega arith)
cap_loop-ends (suc fuel) limit fs dropped h = elim (Bool-cases (ltb limit (length fs))) [
  | inr e ↦ rw (e, cap_loop) (inl (ground arith))
  | inl e ↦ elim (Option-cases (drop_cheapest fs)) [
    | inl n ↦ rw (e, n, cap_loop) (inr (drop_cheapest-none fs n))
    | inr (r, q) ↦
        rw (e, q, cap_loop)
          (cap_loop-ends fuel limit r (dropped + 1) (omega (arith, length-drop_cheapest fs r q)))
  ]
]

pub cap_loop-essential :
    (fuel limit : ℕ) (s : ℕ) (fs : List Frame) (dropped : ℕ)
    → essential s (cap_loop fuel limit fs dropped).0 ≡ essential s fs
unfolding cap_loop
cap_loop-essential zero limit s fs dropped = refl
cap_loop-essential (suc fuel) limit s fs dropped = elim (Bool-cases (ltb limit (length fs))) [
  | inr e ↦ rw (e, cap_loop) refl
  | inl e ↦ elim (Option-cases (drop_cheapest fs)) [
    | inl n ↦ rw (e, n, cap_loop) refl
    | inr (r, q) ↦
        rw (e, q, cap_loop, cap_loop-essential fuel limit s r (dropped + 1))
          (drop_cheapest-essential s fs r q)
  ]
]

-- The count of what went is exact.
pub cap_loop-count :
    (fuel limit : ℕ) (fs : List Frame) (dropped : ℕ)
    → length (cap_loop fuel limit fs dropped).0 + (cap_loop fuel limit fs dropped).1
      ≡ length fs + dropped
unfolding cap_loop
cap_loop-count zero limit fs dropped = refl
cap_loop-count (suc fuel) limit fs dropped = elim (Bool-cases (ltb limit (length fs))) [
  | inr e ↦ rw (e, cap_loop) refl
  | inl e ↦ elim (Option-cases (drop_cheapest fs)) [
    | inl n ↦ rw (e, n, cap_loop) refl
    | inr (r, q) ↦
        rw (e, q, cap_loop)
          (omega (arith, cap_loop-count fuel limit r (dropped + 1), length-drop_cheapest fs r q))
  ]
]
