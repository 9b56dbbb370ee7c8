-- ===== src/Registry/Place/Choice.antt =====
-- Placement picks an eligible worker with the most room, and refuses only when there is none
-- (`#placeWorker` of workers.ts).
use brevi.Base.{
  ◌∷◌, ℕ, ◌≡◌, refl, ◌∙◌, arith, String, Bool, true, false, not, ◌&&◌, ◌||◌, List, [], keep, length,
  ltb, leb, insert_by, sort_by,
}
use brevi.Registry.{ConnectedWorker, Registry, values, is_draining, free_capacity}
use brevi.Registry.Place.{
  Refusal, no_workers, all_draining, none_isolated, none_with_agent, all_full, Placement, placed,
  refused, isolates, has_agent, ranks_after, first_of, or_refuse, place_worker,
}
use brevi.Registry.Place.Every.{
  every, every_mono, every-insert_by, every-sort_by, every-cong, every-keep_all, every-true,
  none-kept,
}

-- What placement asks of a worker.
abbrev pub eligible : String → Registry → ConnectedWorker → Bool
eligible command reg w =
    not (is_draining w.id reg) && isolates w && has_agent command w && ltb 0 (free_capacity reg w)

abbrev pub is_refused : Placement → Bool
is_refused (placed w) = false
is_refused (refused reason) = true

-- A property of the worker that was picked.
abbrev pub of_placed : (ConnectedWorker → Bool) → Placement → Bool
of_placed p (placed w) = p w
of_placed p (refused reason) = true

-- The first of a list measures at least as much as the others.
abbrev first_is_most : (ConnectedWorker → ℕ) → List ConnectedWorker → Bool
first_is_most m [] = true
first_is_most m (w ∷ ws) = every (λ x. leb (m x) (m w)) ws

module _ (locale_after : String → String → Bool) (reg : Registry) where
  first_is_most-insert_by :
      (w : ConnectedWorker) (ws : List ConnectedWorker)
      → first_is_most (free_capacity reg) ws ≡ true
      → first_is_most (free_capacity reg) (insert_by (ranks_after locale_after reg) w ws) ≡ true
  unfolding insert_by ranks_after
  first_is_most-insert_by w [] h = refl
  first_is_most-insert_by w (x ∷ xs) h =
      let room = free_capacity reg in
      ground (
        arith,
        every-insert_by (ranks_after locale_after reg) (λ y. leb (room y) (room x)) w xs,
        every_mono room (room x) (room w) xs,
      )

  first_is_most-sort_by :
      (ws : List ConnectedWorker)
      → first_is_most (free_capacity reg) (sort_by (ranks_after locale_after reg) ws) ≡ true
  unfolding sort_by
  first_is_most-sort_by [] = refl
  first_is_most-sort_by (w ∷ ws) =
      first_is_most-insert_by w (sort_by (ranks_after locale_after reg) ws)
        (first_is_most-sort_by ws)

  first_of-first_is_most :
      (p : ConnectedWorker → Bool) (refusal : Refusal) (ws ys : List ConnectedWorker)
      → every p ys ≡ true
      → first_is_most (free_capacity reg) ys ≡ true
      → ((q : ConnectedWorker → Bool) → every q ys ≡ every q ws)
      → of_placed
          (λ w. p w && every (λ x. leb (free_capacity reg x) (free_capacity reg w)) ws)
          (first_of ys refusal)
        ≡ true
  first_of-first_is_most p refusal ws [] h most same = refl
  first_of-first_is_most p refusal ws (y ∷ ys) h most same =
      ground (arith, same (λ x. leb (free_capacity reg x) (free_capacity reg y)))

  -- The one that is picked out of a list: it has what all of the list have, and the most room.
  of_placed-first_of :
      (p : ConnectedWorker → Bool) (refusal : Refusal) (ws : List ConnectedWorker)
      → every p ws ≡ true
      → of_placed
          (λ w. p w && every (λ x. leb (free_capacity reg x) (free_capacity reg w)) ws)
          (first_of (sort_by (ranks_after locale_after reg) ws) refusal)
        ≡ true
  of_placed-first_of p refusal ws h =
      let after = ranks_after locale_after reg in
      first_of-first_is_most p refusal ws (sort_by after ws) (every-sort_by after p ws ∙ h)
        (first_is_most-sort_by ws) (λ q. every-sort_by after q ws)

  is_refused-first_of :
      (refusal : Refusal) (ws : List ConnectedWorker)
      → is_refused (first_of (sort_by (ranks_after locale_after reg) ws) refusal)
        ≡ every (λ w. false) ws
  is_refused-first_of refusal ws =
      go (sort_by (ranks_after locale_after reg) ws)
      ∙ every-sort_by (ranks_after locale_after reg) (λ w. false) ws
    where
      go : (ys : List ConnectedWorker) → is_refused (first_of ys refusal) ≡ every (λ w. false) ys
      go [] = refl
      go (y ∷ ys) = refl

is_refused-or_refuse :
    (ws : List ConnectedWorker) (refusal : Refusal) (rest : Placement)
    → is_refused (or_refuse ws refusal rest) ≡ (every (λ w. false) ws || is_refused rest)
is_refused-or_refuse [] refusal rest = refl
is_refused-or_refuse (w ∷ ws) refusal rest = refl

of_placed-or_refuse :
    (p : ConnectedWorker → Bool) (ws : List ConnectedWorker) (refusal : Refusal) (rest : Placement)
    → of_placed p rest ≡ true
    → of_placed p (or_refuse ws refusal rest) ≡ true
of_placed-or_refuse p [] refusal rest h = refl
of_placed-or_refuse p (w ∷ ws) refusal rest h = h

-- The workers that are left at the end of the filters.
abbrev candidates : String → Registry → List ConnectedWorker
candidates command reg =
    keep (λ w. ltb 0 (free_capacity reg w))
      (keep (has_agent command)
        (keep isolates (keep (λ w. not (is_draining w.id reg)) (values reg.workers))))

every-candidates :
    (p : ConnectedWorker → Bool) (command : String) (reg : Registry)
    → every p (candidates command reg)
      ≡ every (λ w. not (eligible command reg w) || p w) (values reg.workers)
every-candidates p command reg =
    every-keep_all p (λ w. not (is_draining w.id reg)) isolates (has_agent command)
      (λ w. ltb 0 (free_capacity reg w)) (values reg.workers)

of_placed-imp :
    (p q : ConnectedWorker → Bool) (placement : Placement)
    → ((w : ConnectedWorker) → (not (p w) || q w) ≡ true)
    → of_placed p placement ≡ true
    → of_placed q placement ≡ true
of_placed-imp p q (placed w) imp h = ground (arith, imp w)
of_placed-imp p q (refused reason) imp h = refl

-- The worker that placement picks is eligible - not draining, isolating, with the agent command and
-- with room - and no eligible worker that is connected has more room.
pub placed_worker_is_best :
    (locale_after : String → String → Bool) (command : String) (reg : Registry)
    → of_placed
        (λ w.
          eligible command reg w
          && every
              (λ x. not (eligible command reg x) || leb (free_capacity reg x) (free_capacity reg w))
              (values reg.workers))
        (place_worker locale_after command reg)
      ≡ true
unfolding place_worker ranks_after
placed_worker_is_best locale_after command reg =
    let connected = values reg.workers in
    let not_draining = keep (λ w. not (is_draining w.id reg)) connected in
    let available = keep isolates not_draining in
    let with_agent = keep (has_agent command) available in
    let found = candidates command reg in
    let best : ConnectedWorker → Bool = λ w.
      eligible command reg w
      && every
          (λ x. not (eligible command reg x) || leb (free_capacity reg x) (free_capacity reg w))
          connected in
    let chosen : ConnectedWorker → Bool = λ w.
      eligible command reg w
      && every (λ x. leb (free_capacity reg x) (free_capacity reg w)) found in
    of_placed-imp chosen best (place_worker locale_after command reg)
      (λ w. ground (
        arith,
        every-candidates (λ x. leb (free_capacity reg x) (free_capacity reg w)) command reg,
      ))
      (of_placed-or_refuse chosen connected no_workers _ (
        of_placed-or_refuse chosen not_draining (all_draining (length connected)) _ (
          of_placed-or_refuse chosen available none_isolated _ (
            of_placed-or_refuse chosen with_agent (none_with_agent command)
              (first_of (sort_by (ranks_after locale_after reg) found)
                (all_full (length with_agent)))
              (of_placed-first_of locale_after reg (eligible command reg)
                (all_full (length with_agent)) found
                (every-candidates (eligible command reg) command reg
                  ∙ every-cong (λ w. not (eligible command reg w) || eligible command reg w)
                      (λ w. true) connected (λ w. ground arith)
                  ∙ every-true connected))))))

-- Placement refuses exactly when no connected worker is eligible.
pub refused_iff_none_eligible :
    (locale_after : String → String → Bool) (command : String) (reg : Registry)
    → is_refused (place_worker locale_after command reg)
      ≡ every (λ w. not (eligible command reg w)) (values reg.workers)
unfolding place_worker ranks_after
refused_iff_none_eligible locale_after command reg =
    let connected = values reg.workers in
    let not_draining = keep (λ w. not (is_draining w.id reg)) connected in
    let available = keep isolates not_draining in
    let with_agent = keep (has_agent command) available in
    let found = candidates command reg in
    let never : ConnectedWorker → Bool = λ w. false in
    let rest4 =
      first_of (sort_by (ranks_after locale_after reg) found) (all_full (length with_agent)) in
    let rest3 = or_refuse with_agent (none_with_agent command) rest4 in
    let rest2 = or_refuse available none_isolated rest3 in
    let rest1 = or_refuse not_draining (all_draining (length connected)) rest2 in
    ground (
      arith,
      is_refused-or_refuse connected no_workers rest1,
      is_refused-or_refuse not_draining (all_draining (length connected)) rest2,
      is_refused-or_refuse available none_isolated rest3,
      is_refused-or_refuse with_agent (none_with_agent command) rest4,
      is_refused-first_of locale_after reg (all_full (length with_agent)) found,
      none-kept (λ w. not (is_draining w.id reg)) connected,
      none-kept isolates not_draining,
      none-kept (has_agent command) available,
      none-kept (λ w. ltb 0 (free_capacity reg w)) with_agent,
      every-candidates never command reg
          ∙ every-cong (λ w. not (eligible command reg w) || false)
              (λ w. not (eligible command reg w)) connected (λ w. ground arith),
    )
