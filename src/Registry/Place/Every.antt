-- ===== src/Registry/Place/Every.antt =====
-- Tests that all workers of a list pass, for `#placeWorker` of workers.ts.
use brevi.Base.{
  ◌∷◌, ℕ, ◌≤◌, ◌≡◌, refl, ◌∙◌, arith, Bool, true, false, not, ◌&&◌, ◌||◌, List, [], keep, leb,
  insert_by, sort_by,
}
use brevi.Registry.{ConnectedWorker}

abbrev pub every : (ConnectedWorker → Bool) → List ConnectedWorker → Bool
every p [] = true
every p (w ∷ ws) = p w && every p ws

pub every-keep :
    (p q : ConnectedWorker → Bool) (ws : List ConnectedWorker)
    → every p (keep q ws) ≡ every (λ w. not (q w) || p w) ws
every-keep p q [] = refl
every-keep p q (w ∷ ws) = ground (arith, every-keep p q ws)

pub every_mono :
    (m : ConnectedWorker → ℕ) (a b : ℕ) (ws : List ConnectedWorker)
    → a ≤ b
    → every (λ w. leb (m w) a) ws ≡ true
    → every (λ w. leb (m w) b) ws ≡ true
every_mono m a b [] le h = refl
every_mono m a b (w ∷ ws) le h = ground (arith, every_mono m a b ws)

module _ (after : ConnectedWorker → ConnectedWorker → Bool) where
  pub every-insert_by :
      (p : ConnectedWorker → Bool) (w : ConnectedWorker) (ws : List ConnectedWorker)
      → every p (insert_by after w ws) ≡ (p w && every p ws)
  unfolding insert_by
  every-insert_by p w [] = refl
  every-insert_by p w (x ∷ xs) = ground (arith, every-insert_by p w xs)

  pub every-sort_by :
      (p : ConnectedWorker → Bool) (ws : List ConnectedWorker)
      → every p (sort_by after ws) ≡ every p ws
  unfolding sort_by
  every-sort_by p [] = refl
  every-sort_by p (w ∷ ws) =
      ground (arith, every-insert_by p w (sort_by after ws), every-sort_by p ws)

pub every-cong :
    (p q : ConnectedWorker → Bool) (ws : List ConnectedWorker)
    → ((w : ConnectedWorker) → p w ≡ q w)
    → every p ws ≡ every q ws
every-cong p q [] same = refl
every-cong p q (w ∷ ws) same = ground (arith, same w, every-cong p q ws same)

pub every-keep_all :
    (p a b c d : ConnectedWorker → Bool) (ws : List ConnectedWorker)
    → every p (keep d (keep c (keep b (keep a ws))))
      ≡ every (λ w. not (a w && b w && c w && d w) || p w) ws
every-keep_all p a b c d ws =
    every-keep p d (keep c (keep b (keep a ws)))
    ∙ every-keep (λ w. not (d w) || p w) c (keep b (keep a ws))
    ∙ every-keep (λ w. not (c w) || (not (d w) || p w)) b (keep a ws)
    ∙ every-keep (λ w. not (b w) || (not (c w) || (not (d w) || p w))) a ws
    ∙ every-cong (λ w. not (a w) || (not (b w) || (not (c w) || (not (d w) || p w))))
        (λ w. not (a w && b w && c w && d w) || p w) ws (λ w. ground arith)

pub every-true : (ws : List ConnectedWorker) → every (λ w. true) ws ≡ true
every-true [] = refl
every-true (w ∷ ws) = every-true ws

pub none-kept :
    (p : ConnectedWorker → Bool) (ws : List ConnectedWorker)
    → (not (every (λ w. false) ws) || every (λ w. false) (keep p ws)) ≡ true
none-kept p [] = refl
none-kept p (w ∷ ws) = refl
