-- ===== src/Strings/Laws.antt =====
-- Laws of the string functions.
use noted_runner.Prelude.{ℕ, ◌≡◌, refl, ◌≢◌, some, List, [], ◌∷◌, ◌++◌, ap, ◌∙◌, arith, All, Text}
use noted_runner.Strings.{split, cut, split_after_two}

-- no byte of the text is `c`
abbrev pub Lacks : ℕ → Text → Type 0
Lacks c s = All (λ x. x ≢ c) s

pub cut-append : (c : ℕ) (s t : Text) → Lacks c s → cut c (s ++ c ∷ t) ≡ some (s, t)
unfolding cut
cut-append c [] t h = ground arith
cut-append c (x ∷ xs) t (p, h) = ground (arith, cut-append c xs t h)

pub split_after_two-append :
    (c : ℕ) (s t : Text) → Lacks c s → split_after_two (s ++ c ∷ t) c ≡ (s ++ c ∷ []) ∷ t ∷ []
unfolding split_after_two
split_after_two-append c s t h = rw (split_after_two, cut-append c s t h)

-- the parts joined by a byte
abbrev pub join : ℕ → Text → List Text → Text
join c p [] = p
join c p (q ∷ qs) = p ++ c ∷ join c q qs

split_lacking : (c : ℕ) (s : Text) → Lacks c s → split s (c ∷ []) ≡ s ∷ []
unfolding split
split_lacking c [] h = refl
split_lacking c (x ∷ xs) (p, h) = ground (arith, split_lacking c xs h)

split-append : (c : ℕ) (s t : Text) → Lacks c s → split (s ++ c ∷ t) (c ∷ []) ≡ s ∷ split t (c ∷ [])
unfolding split
split-append c [] t h = ground arith
split-append c (x ∷ xs) t (p, h) = ground (arith, split-append c xs t h)

-- Splitting at a byte gives back the parts that were joined by it.
pub split-join :
    (c : ℕ) (p : Text) (ps : List Text)
    → All (Lacks c) (p ∷ ps)
    → split (join c p ps) (c ∷ []) ≡ p ∷ ps
split-join c p [] (h, _) = split_lacking c p h
split-join c p (q ∷ qs) (h, hs) =
    split-append c p (join c q qs) h ∙ ap (◌∷◌ p) (split-join c q qs hs)

pub split-ne-nil : (s : Text) (c : ℕ) → split s (c ∷ []) ≢ []
unfolding split
split-ne-nil [] c = cc
split-ne-nil (x ∷ xs) c = ground (arith, split-ne-nil xs c)
