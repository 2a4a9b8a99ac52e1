-- ===== src/Random.antt =====
-- internal/rnd/rnd.go: random strings. The generator of math/rand is no part of the repository:
-- `int_n` is a parameter, over the state `W` of the generator.
use noted_runner.Prelude.{
  Bool, true, ◌&&◌, ◌||◌, leb, ap, ◌∙◌, ℕ, zero, suc, ◌<◌, ◌≡◌, refl, arith, some, List, [], ◌∷◌,
  length, get_elem?, All, Text, ascii, ok, or_panic,
}
use noted_runner.Effects.{Effect, ◌>>=◌, given, proceed-ok}

-- `byteChoice`
abbrev pub byte_choice : Text
byte_choice = ascii "abcdefghijklmnopqrstuvwxyzABCDEFGHIJKLMNOPQRSTUVWXYZ0123456789"

-- letters and digits
unfoldable is_alnum : ℕ → Bool
is_alnum b = (leb 97 b && leb b 122) || (leb 65 b && leb b 90) || (leb 48 b && leb b 57)

pub IsAlnum : ℕ → Type 0
IsAlnum b = is_alnum b ≡ true

unfoldable all_alnum : Text → Bool
unfolding is_alnum
all_alnum [] = true
all_alnum (x ∷ xs) = is_alnum x && all_alnum xs

all_alnum-All : (xs : Text) → all_alnum xs ≡ true → All IsAlnum xs
unfolding all_alnum IsAlnum
all_alnum-All [] e = tt
all_alnum-All (x ∷ xs) e = (ground (arith, e), all_alnum-All xs (ground (arith, e)))

get_elem?-All :
    (P : ℕ → Type 0) (xs : List ℕ) (i : ℕ)
    → All P xs
    → i < length xs
    → (x : ℕ) × (get_elem? xs i ≡ some x) × P x
get_elem?-All P [] i ps i< = absurd (omega (arith, i<))
get_elem?-All P (x ∷ xs) zero (p, ps) i< = (x, refl, p)
get_elem?-All P (x ∷ xs) (suc i) (p, ps) i< = get_elem?-All P xs i ps (omega (arith, i<))

byte_choice-IsAlnum : All IsAlnum byte_choice
unfolding all_alnum is_alnum
byte_choice-IsAlnum = all_alnum-All byte_choice refl

module _ {W : Type 0} (int_n : ℕ → W → ℕ × W) where
  -- `byteChoice[unsafeRand.IntN(len(byteChoice))]`
  unfoldable pub choose : Effect W ℕ
  choose w = let (i, v) = int_n (length byte_choice) w in (or_panic (get_elem? byte_choice i), v)

  -- the loop over the positions
  unfoldable pub not_safe_gen_random_string : ℕ → Effect W Text
  unfolding choose given
  not_safe_gen_random_string zero = given (ok [])
  not_safe_gen_random_string (suc n) = do
    b ← choose
    rest ← not_safe_gen_random_string n
    given (ok (b ∷ rest))

  module _ (int_n-lt : (n : ℕ) (w : W) → 0 < n → (int_n n w).0 < n) where
    -- Where IntN returns a number below its argument, the string has the length that is asked for,
    -- and all its bytes are letters and digits; the index is never out of range.
    pub not_safe_gen_random_string-IsAlnum :
        (n : ℕ) (w : W)
        → (s : Text) × ((not_safe_gen_random_string n w).0 ≡ ok s) × (length s ≡ n) × All IsAlnum s
    unfolding not_safe_gen_random_string choose
    not_safe_gen_random_string-IsAlnum zero w = ([], refl, refl, tt)
    not_safe_gen_random_string-IsAlnum (suc n) w =
        let (b, got, b-IsAlnum) =
          get_elem?-All IsAlnum byte_choice _ byte_choice-IsAlnum
            (int_n-lt (length byte_choice) w (omega arith)) in
        let v = (int_n (length byte_choice) w).1 in
        let (s, made, measured, s-IsAlnum) = not_safe_gen_random_string-IsAlnum n v in
        (
          b ∷ s,
          ap (λ r. r.0)
              (proceed-ok (choose w) _ b (ap or_panic got)
                ∙ proceed-ok (not_safe_gen_random_string n v) _ s made),
          ap suc measured,
          (b-IsAlnum, s-IsAlnum),
        )
