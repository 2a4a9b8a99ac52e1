-- ===== src/Effects.antt =====
-- Go code that calls the world outside: an action may fail or panic, and what it has changed stays
-- changed.
use noted_runner.Prelude.{◌≡◌, ◌≢◌, refl, subst, Text, Outcome, ok, err, panic}

abbrev pub Effect : Type 0 → Type 0 → Type 0
Effect W A = W → Outcome A × W

unfoldable pub proceed : {W A B : Type 0} → Outcome A × W → (A → Effect W B) → Outcome B × W
proceed (ok a, w) f = f a w
proceed (err x, w) f = (err x, w)
proceed (panic, w) f = (panic, w)

infixl 5 ◌>>=◌
abbrev pub ◌>>=◌ : {W A B : Type 0} → Effect W A → (A → Effect W B) → Effect W B
◌>>=◌ m f w = proceed (m w) f

-- a computed outcome, which changes nothing
unfoldable pub given : {W A : Type 0} → Outcome A → Effect W A
given r w = (r, w)

pub proceed-ok :
    {W A B : Type 0} (r : Outcome A × W) (f : A → Effect W B) (a : A)
    → r.0 ≡ ok a
    → proceed r f ≡ f a r.1
unfolding proceed
proceed-ok (ok b, w) f a e = cc
proceed-ok (err x, w) f a e = cc
proceed-ok (panic, w) f a e = cc

-- what is returned, where something is, has the property
unfoldable pub Returns : {W A : Type 0} → (A → Type 0) → Outcome A × W → Type 0
Returns P (ok a, w) = P a
Returns P (err x, w) = Unit {0}
Returns P (panic, w) = Unit {0}

pub Returns-proceed :
    {W A B : Type 0} (P : B → Type 0) (r : Outcome A × W) (f : A → Effect W B)
    → ((a : A) (u : W) → r ≡ (ok a, u) → Returns P (f a u))
    → Returns P (proceed r f)
unfolding proceed Returns
Returns-proceed P (ok a, w) f p = p a w refl
Returns-proceed P (err x, w) f p = tt
Returns-proceed P (panic, w) f p = tt

pub Returns-given :
    {W A : Type 0} (P : A → Type 0) (a : A) (w : W) → P a → Returns P (given (ok a) w)
unfolding given Returns
Returns-given P a w p = p

pub Returns-ok :
    {W A : Type 0} (P : A → Type 0) (r : Outcome A × W) (a : A) (w : W)
    → Returns P r
    → r ≡ (ok a, w)
    → P a
unfolding Returns
Returns-ok P r a w p e = subst (Returns P) e p

-- a step that changes nothing and reports no error
pub panic-proceed :
    {W A B : Type 0} (r : Outcome A) (w : W) (f : A → Effect W B)
    → ((x : Text) → r ≢ err x)
    → ((a : A) → r ≡ ok a → (f a w).0 ≡ panic)
    → (proceed (r, w) f).0 ≡ panic
unfolding proceed
panic-proceed (ok a) w f sound p = p a refl
panic-proceed (err x) w f sound p = absurd (sound x refl)
panic-proceed panic w f sound p = refl
