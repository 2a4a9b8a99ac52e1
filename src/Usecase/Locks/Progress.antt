-- ===== src/Usecase/Locks/Progress.antt =====
-- No run of a block waits for ever.
use noted_runner.Prelude.{
  ℕ, zero, suc, ◌+◌, ◌<◌, ◌≤◌, ◌≡◌, ◌≢◌, refl, sym, ◌∙◌, ap, arith, Bool, true, false, List, [],
  ◌∷◌, ◌++◌, ◌==◌, Text, All, All-middle, Bool-cases, inl, inr,
}
use noted_runner.Usecase.Locks.{
  Run, waiting, holding, inside, Locks, unlock, Step, start_kernel, call, lock, defer_unlock, leave,
  Reach, further,
}
use noted_runner.Usecase.Locks.Exclusion.{Inv, Fits, Once, holds, holders, Reach-Inv}

-- the steps that a run has before it
unfoldable pub work_of : Run → ℕ
work_of (waiting key m) = 3
work_of (holding key m) = 2
work_of (inside key m d) = 1

unfoldable pub work : List Run → ℕ
unfolding work_of
work [] = 0
work (r ∷ rs) = work_of r + work rs

work-middle :
    (before : List Run) (r : Run) (after : List Run)
    → work (before ++ r ∷ after) ≡ work (before ++ after) + work_of r
unfolding work
work-middle [] r after = omega arith
work-middle (x ∷ before) r after = omega (arith, work-middle before r after)

-- a run stands in the list
At : List Run → Run → Type 0
At rs r = (before : List Run) × (after : List Run) × (rs ≡ before ++ r ∷ after)

At-cons : (x : Run) (rs : List Run) (r : Run) → At rs r → At (x ∷ rs) r
unfolding At
At-cons x rs r (before, after, e) = (x ∷ before, after, ap (λ l. x ∷ l) e)

-- who holds a mutex
a_holder : (m : ℕ) (rs : List Run) → 0 < holders m rs → (r : Run) × At rs r × (0 < holds m r)
unfolding holders At
a_holder m [] some_one = absurd (omega (arith, some_one))
a_holder m (r ∷ rs) some_one = elim (Bool-cases (holds m r == 0)) [
  | inl idle ↦
      let (t, place, p) = a_holder m rs (ground (arith, some_one, idle)) in
      (t, At-cons r rs t place, p)
  | inr busy ↦ (r, ([], rs, refl), ground (arith, busy))
]

-- The steps of the runs under way: all but those that begin a call of `StartKernel` or `RunBlock`.
abbrev pub is_own : {s t : Locks} {keys : List Text} → Step s keys t → Bool
is_own (start_kernel key) = false
is_own (call key m e) = false
is_own (lock before key m after e free) = true
is_own (defer_unlock before key m d after e found) = true
is_own (leave before key m d after e) = true

Goes : Locks → Type 0
Goes s = (t : Locks) × (st : Step s [] t) × (is_own st ≡ true)

-- a run that has passed Lock goes on
holder-Goes :
    (s : Locks) (m : ℕ) (r : Run)
    → All (Fits s.kernel_muxes) s.runs
    → At s.runs r
    → 0 < holds m r
    → Goes s
unfolding At Goes Fits holds
holder-Goes s m (waiting key n) fits place p = absurd (omega (arith, p))
holder-Goes s m (holding key n) fits (before, after, e) p =
    let (fit, rest) =
      All-middle (Fits s.kernel_muxes) before (holding key n) after (rw e at fits) in
    (_, defer_unlock before key n n after e fit, refl)
holder-Goes s m (inside key n d) fits (before, after, e) p = (_, leave before key n d after e, refl)

lock-Goes :
    (s : Locks) (key : Text) (m : ℕ) → s.locked m ≡ false → At s.runs (waiting key m) → Goes s
unfolding At Goes
lock-Goes s key m free (before, after, e) = (_, lock before key m after e free, refl)

run-Goes : (h : List Text) (s : Locks) (r : Run) → Inv h s → At s.runs r → Goes s
unfolding holds
run-Goes h s (waiting key m) i place = elim (Bool-cases (s.locked m)) [
  | inl taken ↦
      let (r, at, p) = a_holder m s.runs (ground (arith, i.held m, taken)) in
      holder-Goes s m r i.fits at p
  | inr free ↦ lock-Goes s key m free place
]
run-Goes h s (holding key m) i place = holder-Goes s m (holding key m) i.fits place (ground arith)
run-Goes h s (inside key m d) i place = holder-Goes s m (inside key m d) i.fits place (ground arith)

false_ne_true : false ≢ true
false_ne_true e = cc

cons_ne_nil : {x : Run} {rs : List Run} → (x ∷ rs) ≢ []
cons_ne_nil e = cc

some_run : (rs : List Run) → rs ≢ [] → (r : Run) × At rs r
unfolding At
some_run [] full = absurd (full refl)
some_run (r ∷ rs) full = (r, ([], rs, refl))

own-work : {s t : Locks} (st : Step s [] t) → is_own st ≡ true → work t.runs + 1 ≤ work s.runs
unfolding work_of unlock
own-work (call key m e) own = absurd (false_ne_true own)
own-work (lock before key m after e free) own = omega (
  arith,
  work-middle before (waiting key m) after,
  work-middle before (holding key m) after,
  ap work e,
)
own-work (defer_unlock before key m d after e found) own = omega (
  arith,
  work-middle before (holding key m) after,
  work-middle before (inside key m d) after,
  ap work e,
)
own-work (leave before key m d after e) own =
    ground (arith, work-middle before (inside key m d) after, ap work e)

-- What the runs of a state come to in a number of steps of their own, in any order.
pub data Continues (s : Locks) : ℕ → Locks → Type 0 where
  so_far : Continues s 0 s
  one_more :
      {n : ℕ} {t u : Locks}
      → Continues s n t
      → (st : Step t [] u) → is_own st ≡ true
      → Continues s (n + 1) u

Continues-Reach : {h : List Text} {s t : Locks} {n : ℕ} → Reach h s → Continues s n t → Reach h t
Continues-Reach r so_far = r
Continues-Reach r (one_more c st own) = further (Continues-Reach r c) st

Continues-work : {s t : Locks} {n : ℕ} → Continues s n t → n + work t.runs ≤ work s.runs
Continues-work so_far = omega arith
Continues-work (one_more c st own) = omega (arith, Continues-work c, own-work st own)

-- What becomes of the runs under way when no call begins.
pub record Drains (s : Locks) : Type 0 where
  -- however they interleave, they take a bounded number of steps
  pub bounded : {n : ℕ} {t : Locks} → Continues s n t → n + work t.runs ≤ work s.runs
  -- while a run is left, some run can take a step
  pub unstuck :
      {n : ℕ} {t : Locks} → Continues s n t → t.runs ≢ [] → (u : Locks) × Continues s (n + 1) u
  -- and they can all return
  pub all_return : (n : ℕ) × (t : Locks) × Continues s n t × (t.runs ≡ [])

module _ {h : List Text} {s : Locks} (r : Reach h s) (once : Once h) where
  goes_on :
      {n : ℕ} {t : Locks} → Continues s n t → t.runs ≢ [] → (u : Locks) × Continues s (n + 1) u
  unfolding Goes
  goes_on {t = t} c full =
      let (x, place) = some_run t.runs full in
      let (u, st, own) = run-Goes h t x (Reach-Inv (Continues-Reach r c) once) place in
      (u, one_more c st own)

  returns_within :
      (left : ℕ) {n : ℕ} {t : Locks} (rs : List Run)
      → t.runs ≡ rs
      → Continues s n t
      → work s.runs < n + left
      → (m : ℕ) × (v : Locks) × Continues s m v × (v.runs ≡ [])
  returns_within left {n} {t} [] e c enough = (n, t, c, e)
  returns_within zero (x ∷ rs) e c enough = absurd (omega (arith, Continues-work c, enough))
  returns_within (suc left) (x ∷ rs) e c enough =
      let (u, further_on) = goes_on c (λ none_left. cons_ne_nil (sym e ∙ none_left)) in
      returns_within left u.runs refl further_on (omega (arith, enough))

-- Where no kernel is started twice, the runs of blocks that are under way in a reachable state drain when
-- no call begins: in every order they take at most as many steps as they have left, which is one to
-- three for each; while a run is left, some run can take its next step, so that the mutexes never lock the runs out, and there is an
-- order in which all of them return. What a run does between Lock and Unlock is here part of one step,
-- which is taken to end.
pub Reach-Drains : {h : List Text} {s : Locks} → Reach h s → Once h → Drains s
Reach-Drains {s = s} r once = record {
  bounded = λ c. Continues-work c;
  unstuck = λ c full. goes_on r once c full;
  all_return = returns_within r once (work s.runs + 1) s.runs refl so_far (omega arith);
}
