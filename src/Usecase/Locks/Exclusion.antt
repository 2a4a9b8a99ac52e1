-- ===== src/Usecase/Locks/Exclusion.antt =====
-- Mutual exclusion of the runs of a kernel, and how it is lost.
use noted_runner.Prelude.{
  ℕ, ◌+◌, ◌≤◌, ◌<◌, ◌≡◌, refl, sym, ◌∙◌, arith, Bool, true, false, none, some, List, [], ◌∷◌, ◌++◌,
  ◌==◌, if◌then◌else◌, Text, text_eq, text_eq_iff, contains, lookup, insert, lookup-insert, All,
  All-append, All-middle, Bool-cases, Option-cases, inl, inr,
}
use noted_runner.Usecase.Locks.{
  Run, waiting, holding, inside, Locks, set_locked, new_mutex, unlock, Step, start_kernel, call,
  lock, defer_unlock, leave, no_locks, Reach, none_yet, further,
}

-- how often a run holds the mutex
unfoldable pub holds : ℕ → Run → ℕ
holds m (waiting key n) = 0
holds m (holding key n) = if n == m then 1 else 0
holds m (inside key n d) = if n == m then 1 else 0

unfoldable pub holders : ℕ → List Run → ℕ
unfolding holds
holders m [] = 0
holders m (r ∷ rs) = holds m r + holders m rs

holders-append : (m : ℕ) (rs ts : List Run) → holders m (rs ++ ts) ≡ holders m rs + holders m ts
unfolding holders
holders-append m [] ts = omega arith
holders-append m (r ∷ rs) ts = omega (arith, holders-append m rs ts)

-- A run has the mutex of its key.
unfoldable pub Fits : List (Text × ℕ) → Run → Type 0
Fits muxes (waiting key m) = lookup key muxes ≡ some m
Fits muxes (holding key m) = lookup key muxes ≡ some m
Fits muxes (inside key m d) = (lookup key muxes ≡ some m) × (d ≡ m)

pub record Inv (h : List Text) (s : Locks) : Type 0 where
  no_fatal : s.fatal ≡ false
  unstarted : (key : Text) → contains key h ≡ false → lookup key s.kernel_muxes ≡ none
  bounded : (key : Text) (m : ℕ) → lookup key s.kernel_muxes ≡ some m → m < s.allocated
  free_above : (m : ℕ) → s.allocated ≤ m → s.locked m ≡ false
  pub fits : All (Fits s.kernel_muxes) s.runs
  pub held : (m : ℕ) → holders m s.runs ≡ (if s.locked m then 1 else 0)

-- no kernel is started twice
unfoldable pub Once : List Text → Type 0
Once [] = Unit {0}
Once (key ∷ h) = (contains key h ≡ false) × Once h

kept :
    (key : Text) (n : ℕ) (muxes : List (Text × ℕ)) (k : Text) (m : ℕ)
    → lookup key muxes ≡ none
    → lookup k muxes ≡ some m
    → lookup k (insert key n muxes) ≡ some m
kept key n muxes k m fresh e = ground (arith, text_eq_iff key k, lookup-insert key k n muxes)

Fits-insert :
    (key : Text) (n : ℕ) (muxes : List (Text × ℕ)) (r : Run)
    → lookup key muxes ≡ none
    → Fits muxes r
    → Fits (insert key n muxes) r
unfolding Fits
Fits-insert key n muxes (waiting k m) fresh p = kept key n muxes k m fresh p
Fits-insert key n muxes (holding k m) fresh p = kept key n muxes k m fresh p
Fits-insert key n muxes (inside k m d) fresh (p, q) = (kept key n muxes k m fresh p, q)

All-Fits-insert :
    (key : Text) (n : ℕ) (muxes : List (Text × ℕ)) (rs : List Run)
    → lookup key muxes ≡ none
    → All (Fits muxes) rs
    → All (Fits (insert key n muxes)) rs
All-Fits-insert key n muxes [] fresh ps = tt
All-Fits-insert key n muxes (r ∷ rs) fresh (p, ps) =
    (Fits-insert key n muxes r fresh p, All-Fits-insert key n muxes rs fresh ps)

new_mutex-Inv :
    (h : List Text) (s : Locks) (key : Text)
    → contains key h ≡ false
    → Inv h s
    → Inv (key ∷ h) (new_mutex key s)
unfolding new_mutex contains
new_mutex-Inv h s key once i =
    let fresh = i.unstarted key once in
    record {
      no_fatal = i.no_fatal;
      unstarted =
          λ k e. ground (arith, lookup-insert key k s.allocated s.kernel_muxes, i.unstarted k);
      bounded =
          λ k m e. ground (arith, lookup-insert key k s.allocated s.kernel_muxes, i.bounded k m);
      free_above = λ m above. i.free_above m (omega (arith, above));
      fits = All-Fits-insert key s.allocated s.kernel_muxes s.runs fresh i.fits;
      held = i.held;
    }

holders-middle :
    (m : ℕ) (before : List Run) (r : Run) (after : List Run)
    → holders m (before ++ r ∷ after) ≡ holders m (before ++ after) + holds m r
unfolding holders
holders-middle m before r after =
    omega (arith, holders-append m before (r ∷ after), holders-append m before after)

All-replace :
    (P : Run → Type 0) (before : List Run) (r t : Run) (after : List Run)
    → All P (before ++ r ∷ after)
    → P t
    → All P (before ++ t ∷ after)
All-replace P [] r t after (p, ps) q = (q, ps)
All-replace P (x ∷ before) r t after (p, ps) q = (p, All-replace P before r t after ps q)

call-Inv :
    (h : List Text) (s : Locks) (key : Text) (m : ℕ)
    → lookup key s.kernel_muxes ≡ some m
    → Inv h s
    → Inv h (record s { runs = s.runs ++ waiting key m ∷ [] })
unfolding Fits holders holds
call-Inv h s key m e i = record {
  no_fatal = i.no_fatal;
  unstarted = i.unstarted;
  bounded = i.bounded;
  free_above = i.free_above;
  fits = All-append (Fits s.kernel_muxes) s.runs (waiting key m ∷ []) i.fits (e, tt);
  held = λ n. omega (arith, holders-append n s.runs (waiting key m ∷ [])) ∙ i.held n;
}

lock-Inv :
    (h : List Text) (s : Locks) (before : List Run) (key : Text) (m : ℕ) (after : List Run)
    → s.runs ≡ before ++ waiting key m ∷ after
    → s.locked m ≡ false
    → Inv h s
    → Inv h
        (record s { locked = set_locked m true s.locked; runs = before ++ holding key m ∷ after })
unfolding set_locked Fits holds
lock-Inv h s before key m after e free i =
    let fits = rw e at i.fits in
    let fit = (All-middle (Fits s.kernel_muxes) before (waiting key m) after fits).0 in
    record {
      no_fatal = i.no_fatal;
      unstarted = i.unstarted;
      bounded = i.bounded;
      free_above = λ n above. ground (arith, i.free_above n above, i.bounded key m fit, above);
      fits =
          All-replace (Fits s.kernel_muxes) before (waiting key m) (holding key m) after fits fit;
      held = λ n.
          let old = rw e at i.held n in
          ground (
            arith,
            old,
            free,
            holders-middle n before (waiting key m) after,
            holders-middle n before (holding key m) after,
          );
    }

defer-Inv :
    (h : List Text) (s : Locks) (before : List Run) (key : Text) (m d : ℕ) (after : List Run)
    → s.runs ≡ before ++ holding key m ∷ after
    → lookup key s.kernel_muxes ≡ some d
    → Inv h s
    → Inv h (record s { runs = before ++ inside key m d ∷ after })
unfolding Fits holds
defer-Inv h s before key m d after e has i =
    let fits = rw e at i.fits in
    let fit = (All-middle (Fits s.kernel_muxes) before (holding key m) after fits).0 in
    record {
      no_fatal = i.no_fatal;
      unstarted = i.unstarted;
      bounded = i.bounded;
      free_above = i.free_above;
      fits =
          All-replace (Fits s.kernel_muxes) before (holding key m) (inside key m d) after fits
            (fit, cc);
      held = λ n.
          holders-middle n before (inside key m d) after
          ∙ sym (holders-middle n before (holding key m) after)
          ∙ (rw e at i.held n);
    }

unlock-Inv :
    (h : List Text) (s : Locks) (before : List Run) (key : Text) (m d : ℕ) (after : List Run)
    → s.runs ≡ before ++ inside key m d ∷ after
    → Inv h s
    → Inv h (unlock d (record s { runs = before ++ after }))
unfolding unlock set_locked Fits holds
unlock-Inv h s before key m d after e i =
    let (fit, rest) =
      All-middle (Fits s.kernel_muxes) before (inside key m d) after (rw e at i.fits) in
    let own = rw e at i.held m in
    let is_locked : s.locked d ≡ true = ground (
      arith,
      own,
      fit.1,
      holders-middle m before (inside key m d) after,
      Bool-cases (s.locked m),
    ) in
    rw is_locked (record {
      no_fatal = i.no_fatal;
      unstarted = i.unstarted;
      bounded = i.bounded;
      free_above = λ n above. ground (arith, i.free_above n above);
      fits = rest;
      held = λ n.
          let old = rw e at i.held n in
          ground (arith, old, is_locked, fit.1, holders-middle n before (inside key m d) after);
    })

Once-earlier :
    {s t : Locks} {keys : List Text} (h : List Text) → Step s keys t → Once (keys ++ h) → Once h
unfolding Once
Once-earlier h (start_kernel key) (fresh, once) = once
Once-earlier h (call key m e) once = once
Once-earlier h (lock before key m after e free) once = once
Once-earlier h (defer_unlock before key m d after e has) once = once
Once-earlier h (leave before key m d after e) once = once

Step-Inv :
    {s t : Locks} {keys h : List Text}
    → Step s keys t
    → Once (keys ++ h)
    → Inv h s
    → Inv (keys ++ h) t
unfolding Once
Step-Inv {s} {h = h} (start_kernel key) (fresh, once) i = new_mutex-Inv h s key fresh i
Step-Inv {s} {h = h} (call key m e) once i = call-Inv h s key m e i
Step-Inv {s} {h = h} (lock before key m after e free) once i =
    lock-Inv h s before key m after e free i
Step-Inv {s} {h = h} (defer_unlock before key m d after e has) once i =
    defer-Inv h s before key m d after e has i
Step-Inv {s} {h = h} (leave before key m d after e) once i = unlock-Inv h s before key m d after e i

pub Reach-Inv : {h : List Text} {s : Locks} → Reach h s → Once h → Inv h s
unfolding no_locks holders lookup
Reach-Inv none_yet once = record {
  no_fatal = refl;
  unstarted = λ key e. refl;
  bounded = λ key m e. cc;
  free_above = λ m above. refl;
  fits = tt;
  held = λ m. refl;
}
Reach-Inv (further {history = h} r st) once =
    Step-Inv st once (Reach-Inv r (Once-earlier h st once))

-- the runs of the key that have passed Lock
unfoldable pub is_active : Text → Run → Bool
is_active key (waiting k m) = false
is_active key (holding k m) = text_eq k key
is_active key (inside k m d) = text_eq k key

unfoldable pub active : Text → List Run → ℕ
unfolding is_active
active key [] = 0
active key (r ∷ rs) = (if is_active key r then 1 else 0) + active key rs

active-holders :
    (muxes : List (Text × ℕ)) (key : Text) (m : ℕ) (rs : List Run)
    → lookup key muxes ≡ some m
    → All (Fits muxes) rs
    → active key rs ≤ holders m rs
unfolding active is_active holders holds Fits
active-holders muxes key m [] e ps = omega arith
active-holders muxes key m (waiting k n ∷ rs) e (p, ps) =
    omega (arith, active-holders muxes key m rs e ps)
active-holders muxes key m (holding k n ∷ rs) e (p, ps) =
    ground (arith, text_eq_iff k key, active-holders muxes key m rs e ps)
active-holders muxes key m (inside k n d ∷ rs) e (p, ps) =
    ground (arith, text_eq_iff k key, active-holders muxes key m rs e ps)

active-none :
    (muxes : List (Text × ℕ)) (key : Text) (rs : List Run)
    → lookup key muxes ≡ none
    → All (Fits muxes) rs
    → active key rs ≡ 0
unfolding active is_active Fits
active-none muxes key [] e ps = refl
active-none muxes key (waiting k n ∷ rs) e (p, ps) = omega (arith, active-none muxes key rs e ps)
active-none muxes key (holding k n ∷ rs) e (p, ps) =
    ground (arith, text_eq_iff k key, active-none muxes key rs e ps)
active-none muxes key (inside k n d ∷ rs) e (p, ps) =
    ground (arith, text_eq_iff k key, active-none muxes key rs e ps)

-- Where no kernel is started twice, at most one run of each kernel has passed its Lock and not
-- returned, in every interleaving of the calls, and no mutex is ever unlocked that is not locked.
pub Reach-active :
    {h : List Text} {s : Locks}
    → Reach h s
    → Once h
    → (s.fatal ≡ false) × ((key : Text) → active key s.runs ≤ 1)
Reach-active {s = s} r once =
    let i = Reach-Inv r once in
    (
      i.no_fatal,
      λ key. elim (Option-cases (lookup key s.kernel_muxes)) [
        | inl missing ↦ omega (arith, active-none s.kernel_muxes key s.runs missing i.fits)
        | inr (m, has) ↦
            ground (arith, active-holders s.kernel_muxes key m s.runs has i.fits, i.held m)
      ],
    )
