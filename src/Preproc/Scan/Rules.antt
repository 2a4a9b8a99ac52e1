-- ===== src/Preproc/Scan/Rules.antt =====
-- Rules for what the handlers of `Parse` keep: for `then`, for a test, for the loop over the
-- candidates of `:=`, and for the case of an identifier.
use mathlib.Core.Path.{subst}
use noted_runner.Prelude.{
  ℕ, ◌≡◌, refl, Bool, List, [], ◌∷◌, ◌++◌, Text, Outcome, ok, err, panic, or_panic, if◌then◌else◌,
  true, false, Bool-cases, inl, inr, sym,
}
use noted_runner.Preproc.Block.{Block, mark, var_decl}
use noted_runner.Preproc.Tools.{Token}
use noted_runner.Preproc.Scan.{
  Candidate, State, line_at, mark_candidates, Result, done, ◌then◌, on_ident, name_func, name_type,
  signature_ident, type_ident, declared_ident, reused_ident,
}

abbrev pub marked : ℕ → Text → State → State
marked line name s =
    let b = (mark line var_decl s.block).1 in
    record s { block = record b { vnames = b.vnames ++ name ∷ [] } }

module _ {κ} (P : State → Type κ) (line : ℕ) where
  pub after_piece :
      (m : Outcome Text) (f : Text → Outcome Text × State) (s : State)
      → P s
      → ((p : Text) → P (f p).1)
      → P
          (elim m as (λ _. Outcome Text × State) [
            | ok p ↦ f p
            | err e ↦ (err e, s)
            | panic ↦ (panic, s)
          ]).1
  after_piece (ok p) f s h k = k p
  after_piece (err e) f s h k = h
  after_piece panic f s h k = h

  pub mark_candidates_inv :
      (lines : List Text) (cs : List Candidate) (total : Text) (s : State)
      → ((name : Text) (u : State) → P u → P (marked line name u))
      → P s
      → P (mark_candidates lines line cs total s).1
  unfolding mark_candidates
  mark_candidates_inv lines [] total s keep h = h
  mark_candidates_inv lines (c ∷ cs) total s keep h =
      after_piece
        (if (mark line var_decl s.block).0 then or_panic (line_at lines c.line) else ok [])
        (λ p. mark_candidates lines line cs (total ++ p) (marked line c.name s))
        (marked line c.name s) (keep c.name s h)
        (λ p.
          mark_candidates_inv lines cs (total ++ p) (marked line c.name s) keep (keep c.name s h))

module _ {κ} (P : State → Type κ) where
  pub then_inv :
      (r : Result) (f : State → Result) → P r.1 → ((s : State) → P s → P (f s).1) → P (r then f).1
  then_inv (ok _, s) f h k = k s h
  then_inv (err e, s) f h k = h
  then_inv (panic, s) f h k = h

  pub if_inv : (b : Bool) (r q : Result) → P r.1 → P q.1 → P (if b then r else q).1
  if_inv true r q h k = h
  if_inv false r q h k = k

  pub if_state_inv : (b : Bool) (s u : State) → P s → P u → P (if b then s else u)
  if_state_inv true s u h k = h
  if_state_inv false s u h k = k

  pub on_ident_inv :
      (k : Token) (s : State)
      → (s.last_was_func_keyword ≡ true → P (name_func k s))
      → P (name_type k s)
      → P (signature_ident k s).1
      → ((u : State) → P u → P (type_ident k u).1)
      → ((u : State) → P u → P (declared_ident k u).1)
      → ((u : State) → P u → P (reused_ident k u).1)
      → P (on_ident k s).1
  unfolding on_ident
  on_ident_inv k s named typed sig in_type declared reused =
      elim (Bool-cases s.last_was_func_keyword) [
        | inl e ↦ subst (λ b. P (if b then done (name_func k s) else rest).1) (sym e) (named e)
        | inr e ↦ subst (λ b. P (if b then done (name_func k s) else rest).1) (sym e) other
      ]
    where
      typed_part : Result
      typed_part = signature_ident k s then type_ident k

      declared_part : Result
      declared_part = typed_part then declared_ident k

      rest : Result
      rest =
          if s.last_was_type_keyword
          then done (name_type k s)
          else (declared_part then reused_ident k)

      other : P rest.1
      other =
          if_inv s.last_was_type_keyword (done (name_type k s)) (declared_part then reused_ident k)
            typed
            (then_inv declared_part (reused_ident k)
              (then_inv typed_part (declared_ident k)
                (then_inv (signature_ident k s) (type_ident k) sig in_type) declared)
              reused)

-- a state that is reached without an error has the property
abbrev pub OnSuccess {κ} : (State → Type κ) → Result → Type κ
OnSuccess P (ok _, s) = P s
OnSuccess P (err e, s) = Unit
OnSuccess P (panic, s) = Unit

module _ {κ} (P : State → Type κ) where
  pub OnSuccess-then {ν} :
      (Q : State → Type ν) (r : Result) (f : State → Result)
      → OnSuccess Q r
      → ((s : State) → Q s → OnSuccess P (f s))
      → OnSuccess P (r then f)
  OnSuccess-then Q (ok _, s) f h k = k s h
  OnSuccess-then Q (err e, s) f h k = tt
  OnSuccess-then Q (panic, s) f h k = tt

  pub OnSuccess-always : (r : Result) → P r.1 → OnSuccess P r
  OnSuccess-always (ok _, s) h = h
  OnSuccess-always (err e, s) h = tt
  OnSuccess-always (panic, s) h = tt

  pub OnSuccess-equation : (r : Result) → ((s : State) → r ≡ done s → P s) → OnSuccess P r
  OnSuccess-equation (ok _, s) h = h s refl
  OnSuccess-equation (err e, s) h = tt
  OnSuccess-equation (panic, s) h = tt

  pub OnSuccess-if :
      (b : Bool) (r q : Result)
      → (b ≡ true → OnSuccess P r)
      → (b ≡ false → OnSuccess P q)
      → OnSuccess P (if b then r else q)
  OnSuccess-if true r q h k = h refl
  OnSuccess-if false r q h k = k refl

  pub OnSuccess-both {ν} :
      (Q : State → Type ν) (r : Result) → OnSuccess P r → Q r.1 → OnSuccess (λ s. P s × Q s) r
  OnSuccess-both Q (ok _, s) h k = (h, k)
  OnSuccess-both Q (err e, s) h k = tt
  OnSuccess-both Q (panic, s) h k = tt

pub OnSuccess-map {κ ν} :
    (P : State → Type κ) (Q : State → Type ν) (r : Result)
    → ((s : State) → P s → Q s)
    → OnSuccess P r
    → OnSuccess Q r
OnSuccess-map P Q (ok _, s) f h = f s h
OnSuccess-map P Q (err e, s) f h = tt
OnSuccess-map P Q (panic, s) f h = tt

pub if_block {κ} :
    (P : Block → Type κ) (b : Bool) (c d : Block) → P c → P d → P (if b then c else d)
if_block P true c d h k = h
if_block P false c d h k = k
