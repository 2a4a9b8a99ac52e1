-- ===== src/Preproc/Scan/Reused.antt =====
-- internal/preproc/preproc.go: the names of earlier blocks that `Parse` finds in a block.
use noted_runner.Prelude.{
  ◌≡◌, Bool, true, ◌||◌, List, [], ◌∷◌, arith, Text, ok, ◌∙◌, ascii, contains, has_key, ap,
}
use noted_runner.Strings.{split}
use noted_runner.Preproc.Tools.{Token, Tools}
use noted_runner.Preproc.Block.{Block}
use noted_runner.Preproc.Scan.{State, start, step, run, parse}
use noted_runner.Preproc.Scan.Rules.{OnSuccess, OnSuccess-then, OnSuccess-both, OnSuccess-map}
use noted_runner.Preproc.Scan.Known.{Grows, Extends, Extends-refl, Grows-step}
use noted_runner.Preproc.Scan.Finish.{finish-ok}
use noted_runner.Preproc.Scan.Mentions.{due_after, is_mention, mentions, no_due}
use noted_runner.Preproc.Scan.Quiet.{due_of}
use noted_runner.Preproc.Scan.Lists.{Lists, step-Lists}

-- The names that are known in front of the tokens and the mentions of them, and those that are listed.
pub record AllListed (x : Text) (ks : List Token) (s u : State) : Type 0 where
  pub vars :
      has_key x s.block.types.vars ≡ true
      → contains x u.block.reused_vars
        ≡ (contains x s.block.reused_vars || mentions x (due_of s) ks)
  pub funcs :
      has_key x s.block.types.funcs ≡ true
      → contains x u.block.reused_funcs
        ≡ (contains x s.block.reused_funcs || mentions x (due_of s) ks)

module _ (x : Text) (t : Tools) (lines : List Text) where
  AllListed-cons :
      (k : Token) (ks : List Token) (s u v : State)
      → Lists x k s u
      → Extends s.block.types u.block.types
      → AllListed x ks u v
      → AllListed x (k ∷ ks) s v
  unfolding mentions
  AllListed-cons k ks s u v l g a = record {
    vars = λ h. found_by _ _ _ _ (g.vars x h) (l.vars h) a.vars;
    funcs = λ h. found_by _ _ _ _ (g.funcs x h) (l.funcs h) a.funcs;
  }
    where
      found_by :
          (known before between after : Bool)
          → known ≡ true
          → between ≡ (before || is_mention x k.tok k.lit (due_of s))
          → (known ≡ true → after ≡ (between || mentions x (due_of u) ks))
          → after ≡ (
              before
              || (is_mention x k.tok k.lit (due_of s)
                  || mentions x (due_after k.tok (due_of s)) ks))
      found_by known before between after h e rest =
          ground (arith, rest h, ap (λ d. mentions x d ks) l.due)

  run-AllListed : (ks : List Token) (s : State) → OnSuccess (AllListed x ks s) (run t lines ks s)
  unfolding run mentions
  run-AllListed [] s = record { vars = λ h. ground arith; funcs = λ h. ground arith }
  run-AllListed (k ∷ ks) s =
      OnSuccess-then (AllListed x (k ∷ ks) s)
        (λ u. Lists x k s u × Extends s.block.types u.block.types) (step t lines k s)
        (run t lines ks)
        (OnSuccess-both (Lists x k s) (Grows s.block.types) (step t lines k s)
          (step-Lists x k s t lines)
          (Grows-step s.block.types t lines k s (Extends-refl s.block.types)))
        (λ u b.
          OnSuccess-map (AllListed x ks u) (AllListed x (k ∷ ks) s) (run t lines ks u)
            (λ v a. AllListed-cons k ks s u v b.0 b.1 a) (run-AllListed ks u))

-- For a block that is read without an error, whatever the state of it before: a variable that the
-- kernel knew is listed as used exactly when some token of the block mentions it, that is, is an
-- identifier with this name that names no new function and no new type. The same holds of the
-- functions that the kernel knew.
pub parse-mentions :
    (t : Tools) (b c : Block) (x : Text)
    → parse t b ≡ (ok tt, c)
    → (has_key x b.types.vars ≡ true
        → contains x c.reused_vars ≡ mentions x no_due (t.scan b.content))
      × (has_key x b.types.funcs ≡ true
          → contains x c.reused_funcs ≡ mentions x no_due (t.scan b.content))
unfolding parse start contains
parse-mentions t b c x e =
    let lines = split b.content (ascii "\n") in
    let (s, a, same) =
      finish-ok (AllListed x (t.scan b.content) (start b)) lines
        (run t lines (t.scan b.content) (start b)) c
        (run-AllListed x t lines (t.scan b.content) (start b)) e in
    (
      λ h. ap (contains x) same.reused_vars ∙ a.vars h,
      λ h. ap (contains x) same.reused_funcs ∙ a.funcs h,
    )
