-- ===== src/Preproc/Scan/Finish.antt =====
-- internal/preproc/preproc.go: the end of `Parse`, which marks the other lines and nothing else.
use noted_runner.Prelude.{ℕ, ◌+◌, ◌≡◌, refl, List, [], ◌∷◌, arith, ap, subst, Text, ok, err, panic}
use noted_runner.Preproc.Block.{Block, other}
use noted_runner.Preproc.Block.Mark.{
  fnames-mark, vnames-mark, types-mark, reused_vars-mark, reused_funcs-mark,
}
use noted_runner.Preproc.Scan.{State, Result, finish, mark_rest, mark_unmarked}
use noted_runner.Preproc.Scan.Rules.{OnSuccess}

-- the names of a block and what is known of its kernel
pub record SameNames (b c : Block) : Type 0 where
  pub fnames : c.fnames ≡ b.fnames
  pub vnames : c.vnames ≡ b.vnames
  pub reused_vars : c.reused_vars ≡ b.reused_vars
  pub reused_funcs : c.reused_funcs ≡ b.reused_funcs
  pub types : c.types ≡ b.types

SameNames-unmarked :
    (n : ℕ) (text : Text) (b c : Block) → SameNames b c → SameNames b (mark_unmarked n text c)
unfolding mark_unmarked
SameNames-unmarked n text b c h = ground (
  arith,
  fnames-mark n other c,
  vnames-mark n other c,
  reused_vars-mark n other c,
  reused_funcs-mark n other c,
  types-mark n other c,
)

SameNames-mark_rest :
    (n : ℕ) (texts : List Text) (b c : Block) → SameNames b c → SameNames b (mark_rest n texts c)
unfolding mark_rest
SameNames-mark_rest n [] b c h = h
SameNames-mark_rest n (text ∷ texts) b c h =
    SameNames-mark_rest (n + 1) texts b (mark_unmarked n text c) (SameNames-unmarked n text b c h)

-- A block that is read without an error has the names that the state behind the last token has.
pub finish-ok {κ} :
    (P : State → Type κ) (lines : List Text) (r : Result) (c : Block)
    → OnSuccess P r
    → finish lines r ≡ (ok tt, c)
    → (s : State) × P s × SameNames s.block c
unfolding finish
finish-ok P lines (ok _, s) c h e = (
  s,
  h,
  subst (SameNames s.block) (ap (λ p. p.1) e) (
      SameNames-mark_rest 1 lines s.block s.block (record {
        fnames = refl;
        vnames = refl;
        reused_vars = refl;
        reused_funcs = refl;
        types = refl;
      })),
)
finish-ok P lines (err x, s) c h e = cc
finish-ok P lines (panic, s) c h e = cc
