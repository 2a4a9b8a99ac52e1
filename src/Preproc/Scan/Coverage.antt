-- ===== src/Preproc/Scan/Coverage.antt =====
-- After `Parse` no line of the block is without a kind, unless it is blank.
use noted_runner.Prelude.{
  ℕ, zero, suc, ◌+◌, ◌<◌, ◌≡◌, true, false, some, List, [], ◌∷◌, arith, Text, ok, err, panic, ascii,
  length, ◌==◌, get_elem?, text_eq, Bool-cases, inl, inr,
}
use noted_runner.Strings.{split, trim_space}
use noted_runner.Preproc.Tools.{Tools}
use noted_runner.Preproc.Block.{Block, Kind, other, kinds_at, has_kind, LineKinds}
use noted_runner.Preproc.Block.Mark.{
  line_kinds-mark, has_kind-add_kind, has_kind-add_kind_mono, same_kind_refl,
}
use noted_runner.Preproc.Scan.{Result, run, start, finish, parse, mark_rest, mark_unmarked}

-- the line has some kind
abbrev pub HasSome : LineKinds → ℕ → Type 0
HasSome m n = (k : Kind) × (has_kind k (kinds_at m n) ≡ true)

some_of_length : (ks : List Kind) → (length ks == 0) ≡ false → (k : Kind) × (has_kind k ks ≡ true)
unfolding has_kind
some_of_length [] h = cc
some_of_length (k ∷ ks) h = (k, ground (arith, same_kind_refl k))

module _ (n : ℕ) (text : Text) (b : Block) where
  mark_unmarked_mono :
      (i : ℕ) (k : Kind)
      → has_kind k (kinds_at b.line_kinds i) ≡ true
      → has_kind k (kinds_at (mark_unmarked n text b).line_kinds i) ≡ true
  unfolding mark_unmarked
  mark_unmarked_mono i k h =
      ground (arith, line_kinds-mark n other b, has_kind-add_kind_mono n i other k b.line_kinds)

  mark_unmarked_here :
      0 < n → text_eq (trim_space text) [] ≡ false → HasSome (mark_unmarked n text b).line_kinds n
  unfolding mark_unmarked
  mark_unmarked_here pos solid = elim (Bool-cases (length (kinds_at b.line_kinds n) == 0)) [
    | inl none_yet ↦ (
      other,
      ground (arith, none_yet, line_kinds-mark n other b, has_kind-add_kind n other b.line_kinds),
    )
    | inr marked ↦
        let (k, e) = some_of_length (kinds_at b.line_kinds n) marked in
        (k, ground (arith, marked, e))
  ]

mark_rest_mono :
    (n : ℕ) (texts : List Text) (b : Block) (i : ℕ) (k : Kind)
    → has_kind k (kinds_at b.line_kinds i) ≡ true
    → has_kind k (kinds_at (mark_rest n texts b).line_kinds i) ≡ true
unfolding mark_rest
mark_rest_mono n [] b i k h = h
mark_rest_mono n (text ∷ texts) b i k h =
    mark_rest_mono (n + 1) texts (mark_unmarked n text b) i k (mark_unmarked_mono n text b i k h)

mark_rest_covers :
    (texts : List Text) (n : ℕ) (b : Block) (i : ℕ) (text : Text) (line : ℕ)
    → 0 < n
    → n + i ≡ line
    → get_elem? texts i ≡ some text
    → text_eq (trim_space text) [] ≡ false
    → HasSome (mark_rest n texts b).line_kinds line
unfolding mark_rest
mark_rest_covers [] n b i text line pos e found solid = cc
mark_rest_covers (x ∷ texts) n b zero text line pos e found solid =
    let u = mark_unmarked n x b in
    let same : x ≡ text = cc found in
    let here : n ≡ line = omega arith in
    let (k, h) = mark_unmarked_here n x b pos (rw same solid) in
    (k, rw (← here) (mark_rest_mono (n + 1) texts u n k h))
mark_rest_covers (x ∷ texts) n b (suc i) text line pos e found solid =
    mark_rest_covers texts (n + 1) (mark_unmarked n x b) i text line (omega arith) (omega arith)
      found solid

covered :
    (lines : List Text) (r : Result) (i : ℕ) (text : Text)
    → (finish lines r).0 ≡ ok tt
    → get_elem? lines i ≡ some text
    → text_eq (trim_space text) [] ≡ false
    → HasSome (finish lines r).1.line_kinds (i + 1)
unfolding finish
covered lines (ok _, s) i text e found solid =
    mark_rest_covers lines 1 s.block i text (i + 1) (omega arith) (omega arith) found solid
covered lines (err x, s) i text e found solid = cc
covered lines (panic, s) i text e found solid = cc

-- After a successful `parse` every line that is not blank has some kind, so that `form_export_func`
-- emits it.
pub parse-HasSome :
    (t : Tools) (b : Block) (i : ℕ) (text : Text)
    → (parse t b).0 ≡ ok tt
    → get_elem? (split b.content (ascii "\n")) i ≡ some text
    → text_eq (trim_space text) [] ≡ false
    → HasSome (parse t b).1.line_kinds (i + 1)
unfolding parse
parse-HasSome t b i text e found solid =
    let lines = split b.content (ascii "\n") in
    covered lines (run t lines (t.scan b.content) (start b)) i text e found solid
