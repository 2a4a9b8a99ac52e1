-- ===== src/Preproc/Export/Lines.antt =====
-- No line of a block is lost on the way into the plugin.
use mathlib.Core.Path.{subst}
use mathlib.Core.List.Perm
use mathlib.Core.List.{append_assoc, append-nil}
use noted_runner.Prelude.{
  ℕ, zero, suc, ◌+◌, ◌≡◌, sym, true, false, some, List, [], ◌∷◌, ◌++◌, arith, Text, ascii, ◌∙◌, ap,
  ◌⊎◌, inl, inr, get_elem?, ok, text_eq,
}
use noted_runner.Strings.{split, trim_space}
use noted_runner.Preproc.Tools.{Tools}
use noted_runner.Preproc.Block.{
  Kind, func_name, func_body, var_decl, other, LineKinds, kinds_at, has_kind, Block,
}
use noted_runner.Preproc.Scan.{parse}
use noted_runner.Preproc.Scan.Coverage.{HasSome, parse-HasSome}
use noted_runner.Preproc.Scan.Content.{content-parse}
use noted_runner.Preproc.Export.{
  emit, emit_kinds, RangeOrder, emit_lines, with_lines, export_source, store_lines,
}
use noted_runner.Preproc.Export.Order.{IsRange, closing, recorded_order, export_source-order}
use noted_runner.Preproc.Export.Names.{store_lines_lem}

-- The text stands somewhere in the other.
abbrev pub Infix : Text → Text → Type 0
Infix s t = (pre : Text) × (post : Text) × (t ≡ pre ++ (s ++ post))

Infix-append : (s t u : Text) → Infix s t → Infix s (t ++ u)
Infix-append s t u (pre, post, e) = (
  pre,
  post ++ u,
  rw e (append_assoc pre (s ++ post) u ∙ ap (λ x. pre ++ x) (append_assoc s post u)),
)

Infix-prepend : (s t u : Text) → Infix s t → Infix s (u ++ t)
Infix-prepend s t u (pre, post, e) = (u ++ pre, post, rw e (sym (append_assoc u pre (s ++ post))))

Infix-last : (s t : Text) → Infix s (t ++ s)
Infix-last s t = (t, [], ap (λ x. t ++ x) (sym (append-nil s)))

-- The line is in `funcDefs` or in `mains`.
abbrev InEither : Text → Text × Text → Type 0
InEither s acc = Infix s acc.0 ⊎ Infix s acc.1

append_three : (s a b c d : Text) → Infix s a → Infix s (a ++ b ++ c ++ d)
append_three s a b c d h =
    Infix-append s (a ++ b ++ c) d (Infix-append s (a ++ b) c (Infix-append s a b h))

emit_keeps :
    (s text : Text) (k : Kind) (acc : Text × Text) → InEither s acc → InEither s (emit text k acc)
unfolding emit
emit_keeps s text func_name acc (inl h) =
    inl (Infix-append s _ (ascii "\n") (Infix-append s acc.0 text h))
emit_keeps s text func_name acc (inr h) = inr h
emit_keeps s text func_body acc (inl h) =
    inl (Infix-append s _ (ascii "\n") (Infix-append s acc.0 text h))
emit_keeps s text func_body acc (inr h) = inr h
emit_keeps s text var_decl acc (inl h) = inl h
emit_keeps s text var_decl acc (inr h) = inr (append_three s acc.1 (ascii "\t") text (ascii "\n") h)
emit_keeps s text other acc (inl h) = inl h
emit_keeps s text other acc (inr h) = inr (append_three s acc.1 (ascii "\t") text (ascii "\n") h)

emit_here : (text : Text) (k : Kind) (acc : Text × Text) → InEither text (emit text k acc)
unfolding emit
emit_here text func_name acc = inl (Infix-append text _ (ascii "\n") (Infix-last text acc.0))
emit_here text func_body acc = inl (Infix-append text _ (ascii "\n") (Infix-last text acc.0))
emit_here text var_decl acc =
    inr (Infix-append text _ (ascii "\n") (Infix-last text (acc.1 ++ ascii "\t")))
emit_here text other acc =
    inr (Infix-append text _ (ascii "\n") (Infix-last text (acc.1 ++ ascii "\t")))

emit_kinds_keeps :
    (s text : Text) (ks : List Kind) (acc : Text × Text)
    → InEither s acc
    → InEither s (emit_kinds text ks acc)
unfolding emit_kinds
emit_kinds_keeps s text [] acc h = h
emit_kinds_keeps s text (k ∷ ks) acc h =
    emit_kinds_keeps s text ks (emit text k acc) (emit_keeps s text k acc h)

emit_kinds_here :
    (text : Text) (k : Kind) (ks : List Kind) (acc : Text × Text)
    → has_kind k ks ≡ true
    → InEither text (emit_kinds text ks acc)
unfolding emit_kinds
emit_kinds_here text k [] acc h = unfold has_kind in cc h
emit_kinds_here text k (j ∷ ks) acc h =
    emit_kinds_keeps text text ks (emit text j acc) (emit_here text j acc)

emit_lines_keeps :
    (s : Text) (m : LineKinds) (n : ℕ) (texts : List Text) (acc : Text × Text)
    → InEither s acc
    → InEither s (emit_lines recorded_order m n texts acc)
unfolding emit_lines
emit_lines_keeps s m n [] acc h = h
emit_lines_keeps s m n (text ∷ texts) acc h =
    emit_lines_keeps s m (n + 1) texts _ (emit_kinds_keeps s text (kinds_at m n) acc h)

emit_lines_here :
    (m : LineKinds) (n : ℕ) (texts : List Text) (i line : ℕ) (text : Text) (acc : Text × Text)
    → n + i ≡ line
    → get_elem? texts i ≡ some text
    → HasSome m line
    → InEither text (emit_lines recorded_order m n texts acc)
unfolding emit_lines
emit_lines_here m n [] i line text acc e found h = cc
emit_lines_here m n (x ∷ texts) zero line text acc e found (k, h) =
    let same : x ≡ text = cc found in
    let here : line ≡ n = omega arith in
    emit_lines_keeps text m (n + 1) texts _ (
      subst (λ y. InEither text (emit_kinds y (kinds_at m n) acc)) (sym same)
        (emit_kinds_here text k (kinds_at m n) acc (rw here at h)))
emit_lines_here m n (x ∷ texts) (suc i) line text acc e found h =
    emit_lines_here m (n + 1) texts i line text _ (omega arith) found h

store_lines_keeps :
    (s m : Text) (names : List Text) (mains : Text)
    → Infix s mains
    → Infix s (store_lines m [] names mains)
store_lines_keeps s m names mains h =
    let (ns, e, _, _) = store_lines_lem m names mains in rw e (Infix-append s mains _ h)

closing_keeps :
    (s : Text) (b : Block) (acc : Text × Text) → InEither s acc → Infix s (closing b acc)
closing_keeps s b acc (inl h) = Infix-append s _ (ascii "}\n") (Infix-append s acc.0 _ h)
closing_keeps s b acc (inr h) = Infix-append s _ (ascii "}\n") (
    Infix-prepend s _ acc.0 (
      store_lines_keeps s (ascii "varsMap") b.vnames _
        (store_lines_keeps s (ascii "funcsMap") b.fnames acc.1 h)))

export_source_here :
    (b : Block) (attempt : Text) (i : ℕ) (text : Text)
    → get_elem? (split b.content (ascii "\n")) i ≡ some text
    → HasSome b.line_kinds (i + 1)
    → Infix text (export_source recorded_order b attempt)
unfolding export_source with_lines
export_source_here b attempt i text found h = closing_keeps text b _ (
    emit_lines_here b.line_kinds 1 (split b.content (ascii "\n")) i (i + 1) text _ (omega arith)
      found h)

-- After a successful `parse` every line of the block that is not blank stands, as it is, in the source
-- that `FormExportFunc` hands to `ClearImports`, before that cleans the imports and prints it anew,
-- whatever order Go ranges in.
pub export_source-parse :
    (t : Tools) (order : RangeOrder) (b : Block) (attempt : Text) (i : ℕ) (text : Text)
    → IsRange order
    → (parse t b).0 ≡ ok tt
    → get_elem? (split b.content (ascii "\n")) i ≡ some text
    → text_eq (trim_space text) [] ≡ false
    → Infix text (export_source order (parse t b).1 attempt)
export_source-parse t order b attempt i text range e found solid =
    let b' = (parse t b).1 in
    subst (Infix text)
      (export_source-order recorded_order order b' attempt (λ n ks. Perm.refl ks) range)
      (export_source_here b' attempt i text
        (subst (λ c. get_elem? (split c (ascii "\n")) i ≡ some text) (sym (content-parse t b))
          found)
        (parse-HasSome t b i text e found solid))
