-- ===== src/Preproc/Export/Order.antt =====
-- The order in which Go ranges over the kinds of a line does not change the source.
use mathlib.Core.List.{Perm, Permᴰ}
use mathlib.Core.Logic.{∥∥₁_elim}
use noted_runner.Prelude.{ℕ, ◌+◌, ◌≡◌, refl, sym, List, [], ◌∷◌, ◌++◌, arith, Text, ascii, ◌∙◌, ap}
use noted_runner.Preproc.Block.{
  Kind, func_name, func_body, var_decl, other, LineKinds, kinds_at, Block,
}
use noted_runner.Strings.{split}
use noted_runner.Preproc.Export.{
  store_lines, emit, emit_kinds, RangeOrder, emit_lines, with_lines, export_source,
}

emit_comm :
    (text : Text) (j k : Kind) (acc : Text × Text)
    → emit text j (emit text k acc) ≡ emit text k (emit text j acc)
unfolding emit
emit_comm text func_name k acc = ground arith
emit_comm text func_body k acc = ground arith
emit_comm text var_decl k acc = ground arith
emit_comm text other k acc = ground arith

emit_kinds-perm_d :
    (text : Text) {ks js : List Kind} (acc : Text × Text)
    → Permᴰ ks js
    → emit_kinds text ks acc ≡ emit_kinds text js acc
unfolding emit_kinds
emit_kinds-perm_d text acc Permᴰ.nil = refl
emit_kinds-perm_d text acc (Permᴰ.cons {a} {b} {l₁} {l₂} e p) =
    emit_kinds-perm_d text (emit text a acc) p ∙ ap (λ k. emit_kinds text l₂ (emit text k acc)) e
emit_kinds-perm_d text acc (Permᴰ.swap {a} {b} {a'} {b'} {l} e f) =
    ap (emit_kinds text l) (emit_comm text b a acc ∙ cc (e, f))
emit_kinds-perm_d text acc (Permᴰ.trans p q) =
    emit_kinds-perm_d text acc p ∙ emit_kinds-perm_d text acc q

texts_set : IsSet (Text × Text)
texts_set = hlevel

emit_kinds-perm :
    (text : Text) (ks js : List Kind) (acc : Text × Text)
    → Perm ks js
    → emit_kinds text ks acc ≡ emit_kinds text js acc
emit_kinds-perm text ks js acc p = ∥∥₁_elim p (texts_set _ _) (λ d. emit_kinds-perm_d text acc d)

-- A range over a map visits every key once.
abbrev pub IsRange : RangeOrder → Type 0
IsRange order = (n : ℕ) (ks : List Kind) → Perm (order n ks) ks

-- the order in which the kinds were recorded
abbrev pub recorded_order : RangeOrder
recorded_order n ks = ks

emit_lines-order :
    (order : RangeOrder) (m : LineKinds) (n : ℕ) (texts : List Text) (acc : Text × Text)
    → IsRange order
    → emit_lines order m n texts acc ≡ emit_lines recorded_order m n texts acc
unfolding emit_lines
emit_lines-order order m n [] acc h = refl
emit_lines-order order m n (text ∷ texts) acc h =
    emit_lines-order order m (n + 1) texts _ h
    ∙ ap (emit_lines recorded_order m (n + 1) texts)
        (emit_kinds-perm text (order n (kinds_at m n)) (kinds_at m n) acc (h n (kinds_at m n)))

with_lines-order :
    (order : RangeOrder) (b : Block) (attempt : Text)
    → IsRange order
    → with_lines order b attempt ≡ with_lines recorded_order b attempt
unfolding with_lines
with_lines-order order b attempt h =
    emit_lines-order order b.line_kinds 1 (split b.content (ascii "\n")) _ h

-- what `export_source` makes of `funcDefs` and `mains`
abbrev pub closing : Block → Text × Text → Text
closing b acc =
    acc.0
    ++ store_lines (ascii "varsMap") [] b.vnames (store_lines (ascii "funcsMap") [] b.fnames acc.1)
    ++ ascii "}\n"

-- The source of the plugin does not depend on the order in which Go ranges over the kinds of a line.
pub export_source-order :
    (order order' : RangeOrder) (b : Block) (attempt : Text)
    → IsRange order
    → IsRange order'
    → export_source order b attempt ≡ export_source order' b attempt
unfolding export_source
export_source-order order order' b attempt h h' =
    ap (closing b) (with_lines-order order b attempt h ∙ sym (with_lines-order order' b attempt h'))
