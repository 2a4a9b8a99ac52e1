-- ===== src/Tests/Files.antt =====
-- Sources of plugins and their imports.
use noted_runner.Prelude.{◌≡◌, refl, arith, ◌||◌, none, [], ◌∷◌, ascii, All, text_eq}
use mathlib.Core.List.Perm
use noted_runner.Strings.{split, trim_space}
use noted_runner.Preproc.Tools.{
  identifier, selector, ImportSpec, import_decl, other_decl, SourceFile,
}
use noted_runner.Preproc.Block.{mark, Block, func_name, var_decl}
use noted_runner.Preproc.LineType.{parse_line_type}
use noted_runner.Preproc.Scan.{parse}
use noted_runner.Preproc.Export.{RangeOrder, export_source}
use noted_runner.Preproc.Export.Order.{IsRange, recorded_order, export_source-order}
use noted_runner.Preproc.Export.Lines.{Infix, export_source-parse}
use noted_runner.Preproc.Imports.{
  is_kept, collect_used_names, filter_imports, import_name, is_dot_or_blank,
}
use noted_runner.Preproc.Imports.Paths.{is_kept_both}
use noted_runner.Preproc.Imports.Kept.{is_kept-selects, selects_decls}
use noted_runner.Preproc.Imports.Decls.{filter_imports-decls, specs_of, others_of, Solid}
use noted_runner.Tests.{assign_tools, assign_block}

recorded-IsRange : IsRange recorded_order
recorded-IsRange n ks = Perm.refl ks

-- two kinds of a line the other way round
abbrev swapped_order : RangeOrder
swapped_order n [] = []
swapped_order n (j ∷ []) = j ∷ []
swapped_order n (j ∷ k ∷ ks) = k ∷ j ∷ ks

swapped-IsRange : IsRange swapped_order
swapped-IsRange n [] = Perm.refl []
swapped-IsRange n (j ∷ []) = Perm.refl (j ∷ [])
swapped-IsRange n (j ∷ k ∷ ks) = Perm.swap j k ks

-- a line with two kinds
abbrev two_kinds : Block
two_kinds = record assign_block { line_kinds = (1, func_name ∷ var_decl ∷ []) ∷ [] }

export_source-order_example :
    export_source recorded_order two_kinds (ascii "at1")
    ≡ export_source swapped_order two_kinds (ascii "at1")
export_source-order_example =
    export_source-order recorded_order swapped_order two_kinds (ascii "at1") recorded-IsRange
      swapped-IsRange

export_source-parse_example :
    Infix
      (ascii "a := 1")
      (export_source recorded_order (parse assign_tools assign_block).1 (ascii "at1"))
unfolding parse mark parse_line_type split trim_space text_eq
export_source-parse_example =
    export_source-parse assign_tools recorded_order assign_block (ascii "at1") 0 (ascii "a := 1")
      recorded-IsRange refl refl refl

abbrev crypto_rand : ImportSpec
crypto_rand = record { ptr = 1; name = none; path = ascii "\"crypto/rand\"" }

abbrev math_rand : ImportSpec
math_rand = record { ptr = 2; name = none; path = ascii "\"math/rand\"" }

-- two packages of one name, and a selection from that name
abbrev file : SourceFile
file = record {
  package_name = ascii "main";
  imports = crypto_rand ∷ math_rand ∷ [];
  decls =
      import_decl (crypto_rand ∷ math_rand ∷ [])
      ∷ other_decl (selector (identifier (ascii "rand")) (ascii "Int"))
      ∷ [];
}

is_kept-selects_example :
    is_kept (collect_used_names file) crypto_rand
    ≡ (is_dot_or_blank none || selects_decls (import_name crypto_rand) file.decls)
is_kept-selects_example = is_kept-selects file 0 crypto_rand refl

is_kept_both_example :
    (is_kept (collect_used_names file) crypto_rand ≡ selects_decls (ascii "rand") file.decls)
    × (is_kept (collect_used_names file) math_rand ≡ selects_decls (ascii "rand") file.decls)
is_kept_both_example =
    is_kept_both file 0 1 crypto_rand math_rand (ascii "crypto") (ascii "math") (ascii "rand") refl
      refl
      (record { unnamed = refl; quoted = refl; no_quote = ground arith; no_slash = ground arith })
      (record { unnamed = refl; quoted = refl; no_quote = ground arith; no_slash = ground arith })

filter_imports-decls_example :
    (specs_of (filter_imports file (ascii "rand" ∷ [])).decls
      ≡ (filter_imports file (ascii "rand" ∷ [])).imports)
    × All Solid (filter_imports file (ascii "rand" ∷ [])).decls
    × (others_of (filter_imports file (ascii "rand" ∷ [])).decls ≡ others_of file.decls)
filter_imports-decls_example =
    filter_imports-decls file (ascii "rand" ∷ []) refl ((omega arith, tt), (tt, tt))
