-- ===== src/Preproc/Scan/Mentions.antt =====
-- internal/preproc/preproc.go, the case of an identifier: the names of earlier blocks that a block
-- mentions, as an independent description on the tokens.
use noted_runner.Prelude.{
  Bool, true, false, not, ◌&&◌, ◌||◌, List, [], ◌∷◌, Text, text_eq, if◌then◌else◌,
}
use noted_runner.Preproc.Tools.{Tok, kw_func, kw_type, ident, semicolon, Token}
use noted_runner.Preproc.Scan.{◌then◌}

-- whether the next identifier names a function, and whether it names a type
pub record Due : Type 0 where
  pub func : Bool
  pub type_name : Bool

abbrev pub no_due : Due
no_due = record { func = false; type_name = false }

-- A keyword asks for a name, the next identifier is that name, and a semicolon drops the wish for a
-- function's name.
abbrev pub due_after : Tok → Due → Due
due_after kw_func d = record d { func = true }
due_after kw_type d = record d { type_name = true }
due_after semicolon d = record d { func = false }
due_after ident d = if d.func then record d { func = false } else record d { type_name = false }
due_after _ d = d

-- The token is an identifier with this text, which names no function and no type.
abbrev pub is_mention : Text → Tok → Text → Due → Bool
is_mention x ident lit d = (not d.func && not d.type_name) && text_eq lit x
is_mention x _ lit d = false

-- Some token mentions the name.
unfoldable pub mentions : Text → Due → List Token → Bool
mentions x d [] = false
mentions x d (k ∷ ks) = is_mention x k.tok k.lit d || mentions x (due_after k.tok d) ks
