-- ===== src/Usecase/Compiled.antt =====
-- internal/usecase/compile.go, `RunBlock`: which source a run without an error has compiled, and what the
-- next run of the kernel starts from.
use noted_runner.Prelude.{
  or_panic, subst, ◌≡◌, refl, sym, ap, ◌∙◌, Option, none, some, Text, Outcome, ok, err, panic, Bool,
  true, false, List, ◌++◌, lookup, insert, lookup-insert, text_eq_refl, ascii, ◌+◌,
}
use noted_runner.Preproc.Block.{Block, KernelTypes, new_block}
use noted_runner.Preproc.Scan.{parse}
use noted_runner.Preproc.Export.{form_export_func}
use noted_runner.Usecase.{
  slash, block_file, continue, Act, Host, Sys, launch, prepare, run_locked, run_with, run_block,
  set_mux, unlock, outside, read_source, read_document, parse_block, parse_with, parse_error,
  next_attempt, build, chmod_all, kernel_key,
}
use noted_runner.Strings.{itoa}
use noted_runner.Usecase.Blocks.{runs}
use noted_runner.Usecase.Served.{continue-ok}
use noted_runner.Usecase.Launched.{Launched, launch-Launched}

module _ {W : Type 0} (h : Host W) where
  -- The text is that of the document that was read from the block's file.
  pub record Document (mount kernel_id block_id text : Text) : Type 0 where
    pub file : Text
    pub read_at : W
    pub read :
        (h.read_file (slash h (slash h mount kernel_id) (block_file h block_id)) read_at).0
        ≡ ok file
    pub loaded : h.document_text file ≡ some text

  -- The block has this text, and it was parsed on the types that the kernel had; what `Parse` has learned
  -- is what the kernel has behind the run. The source that `FormExportFunc` makes of the block was handed
  -- to the kernel under the number of the attempt, which was the last that the run did.
  pub record Compiled (kernel_id block_id user_id : Text) (s s' : Sys W) : Type 0 where
    pub text : Text
    pub document : Document s.uc.mount_path kernel_id block_id text
    pub types : KernelTypes
    pub block : Block
    pub attempt : Text
    pub before : W
    pub counted :
        attempt
        ≡ ascii "at"
          ++ itoa (runs (kernel_key kernel_id user_id ++ block_id) s.uc.kernel_attempts + 1)
    pub known : lookup (kernel_key kernel_id user_id) s.uc.kernel_types ≡ some types
    pub parsed : parse h.tools (new_block block_id text types) ≡ (ok tt, block)
    pub learned : lookup (kernel_key kernel_id user_id) s'.uc.kernel_types ≡ some block.types
    pub launched :
        Launched h s.uc.mount_path s.uc.kernel_prefix kernel_id block_id user_id attempt
          (form_export_func h.tools h.order block attempt)
          before
          s'.world

  parse_error-ok :
      (r : Outcome (Unit {0}) × Block) (b : Block) → parse_error h r ≡ ok b → r ≡ (ok tt, b)
  unfolding parse_error
  parse_error-ok (ok _, c) b e = cc
  parse_error-ok (err x, c) b e = cc
  parse_error-ok (panic, c) b e = cc

  -- a block that is parsed on the types of the kernel
  pub record Parsed (key block_id text : Text) (s : Sys W) (b : Block) (s' : Sys W) : Type 0 where
    pub types : KernelTypes
    pub known : lookup key s.uc.kernel_types ≡ some types
    pub parsed : parse h.tools (new_block block_id text types) ≡ (ok tt, b)
    pub learned : s'.uc.kernel_types ≡ insert key b.types s.uc.kernel_types

  parse_with-Parsed :
      (key block_id text : Text) (m : Option KernelTypes) (s s' : Sys W) (b : Block)
      → lookup key s.uc.kernel_types ≡ m
      → parse_with h key block_id text m s ≡ (ok b, s')
      → Parsed key block_id text s b s'
  unfolding parse_with
  parse_with-Parsed key block_id text none s s' b e p = cc
  parse_with-Parsed key block_id text (some types) s s' b e p =
      let parsed =
        parse_error-ok (parse h.tools (new_block block_id text types)) b (ap (λ r. r.0) p) in
      record {
        types = types;
        known = e;
        parsed = parsed;
        learned =
            ap (λ r. r.1.uc.kernel_types) (sym p)
            ∙ ap (λ r. insert key r.1.types s.uc.kernel_types) parsed;
      }

  some-or_panic : (o : Option Text) (text : Text) → or_panic o ≡ ok text → o ≡ some text
  some-or_panic none text e = cc
  some-or_panic (some x) text e = cc

  pub prepare-Parsed :
      (mount kernel_id block_id user_id : Text) (s s' : Sys W) (b : Block)
      → prepare h mount kernel_id block_id user_id s ≡ (ok b, s')
      → (text : Text) × Document mount kernel_id block_id text
        × Parsed (kernel_key kernel_id user_id) block_id text s b s'
  unfolding prepare outside read_source read_document parse_block
  prepare-Parsed mount kernel_id block_id user_id s s' b e =
      let (u, s1, p1, e1) = continue-ok _ _ e in
      let (file, s2, p2, e2) = continue-ok _ _ e1 in
      let (text, s3, p3, e3) = continue-ok _ _ e2 in
      let same =
        ap (λ r. r.1.uc.kernel_types) (sym p3)
        ∙ (ap (λ r. r.1.uc.kernel_types) (sym p2) ∙ ap (λ r. r.1.uc.kernel_types) (sym p1)) in
      let p = parse_with-Parsed (kernel_key kernel_id user_id) block_id text _ s3 s' b refl e3 in
      (
        text,
        record {
          file = file;
          read_at = s1.world;
          read = ap (λ r. r.0) p2;
          loaded = some-or_panic (h.document_text file) text (ap (λ r. r.0) p3);
        },
        record {
          types = p.types;
          known = ap (lookup (kernel_key kernel_id user_id)) (sym same) ∙ p.known;
          parsed = p.parsed;
          learned = p.learned ∙ ap (insert (kernel_key kernel_id user_id) b.types) same;
        },
      )

  types-continue :
      {A B : Type 0} (r : Outcome A × Sys W) (f : A → Act W B)
      → ((a : A) (t : Sys W) → (f a t).1.uc.kernel_types ≡ t.uc.kernel_types)
      → (continue r f).1.uc.kernel_types ≡ r.1.uc.kernel_types
  unfolding continue
  types-continue (ok a, t) f h = h a t
  types-continue (err x, t) f h = refl
  types-continue (panic, t) f h = refl

  -- Whatever comes of the build and of the run, it changes nothing that is known of a kernel.
  pub launch-types :
      (mount prefix kernel_id block_id user_id attempt code : Text) (s : Sys W)
      → (launch h mount prefix kernel_id block_id user_id attempt code s).1.uc.kernel_types
        ≡ s.uc.kernel_types
  unfolding launch outside build chmod_all
  launch-types mount prefix kernel_id block_id user_id attempt code s =
      types-continue _ _ λ u1 s1. types-continue _ _ λ u2 s2. types-continue _ _ λ u3 s3. refl

  pub lookup-insert_self :
      (key : Text) (ts : KernelTypes) (m : List (Text × KernelTypes))
      → lookup key (insert key ts m) ≡ some ts
  lookup-insert_self key ts m = lookup-insert key key ts m ∙ rw (text_eq_refl key)

  ok_attempt : {a b : Text} → ok a ≡ ok b → a ≡ b
  ok_attempt e = cc

  run_locked-Compiled :
      (kernel_id block_id user_id : Text) (s s' : Sys W)
      → run_locked h kernel_id block_id user_id s ≡ (ok tt, s')
      → Compiled kernel_id block_id user_id s s'
  unfolding run_locked next_attempt
  run_locked-Compiled kernel_id block_id user_id s s' e =
      let (attempt, s1, p1, e1) = continue-ok _ _ e in
      let (b, s2, p2, e2) = continue-ok _ _ e1 in
      let (text, document, p) =
        prepare-Parsed s.uc.mount_path kernel_id block_id user_id s1 s2 b p2 in
      let key = kernel_key kernel_id user_id in
      record {
        text = text;
        document = document;
        types = p.types;
        block = b;
        attempt = attempt;
        before = s2.world;
        counted = ok_attempt (ap (λ r. r.0) (sym p1));
        known = ap (λ r. lookup key r.1.uc.kernel_types) p1 ∙ p.known;
        parsed = p.parsed;
        learned =
            ap (lookup key) (
              ap (λ r. r.1.uc.kernel_types) (sym e2)
              ∙ (launch-types _ _ kernel_id block_id user_id attempt _ s2 ∙ p.learned))
            ∙ lookup-insert_self key b.types s1.uc.kernel_types;
        launched =
            launch-Launched h s.uc.mount_path s.uc.kernel_prefix kernel_id block_id user_id attempt
              (form_export_func h.tools h.order b attempt) s2 e2;
      }

  Compiled-with :
      (kernel_id block_id user_id : Text) (s s' : Sys W) (m : Option Bool)
      → run_with h kernel_id block_id user_id m s ≡ (some (ok tt), s')
      → Compiled kernel_id block_id user_id s s'
  unfolding run_with unlock set_mux
  Compiled-with kernel_id block_id user_id s s' none e = cc
  Compiled-with kernel_id block_id user_id s s' (some true) e = cc
  Compiled-with kernel_id block_id user_id s s' (some false) e =
      let t = set_mux h (kernel_key kernel_id user_id) true s in
      let r = run_locked h kernel_id block_id user_id t in
      let first : r.0 ≡ ok tt = cc in
      let c = run_locked-Compiled kernel_id block_id user_id t r.1 (ap (λ x. (x, r.1)) first) in
      record {
        text = c.text;
        document = c.document;
        types = c.types;
        block = c.block;
        attempt = c.attempt;
        before = c.before;
        counted = c.counted;
        known = c.known;
        parsed = c.parsed;
        learned =
            ap (λ x. lookup (kernel_key kernel_id user_id) x.1.uc.kernel_types) (sym e) ∙ c.learned;
        launched =
            subst
              (Launched h s.uc.mount_path s.uc.kernel_prefix kernel_id block_id user_id c.attempt
                (form_export_func h.tools h.order c.block c.attempt) c.before)
              (ap (λ x. x.1.world) e) c.launched;
      }

  -- If `RunBlock` returns no error, the text of the document that was read from the block's file was
  -- parsed without an error on the types that were known of the kernel, and what is known behind the run
  -- is what `Parse` has left. The source that `FormExportFunc` makes of the parsed block was written to
  -- the user's source file of the block without an error; from that file the plugin whose name has the
  -- number of the attempt was built without an error; and the kernel of the configured prefix was asked
  -- on port 8080 to run the block for the user under this number, one more than the runs of the block
  -- before, and answered. Nothing was called outside after that.
  pub run_block-Compiled :
      (kernel_id block_id user_id : Text) (s s' : Sys W)
      → run_block h kernel_id block_id user_id s ≡ (some (ok tt), s')
      → Compiled kernel_id block_id user_id s s'
  unfolding run_block
  run_block-Compiled kernel_id block_id user_id s s' e =
      Compiled-with kernel_id block_id user_id s s' _ e
