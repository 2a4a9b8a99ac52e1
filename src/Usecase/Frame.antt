-- ===== src/Usecase/Frame.antt =====
-- What the steps of `RunBlock` leave alone.
use noted_runner.Prelude.{
  ◌≡◌, refl, ◌∙◌, false, Option, none, some, List, arith, Text, lookup, lookup-insert, subst,
  Outcome, ok, err, panic, text_eq, text_eq_refl,
}
use noted_runner.Preproc.Block.{KernelTypes, new_block}
use noted_runner.Preproc.Scan.{parse}
use noted_runner.Preproc.Scan.Known.{Extends, parse-Extends}
use noted_runner.Usecase.{
  Host, Sys, Act, continue, outside, read_source, read_document, parse_block, parse_with, build,
  chmod_all, prepare, launch, kernel_key,
}

-- `old` is known of the kernel `key`, and what `new` knows of it extends that.
abbrev pub Grown : Text → List (Text × KernelTypes) → List (Text × KernelTypes) → Type 0
Grown key old new =
    (before : KernelTypes)
    → lookup key old ≡ some before
    → (after : KernelTypes) × (lookup key new ≡ some after) × Extends before after

pub Extends-refl : (t : KernelTypes) → Extends t t
Extends-refl t = record { funcs = λ k e. e; vars = λ k e. e; types = λ k e. e }

Extends-trans : {t u v : KernelTypes} → Extends t u → Extends u v → Extends t v
Extends-trans p q = record {
  funcs = λ k e. q.funcs k (p.funcs k e);
  vars = λ k e. q.vars k (p.vars k e);
  types = λ k e. q.types k (p.types k e);
}

module _ {W : Type 0} where
  -- A step for the kernel `key` changes nothing of the program but what is known of that kernel.
  pub record Kept (key : Text) (s s' : Sys W) : Type 0 where
    pub muxes : s'.uc.kernel_muxes ≡ s.uc.kernel_muxes
    pub attempts : s'.uc.kernel_attempts ≡ s.uc.kernel_attempts
    pub client : s'.uc.client ≡ s.uc.client
    pub mount : s'.uc.mount_path ≡ s.uc.mount_path
    pub prefix : s'.uc.kernel_prefix ≡ s.uc.kernel_prefix
    pub grown : Grown key s.uc.kernel_types s'.uc.kernel_types
    pub others :
        (j : Text)
        → text_eq key j ≡ false
        → lookup j s'.uc.kernel_types ≡ lookup j s.uc.kernel_types

  module _ (key : Text) where
    Kept-same : (s : Sys W) (w : W) → Kept key s (record s { world = w })
    Kept-same s w = record {
      muxes = refl;
      attempts = refl;
      client = refl;
      mount = refl;
      prefix = refl;
      grown = λ t e. (t, e, Extends-refl t);
      others = λ j e. refl;
    }

    Kept-trans : {s t u : Sys W} → Kept key s t → Kept key t u → Kept key s u
    Kept-trans p q = record {
      muxes = q.muxes ∙ p.muxes;
      attempts = q.attempts ∙ p.attempts;
      client = q.client ∙ p.client;
      mount = q.mount ∙ p.mount;
      prefix = q.prefix ∙ p.prefix;
      grown = λ t e.
          let (u, e', x) = p.grown t e in
          let (v, e'', y) = q.grown u e' in (v, e'', Extends-trans x y);
      others = λ j e. q.others j e ∙ p.others j e;
    }

    pub Kept-continue :
        {A B : Type 0} (s : Sys W) (r : Outcome A × Sys W) (f : A → Act W B)
        → Kept key s r.1
        → ((a : A) (t : Sys W) → Kept key t (f a t).1)
        → Kept key s (continue r f).1
    unfolding continue
    Kept-continue s (ok a, t) f p q = Kept-trans p (q a t)
    Kept-continue s (err x, t) f p q = p
    Kept-continue s (panic, t) f p q = p

    module _ (h : Host W) where
      Kept-outside : (f : W → Option Text × W) (s : Sys W) → Kept key s (outside h f s).1
      unfolding outside
      Kept-outside f s = Kept-same s (f s.world).1

      Kept-parse :
          (block_id text : Text) (s : Sys W) (known : Option KernelTypes)
          → known ≡ lookup key s.uc.kernel_types
          → Kept key s (parse_with h key block_id text known s).1
      unfolding parse_with new_block
      Kept-parse block_id text s none e = Kept-same s s.world
      Kept-parse block_id text s (some t) e = record {
        muxes = refl;
        attempts = refl;
        client = refl;
        mount = refl;
        prefix = refl;
        grown = λ t' e'.
            let x = parse-Extends h.tools (new_block block_id text t) in
            let same : t ≡ t' = cc in
            let new = (parse h.tools (new_block block_id text t)).1.types in
            (
              new,
              ground (arith, lookup-insert key key new s.uc.kernel_types, text_eq_refl key),
              subst (λ u. Extends u new) same x,
            );
        others = λ j e'.
            lookup-insert key j (parse h.tools (new_block block_id text t)).1.types
              s.uc.kernel_types
            ∙ cc;
      }

      pub launch-Kept :
          (mount prefix kernel_id block_id user_id attempt code : Text) (s : Sys W)
          → Kept key s (launch h mount prefix kernel_id block_id user_id attempt code s).1
      unfolding launch build chmod_all
      launch-Kept mount prefix kernel_id block_id user_id attempt code s =
          Kept-continue s _ _ (Kept-outside (h.write_file _ code) s) λ _ t.
            Kept-continue t _ _ (Kept-same t (h.go_build _ _ t.world).1) λ _ u.
              Kept-continue u _ _ (Kept-same u (h.chmod _ u.world))
                λ _ v. Kept-outside (h.http_get _) v

  module _ (h : Host W) where
    pub prepare-Kept :
        (mount kernel_id block_id user_id : Text) (s : Sys W)
        → Kept (kernel_key kernel_id user_id) s (prepare h mount kernel_id block_id user_id s).1
    unfolding prepare read_source read_document parse_block
    prepare-Kept mount kernel_id block_id user_id s =
        let key = kernel_key kernel_id user_id in
        Kept-continue key s _ _ (Kept-outside key h (h.mkdir_all _) s) λ _ t.
          Kept-continue key t _ _ (Kept-same key t (h.read_file _ t.world).1) λ file u.
            Kept-continue key u _ _ (Kept-same key u u.world)
              λ text v. Kept-parse key h block_id text v (lookup key v.uc.kernel_types) refl
