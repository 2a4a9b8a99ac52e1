-- ===== src/Usecase/Served.antt =====
-- What a run of a block that reports no error has done.
use noted_runner.Prelude.{
  ◌≡◌, refl, ap, ◌∙◌, subst, Option, none, some, Text, Outcome, ok, err, panic, Bool, true, false,
}
use noted_runner.Preproc.Export.{form_export_func}
use noted_runner.Usecase.{
  Host, Sys, Act, continue, launch, run_locked, run_with, run_block, set_mux, unlock, build,
  build_result, outside, chmod_all, kernel_url, plugin_path, outcome_of, kernel_key,
}

pub continue-ok :
    {W A B : Type 0} (r : Outcome A × Sys W) (f : A → Act W B) {b : B} {s' : Sys W}
    → continue r f ≡ (ok b, s')
    → (a : A) × (t : Sys W) × (r ≡ (ok a, t)) × (f a t ≡ (ok b, s'))
unfolding continue
continue-ok (ok a, t) f e = (a, t, refl, e)
continue-ok (err x, t) f e = cc
continue-ok (panic, t) f e = cc

module _ {W : Type 0} (h : Host W) where
  -- The plugin of one attempt was built from the user's source file, and then the kernel answered
  -- the request to run that very attempt, which was the last call of the world outside.
  pub record Served (mount prefix kernel_id block_id user_id : Text) (final : W) : Type 0 where
    pub attempt : Text
    pub source : Text
    pub before : W
    pub built :
        (h.go_build (plugin_path h mount kernel_id user_id block_id attempt) source before).0 ≡ none
    pub answered :
        let asked = h.http_get (kernel_url h prefix kernel_id block_id user_id attempt) (
          h.chmod
            (plugin_path h mount kernel_id user_id block_id attempt)
            (h.go_build
              (plugin_path h mount kernel_id user_id block_id attempt)
              source
              before).1) in
        (asked.0 ≡ none) × (asked.1 ≡ final)

  pub outcome_of-ok : (x : Option Text) {u : Unit {0}} → outcome_of x ≡ ok u → x ≡ none
  outcome_of-ok none e = refl
  outcome_of-ok (some x) e = cc

  pub build_result-ok :
      (x : Option (Text × Text)) {u : Unit {0}} → build_result h x ≡ ok u → x ≡ none
  unfolding build_result
  build_result-ok none e = refl
  build_result-ok (some x) e = cc

  launch-Served :
      (mount prefix kernel_id block_id user_id attempt code : Text) (s : Sys W) {u : Unit {0}}
      {s' : Sys W}
      → launch h mount prefix kernel_id block_id user_id attempt code s ≡ (ok u, s')
      → Served mount prefix kernel_id block_id user_id s'.world
  unfolding launch outside build chmod_all
  launch-Served mount prefix kernel_id block_id user_id attempt code s e =
      let (a, t, p, e1) = continue-ok _ _ e in
      let (b, v, q, e2) = continue-ok _ _ e1 in
      let (c, w, r, e3) = continue-ok _ _ e2 in
      let here = ap (λ x. x.1.world) r in
      let asked = h.http_get (kernel_url h prefix kernel_id block_id user_id attempt) in
      let same =
        ap (h.chmod (plugin_path h mount kernel_id user_id block_id attempt))
          (ap (λ x. x.1.world) q)
        ∙ here in
      record {
        attempt = attempt;
        source = _;
        before = t.world;
        built = build_result-ok _ (ap (λ x. x.0) q);
        answered = (
          ap (λ x. (asked x).0) same ∙ outcome_of-ok _ (ap (λ x. x.0) e3),
          ap (λ x. (asked x).1) same ∙ ap (λ x. x.1.world) e3,
        );
      }

  run_locked-Served :
      (kernel_id block_id user_id : Text) (s : Sys W) {u : Unit {0}} {s' : Sys W}
      → run_locked h kernel_id block_id user_id s ≡ (ok u, s')
      → Served s.uc.mount_path s.uc.kernel_prefix kernel_id block_id user_id s'.world
  unfolding run_locked
  run_locked-Served kernel_id block_id user_id s e =
      let (attempt, t, p, e1) = continue-ok _ _ e in
      let (b, v, q, e2) = continue-ok _ _ e1 in
      launch-Served s.uc.mount_path s.uc.kernel_prefix kernel_id block_id user_id attempt
        (form_export_func h.tools h.order b attempt) v e2

  served_with :
      (kernel_id block_id user_id : Text) (s : Sys W) (m : Option Bool) {u : Unit {0}} {s' : Sys W}
      → run_with h kernel_id block_id user_id m s ≡ (some (ok u), s')
      → Served s.uc.mount_path s.uc.kernel_prefix kernel_id block_id user_id s'.world
  unfolding run_with unlock set_mux
  served_with kernel_id block_id user_id s none e = cc
  served_with kernel_id block_id user_id s (some true) e = cc
  served_with kernel_id block_id user_id s (some false) {u} {s'} e =
      let t = set_mux h (kernel_key kernel_id user_id) true s in
      let r = run_locked h kernel_id block_id user_id t in
      let first : r.0 ≡ ok u = cc in
      let last : r.1.world ≡ s'.world = ap (λ x. x.1.world) e in
      subst (Served s.uc.mount_path s.uc.kernel_prefix kernel_id block_id user_id) last
        (run_locked-Served kernel_id block_id user_id t (ap (λ x. (x, r.1)) first))

  -- If `RunBlock` returns no error, the plugin of some attempt of the block was built without an
  -- error, and the last call of the world outside was the request to the kernel to run that attempt,
  -- which it answered.
  pub run_block-Served :
      (kernel_id block_id user_id : Text) (s : Sys W) {u : Unit {0}} {s' : Sys W}
      → run_block h kernel_id block_id user_id s ≡ (some (ok u), s')
      → Served s.uc.mount_path s.uc.kernel_prefix kernel_id block_id user_id s'.world
  unfolding run_block
  run_block-Served kernel_id block_id user_id s e = served_with kernel_id block_id user_id s _ e
