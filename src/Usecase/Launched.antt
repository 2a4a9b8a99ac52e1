-- ===== src/Usecase/Launched.antt =====
-- What a run without an error has handed to its kernel.
use noted_runner.Prelude.{◌≡◌, refl, ap, ◌∙◌, none, Text, ok, ◌++◌, ascii}
use noted_runner.Usecase.{
  slash, block_file, Host, Sys, launch, plugin_path, kernel_url, outside, build, chmod_all,
}
use noted_runner.Strings.{replace_all}
use noted_runner.Usecase.Served.{continue-ok, outcome_of-ok, build_result-ok}

module _ {W : Type 0} (h : Host W) where
  -- What a run has handed to the kernel from the state `before` on, every path and address written out:
  -- the code was written to the block's source file, the plugin of the attempt was built from that file
  -- without an error and its permissions were set, and the kernel was asked to run the block under the
  -- number of the attempt and answered, which led to the state `final`.
  pub record Launched (mount prefix kernel_id block_id user_id attempt code : Text)
      (before final : W) : Type 0 where
    pub source : Text
    pub plugin : Text
    pub url : Text
    pub at_source :
        source
        ≡ mount
          ++ ascii "/"
          ++ kernel_id
          ++ ascii "/"
          ++ user_id
          ++ ascii "/"
          ++ (ascii "block_" ++ block_id)
          ++ ascii ".go"
    pub at_plugin :
        plugin
        ≡ mount
          ++ ascii "/"
          ++ kernel_id
          ++ ascii "/"
          ++ user_id
          ++ ascii "/"
          ++ (ascii "block_"
              ++ replace_all block_id b'-' b'_'
              ++ ascii "_"
              ++ attempt
              ++ ascii ".so")
    pub at_url :
        url
        ≡ ascii "http://"
          ++ prefix
          ++ kernel_id
          ++ ascii ":8080/run?block_id="
          ++ block_id
          ++ ascii "&user_id="
          ++ user_id
          ++ ascii "&attempt="
          ++ attempt
    pub written : (h.write_file source code before).0 ≡ none
    pub built : (h.go_build plugin source (h.write_file source code before).1).0 ≡ none
    pub answered :
        (h.http_get url
          (h.chmod plugin (h.go_build plugin source (h.write_file source code before).1).1)).0
        ≡ none
    pub ended :
        (h.http_get url
          (h.chmod plugin (h.go_build plugin source (h.write_file source code before).1).1)).1
        ≡ final

  pub launch-Launched :
      (mount prefix kernel_id block_id user_id attempt code : Text) (s : Sys W) {u : Unit {0}}
      {s' : Sys W}
      → launch h mount prefix kernel_id block_id user_id attempt code s ≡ (ok u, s')
      → Launched mount prefix kernel_id block_id user_id attempt code s.world s'.world
  unfolding launch outside build chmod_all
  launch-Launched mount prefix kernel_id block_id user_id attempt code s e =
      let (a, t, p, e1) = continue-ok _ _ e in
      let (b, v, q, e2) = continue-ok _ _ e1 in
      let (c, w, r, e3) = continue-ok _ _ e2 in
      let source =
        slash h (slash h (slash h mount kernel_id) user_id) (block_file h block_id)
        ++ ascii ".go" in
      let plugin = plugin_path h mount kernel_id user_id block_id attempt in
      let asked = h.http_get (kernel_url h prefix kernel_id block_id user_id attempt) in
      let at_t : (h.write_file source code s.world).1 ≡ t.world = ap (λ x. x.1.world) p in
      let at_v = ap (λ z. (h.go_build plugin source z).1) at_t ∙ ap (λ x. x.1.world) q in
      let same = ap (h.chmod plugin) at_v ∙ ap (λ x. x.1.world) r in
      record {
        source = source;
        plugin = plugin;
        url = kernel_url h prefix kernel_id block_id user_id attempt;
        at_source = refl;
        at_plugin = refl;
        at_url = refl;
        written = outcome_of-ok h _ (ap (λ x. x.0) p);
        built =
            ap (λ z. (h.go_build plugin source z).0) at_t ∙ build_result-ok h _ (ap (λ x. x.0) q);
        answered = ap (λ x. (asked x).0) same ∙ outcome_of-ok h _ (ap (λ x. x.0) e3);
        ended = ap (λ x. (asked x).1) same ∙ ap (λ x. x.1.world) e3;
      }
