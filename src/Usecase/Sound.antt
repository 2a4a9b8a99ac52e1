-- ===== src/Usecase/Sound.antt =====
-- What every call of the use case keeps.
use noted_runner.Prelude.{
  ◌≡◌, ◌≢◌, refl, sym, ap, ◌∙◌, true, false, none, some, arith, Text, lookup, text_eq, text_eq→eq,
  inl, inr, Bool-cases,
}
use noted_runner.Preproc.Block.{KernelTypes, new_kernel_types}
use noted_runner.Usecase.{Host, Sys, Compile, kernel_key, start_kernel, run_block, run_with, unlock}
use noted_runner.Usecase.Kernels.{start_kernel-Started}
use noted_runner.Usecase.Blocks.{run_block-muxes, run_block-Learned}

-- No mutex is held between two calls, and a kernel with a mutex has known types.
pub record Sound (c : Compile) : Type 0 where
  pub free : (key : Text) → lookup key c.kernel_muxes ≢ some true
  pub typed :
      (key : Text)
      → lookup key c.kernel_muxes ≡ some false
      → (types : KernelTypes) × (lookup key c.kernel_types ≡ some types)

-- A call keeps the program sound, the kernels started, and the path and the prefix.
pub record Evolves (c c' : Compile) : Type 0 where
  pub sound : Sound c → Sound c'
  pub started_before :
      (key : Text)
      → lookup key c.kernel_muxes ≡ some false
      → lookup key c'.kernel_muxes ≡ some false
  pub mount : c'.mount_path ≡ c.mount_path
  pub prefix : c'.kernel_prefix ≡ c.kernel_prefix

pub Evolves-same : (c : Compile) → Evolves c c
Evolves-same c = record { sound = λ s. s; started_before = λ key e. e; mount = refl; prefix = refl }

pub Evolves-trans : {c d e : Compile} → Evolves c d → Evolves d e → Evolves c e
Evolves-trans p q = record {
  sound = λ s. q.sound (p.sound s);
  started_before = λ key e. q.started_before key (p.started_before key e);
  mount = q.mount ∙ p.mount;
  prefix = q.prefix ∙ p.prefix;
}

module _ {W : Type 0} (h : Host W) where
  pub start_kernel-Evolves :
      (kernel_id user_id : Text) (s : Sys W)
      → Evolves s.uc (start_kernel h kernel_id user_id s).1.uc
  start_kernel-Evolves kernel_id user_id s =
      let k = start_kernel-Started h kernel_id user_id s in
      record {
        sound = λ d. record {
          free = λ key. ground (arith, k.mux key, d.free key);
          typed = λ key e. elim (Bool-cases (text_eq (kernel_key kernel_id user_id) key)) [
            | inl same ↦ (new_kernel_types, ground (arith, k.types key))
            | inr other ↦
                let (t, e') = d.typed key (ground (arith, k.mux key)) in
                (t, ground (arith, k.types key))
          ];
        };
        started_before = λ key e. ground (arith, k.mux key);
        mount = k.mount;
        prefix = k.prefix;
      }

  pub run_block-Evolves :
      (kernel_id block_id user_id : Text) (s : Sys W)
      → Evolves s.uc (run_block h kernel_id block_id user_id s).1.uc
  run_block-Evolves kernel_id block_id user_id s =
      let m = run_block-muxes h kernel_id block_id user_id s in
      let l = run_block-Learned h kernel_id block_id user_id s in
      record {
        sound = λ d. record {
          free = λ key. rw (m key) (d.free key);
          typed = λ key e.
              let (t, e') = d.typed key (sym (m key) ∙ e) in
              elim (Bool-cases (text_eq (kernel_key kernel_id user_id) key)) [
                | inl same ↦
                    let eq = text_eq→eq (kernel_key kernel_id user_id) key same in
                    let (u, e'', x) = l.grown t (ap (λ j. lookup j s.uc.kernel_types) eq ∙ e') in
                    (
                      u,
                      ap
                            (λ j.
                              lookup j (run_block h kernel_id block_id user_id s).1.uc.kernel_types)
                            (sym eq)
                          ∙ e'',
                    )
                | inr other ↦ (t, l.others key other ∙ e')
              ];
        };
        started_before = λ key e. m key ∙ e;
        mount = l.mount;
        prefix = l.prefix;
      }

  pub run_block-returns :
      (kernel_id block_id user_id : Text) (s : Sys W)
      → lookup (kernel_key kernel_id user_id) s.uc.kernel_muxes ≡ some false
      → (run_block h kernel_id block_id user_id s).0 ≢ none
  unfolding run_block run_with unlock
  run_block-returns kernel_id block_id user_id s p = rw (run_block, p) (λ e. cc)
