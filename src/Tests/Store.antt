-- ===== src/Tests/Store.antt =====
-- A store of settings that keeps the defaults.
use noted_runner.Prelude.{
  ℕ, ◌≡◌, refl, Bool, false, Option, none, some, List, [], ◌∷◌, Text, ascii, text_eq, if◌then◌else◌,
  ok,
}
use noted_runner.Configs.{
  Value, text_value, int_value, bool_value, duration_value, ints_value, Merge, merged, Viper,
  Documented,
}
use noted_runner.Configs.Defaults.{Settings}
use noted_runner.Configs.Setup.{setup_configs}
use noted_runner.Configs.Values.{default_config}
use noted_runner.Configs.Loaded.{setup_configs-defaults}

-- the first setting of a key counts
unfoldable pub default_of : Text → Settings → Option Value
default_of j [] = none
default_of j ((k, x) ∷ settings) = if text_eq k j then some x else default_of j settings

unfoldable pub text_of : Option Value → Option Text
text_of none = none
text_of (some (text_value x)) = some x
text_of (some (int_value n)) = none
text_of (some (bool_value b)) = none
text_of (some (duration_value n)) = none
text_of (some (ints_value ns)) = none

unfoldable pub int_of : Option Value → Option ℕ
int_of none = none
int_of (some (text_value x)) = none
int_of (some (int_value n)) = some n
int_of (some (bool_value b)) = none
int_of (some (duration_value n)) = none
int_of (some (ints_value ns)) = none

unfoldable pub bool_of : Option Value → Option Bool
bool_of none = none
bool_of (some (text_value x)) = none
bool_of (some (int_value n)) = none
bool_of (some (bool_value b)) = some b
bool_of (some (duration_value n)) = none
bool_of (some (ints_value ns)) = none

unfoldable pub duration_of : Option Value → Option ℕ
duration_of none = none
duration_of (some (text_value x)) = none
duration_of (some (int_value n)) = none
duration_of (some (bool_value b)) = none
duration_of (some (duration_value n)) = some n
duration_of (some (ints_value ns)) = none

unfoldable pub ints_of : Option Value → Option (List ℕ)
ints_of none = none
ints_of (some (text_value x)) = none
ints_of (some (int_value n)) = none
ints_of (some (bool_value b)) = none
ints_of (some (duration_value n)) = none
ints_of (some (ints_value ns)) = some ns

-- a store whose file is as told
abbrev pub viper_with : Merge → Viper Settings
viper_with merge = record {
  load_dotenv = λ v. v;
  set_default = λ k x v. (k, x) ∷ v;
  add_config_path = λ p v. v;
  set_config_name = λ p v. v;
  set_config_type = λ p v. v;
  merge_in_config = λ v. (merge, v);
  set_env_key_replacer = λ p q v. v;
  automatic_env = λ v. v;
  get_string = λ k v. text_of (default_of k v);
  get_int = λ k v. int_of (default_of k v);
  get_bool = λ k v. bool_of (default_of k v);
  get_duration = λ k v. duration_of (default_of k v);
  get_int_slice = λ k v. ints_of (default_of k v);
}

unfoldable pub documented : Documented (viper_with merged)
unfolding default_of text_of int_of bool_of duration_of ints_of
documented = record {
  default_of = default_of;
  is_overridden = λ k v. false;
  default-set = λ k j x v. refl;
  default-path = λ j p v. refl;
  default-name = λ j p v. refl;
  default-type = λ j p v. refl;
  default-merge = λ j v. refl;
  default-replacer = λ j p q v. refl;
  default-env = λ j v. refl;
  string-default = λ j x v quiet e. rw e refl;
  int-default = λ j n v quiet e. rw e refl;
  bool-default = λ j b v quiet e. rw e refl;
  duration-default = λ j n v quiet e. rw e refl;
  ints-default = λ j ns v quiet e. rw e refl;
}

setup_configs-defaults_example :
    setup_configs (viper_with merged) (ascii "/cfg") [] ≡ ok default_config
unfolding documented
setup_configs-defaults_example =
    setup_configs-defaults (viper_with merged) documented (ascii "/cfg") [] refl (λ k. refl)
