-- ===== src/Application/Startup.antt =====
-- What `NewApp` returns, by its configuration.
use noted_runner.Prelude.{text_eq, ◌≡◌, refl, Text, ascii, ok, panic}
use noted_runner.Effects.{proceed, panic-proceed}
use noted_runner.Configs.{not_found, Viper}
use noted_runner.Configs.Setup.{setup_configs, configured, zero_config, load}
use noted_runner.Configs.Loaded.{after_merge-not_found}
use noted_runner.Logger.{new_logger, level_of, setup_loggers-unknown, new_logger-ne-err}
use noted_runner.Application.{
  Platform, new_app, init_config, make_logger, make_configs, make_loggers,
}

-- `Load` leaves the sections as they are where there is no file.
setup_configs-no_file :
    {V : Type 0} (vp : Viper V) (configs_dir : Text) (v : V)
    → (vp.merge_in_config (configured vp configs_dir (vp.load_dotenv v))).0 ≡ not_found
    → setup_configs vp configs_dir v ≡ ok zero_config
unfolding setup_configs load
setup_configs-no_file vp configs_dir v missing = after_merge-not_found vp _ missing

module _ {W : Type 0} (platform : Platform W) where
  -- Where no configuration file is found, `NewApp` panics: `Load` reports no error and leaves the
  -- sections zero, and the logger knows no level with an empty name.
  pub new_app-no_file :
      (configs_dir : Text) (w : W)
      → (platform.viper.merge_in_config
          (configured platform.viper configs_dir (platform.viper.load_dotenv w))).0
        ≡ not_found
      → (new_app platform configs_dir w).0 ≡ panic
  unfolding new_app make_logger make_configs make_loggers proceed level_of zero_config text_eq
  new_app-no_file configs_dir w missing =
      panic-proceed (new_logger platform.process w init_config (ascii "init")) w _
        (new_logger-ne-err platform.process w init_config (ascii "init"))
        (λ l e.
          rw
            (
              make_configs,
              setup_configs-no_file platform.viper configs_dir w missing,
              proceed,
              make_loggers,
              setup_loggers-unknown platform.process (platform.viper.load_dotenv w)
                  zero_config.logger refl,
            )
            refl)
