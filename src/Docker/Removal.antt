-- ===== src/Docker/Removal.antt =====
-- The branches of `Remove`.
use noted_runner.Prelude.{◌≡◌, none, some, false, arith, Text, ◌↔◌, ◌⊎◌}
use noted_runner.Docker.{Engine, remove, stopped, removed, tolerate}

module _ {W : Type 0} (e : Engine W) where
  -- What `Remove` reports, and the state of the world that it leaves, by what the engine answers.
  pub record RemovalSpec (id : Text) (w : W) : Type 0 where
    -- the engine stops and removes the container
    pub both :
        (e.container_stop id w).0 ≡ none
        → (e.container_remove id (e.container_stop id w).1).0 ≡ none
        → remove e id w ≡ (none, (e.container_remove id (e.container_stop id w).1).1)
    -- it does not stop the container, and is not asked to remove it
    pub not_stopped :
        (x : Text)
        → (e.container_stop id w).0 ≡ some x
        → (remove e id w).1 ≡ (e.container_stop id w).1
    -- an error is reported exactly if it is not a lost connection
    pub reported :
        (x : Text)
        → ((remove e id w).0 ≡ some x) ↔ (
            (((e.container_stop id w).0 ≡ some x)
              ⊎ (((e.container_stop id w).0 ≡ none)
                  × ((e.container_remove id (e.container_stop id w).1).0 ≡ some x)))
            × (e.is_err_connection_failed x ≡ false))

  -- `Remove` asks the engine to stop the container and, only where it is stopped, to remove it. Where
  -- both succeed it reports no error; otherwise it reports the engine's error exactly if that is not
  -- a lost connection.
  pub remove-RemovalSpec : (id : Text) (w : W) → RemovalSpec id w
  unfolding remove stopped removed tolerate
  remove-RemovalSpec id w = record {
    both = λ p q. ground arith;
    not_stopped = λ x p. ground arith;
    reported = λ x. ground arith;
  }
