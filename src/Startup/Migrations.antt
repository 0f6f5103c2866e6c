-- ===== src/Startup/Migrations.antt =====
-- pkg/migrations/runner.go. The driver and the `migrate` package are arguments.
use extend_challenge_service.Base.{String, Option, none, some, ◌≡◌, refl, ◌⊎◌, inl, inr}
use extend_challenge_service.Mapper.Errors.{Error, wrap}
use extend_challenge_service.Service.Effects.{Result, ok, err}

-- What `Up` answers.
pub data Answer : Type 0 where
  applied no_change : Answer
  stopped : Error → Answer

-- `postgres.WithInstance`, `migrate.NewWithDatabaseInstance` and the `Up` of what it gives.
pub record Migrate {ℓ} (Driver Instance : Type ℓ) : Type ℓ where
  pub with_instance : Result Driver
  pub new_with_database_instance : String → Driver → Result Instance
  pub up : Instance → Answer

module _ {ℓ} {Driver Instance : Type ℓ} (g : Migrate Driver Instance) where
  -- The error of `Up`; no change is none.
  unfoldable pub of_up : Answer → Option Error
  of_up applied = none
  of_up no_change = none
  of_up (stopped e) = some (wrap "failed to apply migrations" e)

  unfoldable pub with_migrations : Result Instance → Option Error
  unfolding of_up
  with_migrations (err e) = some (wrap "failed to create migrate instance" e)
  with_migrations (ok m) = of_up (g.up m)

  unfoldable pub with_driver : String → Result Driver → Option Error
  unfolding with_migrations
  with_driver path (err e) = some (wrap "failed to create migrate driver" e)
  with_driver path (ok driver) = with_migrations (g.new_with_database_instance path driver)

  unfoldable pub run_migrations : String → Option Error
  unfolding with_driver
  run_migrations path = with_driver path g.with_instance

  -- The database is at the newest version: the migrations were there, and all are applied.
  pub record Migrated (path : String) : Type ℓ where
    pub driver : Driver
    pub migrations : Instance
    pub has_driver : g.with_instance ≡ ok driver
    pub has_migrations : g.new_with_database_instance path driver ≡ ok migrations
    pub is_newest : (g.up migrations ≡ applied) ⊎ (g.up migrations ≡ no_change)

  of_up-is_newest : (x : Answer) → of_up x ≡ none → (x ≡ applied) ⊎ (x ≡ no_change)
  unfolding of_up
  of_up-is_newest applied h = inl refl
  of_up-is_newest no_change h = inr refl
  of_up-is_newest (stopped e) h = cc

  with_migrations-Migrated :
      (path : String) (driver : Driver) (x : Result Instance)
      → g.with_instance ≡ ok driver
      → g.new_with_database_instance path driver ≡ x
      → with_migrations x ≡ none
      → Migrated path
  unfolding with_migrations
  with_migrations-Migrated path driver (err e) there is h = cc
  with_migrations-Migrated path driver (ok m) there is h = record {
    driver = driver;
    migrations = m;
    has_driver = there;
    has_migrations = is;
    is_newest = of_up-is_newest (g.up m) h;
  }

  with_driver-Migrated :
      (path : String) (x : Result Driver)
      → g.with_instance ≡ x
      → with_driver path x ≡ none
      → Migrated path
  unfolding with_driver
  with_driver-Migrated path (err e) is h = cc
  with_driver-Migrated path (ok driver) is h =
      with_migrations-Migrated path driver (g.new_with_database_instance path driver) is refl h

  -- The migrations end with no error only if the database is at the newest version.
  run_migrations-Migrated : (path : String) → run_migrations path ≡ none → Migrated path
  unfolding run_migrations
  run_migrations-Migrated path h = with_driver-Migrated path g.with_instance refl h
