-- ===== src/Mapper/Errors.antt =====
-- pkg/mapper/error_mapper.go: the error values of the service. `message` and `wrap` are
-- `fmt.Errorf` without and with `%w`; `foreign` stands for an error of code outside the service.
use extend_challenge_service.Base.{ℕ, String, List}

pub data Sentinel : Type 0 where
  not_found not_completed already_claimed not_active prerequisites reward_failed : Sentinel
  database progress_mode reward_type challenge_not_found rotated : Sentinel

pub data Error : Type 0 where
  goal_not_found : String → String → Error
  goal_not_completed : String → String → Error
  goal_already_claimed : String → ℕ → Error
  goal_not_active : String → String → Error
  goal_rotated : String → String → Error
  prerequisites_not_met : String → List String → Error
  reward_grant : String → Error → Error
  sentinel : Sentinel → Error
  insufficient_goals : ℕ → ℕ → Error
  message : String → Error
  wrap : String → Error → Error
  foreign : ℕ → Error

abbrev pub database_error : Error
database_error = sentinel database
