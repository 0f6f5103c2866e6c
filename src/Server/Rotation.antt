-- ===== src/Server/Rotation.antt =====
-- pkg/server/challenge_service_server.go: GetRotationStatus, buildRotationInfo and HealthCheck.
pub mod Periods
use Prim.Native.String
use extend_challenge_service.Base.{
  String, Bool, true, false, ◌||◌, Option, none, some, List, [], ◌∷◌, ◌==◌, if◌then◌else◌,
}
use extend_challenge_service.Base.Int.{pos}
use extend_challenge_service.Domain.{Time, RotationConfig, Goal, Challenge, Rules}
use extend_challenge_service.Mapper.Errors.{Error}
use extend_challenge_service.Mapper.Proto.{Platform, seconds_left}
use extend_challenge_service.Mapper.Status.{plain, not_found, unavailable}
use extend_challenge_service.Pb.{RotationPeriod, RotationInfo, PbRotationStatusResponse}
use extend_challenge_service.Server.{
  Server, Reply, refuse, reply, World, Handler, ◌>>◌, ◌>>=◌, return, required,
}
use extend_challenge_service.Service.Effects.{ping, cancel}

-- The configuration of the first goal whose rotation is enabled.
unfoldable pub has_rotation : Option RotationConfig → Bool
has_rotation none = false
has_rotation (some config) = config.enabled

unfoldable pub first_rotation : List Goal → Option RotationConfig
unfolding has_rotation
first_rotation [] = none
first_rotation (goal ∷ goals) =
    let later = first_rotation goals in if has_rotation goal.rotation then goal.rotation else later

module _ (platform : Platform) (rules : Rules) where
  -- The next period, which starts when the current one ends.
  unfoldable pub next_period : Time → Time → Option RotationPeriod
  next_period current_end next_end =
      if next_end == 0
      then none
      else some (record {
        start_time = platform.rfc3339 current_end;
        end_time = platform.rfc3339 next_end;
        expires_in_seconds = pos 0;
      })

  unfoldable pub build_rotation_info : Option RotationConfig → Time → RotationInfo
  unfolding seconds_left next_period
  build_rotation_info none now = record {
    enabled = false;
    kind = "";
    schedule = "";
    current_period = none;
    next_period = none;
  }
  build_rotation_info (some config) now =
      let start = rules.calculate_last_rotation_boundary config.schedule now in
      let end = rules.calculate_next_rotation_boundary config.schedule now in
      let info : RotationInfo = record {
        enabled = true;
        kind = config.kind;
        schedule = config.schedule;
        current_period = none;
        next_period = none;
      } in
      if start == 0 || end == 0 then info else record info {
        current_period = some (record {
          start_time = platform.rfc3339 start;
          end_time = platform.rfc3339 end;
          expires_in_seconds = seconds_left platform end now;
        });
        next_period = next_period end (rules.calculate_next_rotation_boundary config.schedule end);
      }

module _ (server : Server) where
  unfoldable pub find_challenge : String → Handler Challenge
  find_challenge id w = elim (server.goal_cache.get_challenge_by_challenge_id id) [
    | none ↦ (refuse (plain not_found (String.◌++◌ "challenge not found: " id)), w)
    | some challenge ↦ (reply challenge, w)
  ]

  -- No user is asked for.
  unfoldable pub get_rotation_status : String → Handler PbRotationStatusResponse
  unfolding find_challenge first_rotation build_rotation_info
  get_rotation_status challenge_id = do
    required challenge_id "challenge_id is required"
    challenge ← find_challenge challenge_id
    λ w. (
      reply (record {
        challenge_id = challenge_id;
        rotation =
            build_rotation_info server.platform server.rules (first_rotation challenge.goals)
              (server.host.now w.trace);
      }),
      w,
    )

  abbrev pub health_reply : Option Error → Reply String
  health_reply none = reply "healthy"
  health_reply (some e) = refuse (plain unavailable "database connectivity check failed")

  -- `cancel` of the ping's context is deferred.
  unfoldable pub health_check : Handler String
  health_check w =
      (health_reply (server.ping_db (ping ∷ w.trace)), record w { trace = cancel ∷ ping ∷ w.trace })
