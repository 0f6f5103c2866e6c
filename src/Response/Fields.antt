-- ===== src/Response/Fields.antt =====
-- pkg/response/json_injector.go: buildDefaultProgressFields, buildProgressFields and
-- InjectProgressIntoGoal.
pub mod LastBrace
use extend_challenge_service.Base.{
  ◌-◌, String, Option, none, some, [], ◌∷◌, ◌++◌, take, if◌then◌else◌,
}
use extend_challenge_service.Base.Int.{pos}
use extend_challenge_service.Domain.{Time, UserGoalProgress}
use extend_challenge_service.Response.Bytes.{Bytes, ascii, last_index_byte, format_int}
use extend_challenge_service.Response.Escape.{escape_json_string}

-- `time.Time.Format(time.RFC3339)` in the zone that the value carries, which this code does not convert
-- to UTC, and the bytes of a Go string.
pub record Formats : Type 0 where
  pub rfc3339 : Time → Bytes
  pub utf8 : String → Bytes

unfoldable pub build_default_progress_fields : Bytes
build_default_progress_fields =
    ascii
      ",\"progress\":0,\"status\":\"not_started\",\"completedAt\":\"\",\"claimedAt\":\"\",\"isActive\":false,\"expiresAt\":\"\",\"expiresInSeconds\":0"

module _ (formats : Formats) where
  unfoldable pub time_or_empty : Option Time → Bytes
  time_or_empty none = []
  time_or_empty (some t) = formats.rfc3339 t

  -- Seconds until the time, at least 0.
  unfoldable pub seconds_until : Time → Option Time → Bytes
  unfolding format_int
  seconds_until now none = ascii "0"
  seconds_until now (some t) = format_int (pos (t - now))

  unfoldable pub build_progress_fields : Time → UserGoalProgress → Bytes
  unfolding format_int escape_json_string time_or_empty seconds_until
  build_progress_fields now p =
      ascii ",\"progress\":"
      ++ (format_int p.progress
          ++ (ascii ",\"status\":\""
              ++ (escape_json_string (formats.utf8 p.status)
                  ++ (ascii "\",\"completedAt\":\""
                      ++ (time_or_empty p.completed_at
                          ++ (ascii "\",\"claimedAt\":\""
                              ++ (time_or_empty p.claimed_at
                                  ++ (ascii "\",\"isActive\":"
                                      ++ ((if p.is_active then ascii "true" else ascii "false")
                                          ++ (ascii ",\"expiresAt\":\""
                                              ++ (time_or_empty p.expires_at
                                                  ++ (ascii "\",\"expiresInSeconds\":"
                                                      ++ seconds_until now p.expires_at))))))))))))

  unfoldable pub progress_fields : Time → Option UserGoalProgress → Bytes
  unfolding build_default_progress_fields build_progress_fields
  progress_fields now none = build_default_progress_fields
  progress_fields now (some p) = build_progress_fields now p

  unfoldable pub inject_progress_into_goal : Time → Bytes → Option UserGoalProgress → Bytes
  unfolding last_index_byte progress_fields
  inject_progress_into_goal now static_json progress = elim (last_index_byte b'}' static_json) [
    | none ↦ static_json
    | some i ↦ take i static_json ++ (progress_fields now progress ++ b'}' ∷ [])
  ]
