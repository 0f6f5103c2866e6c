-- ===== src/Http/Shown.antt =====
-- GET /v1/challenges and the RPC GetUserChallenges show a goal's progress by two pieces of code: the
-- fields that are injected into the JSON of the goal, and those of its message.
use mathlib.Core.Option
use extend_challenge_service.Base.{
  ◌∙◌, false, ◌-◌, String, Option, none, some, [], ◌∷◌, ◌++◌, ◌≡◌, ◌≢◌, refl, sym, ap, inl, inr,
  arith, true, Bool-cases, ◌==◌, eq_iff, str_eq, if◌then◌else◌,
}
use extend_challenge_service.Base.Dict.{lookup}
use extend_challenge_service.Base.Int.{pos}
use extend_challenge_service.Base.Int32.{InRange, int32, int32_id}
use extend_challenge_service.Domain.{
  Time, Goal, UserGoalProgress, ProgressMap, Rules, GoalCache, status_not_started,
}
use extend_challenge_service.Http.Challenges.{display_row, display_map}
use extend_challenge_service.Mapper.Proto.{
  Platform, difference, fits, at_least_zero, seconds_left, format_timestamp,
}
use extend_challenge_service.Mapper.Proto.Laws.{goal_view}
use extend_challenge_service.Pb.{PbGoal}
use extend_challenge_service.Response.Bytes.{Bytes, ascii, format_int}
use extend_challenge_service.Response.Escape.{escape_json_string}
use extend_challenge_service.Response.Fields.{
  Formats, progress_fields, build_progress_fields, build_default_progress_fields, time_or_empty,
  seconds_until, inject_progress_into_goal,
}
use extend_challenge_service.Response.Fields.LastBrace.{NoBrace, inject_progress_into_goal-last}

-- The progress fields as JSON, from the texts of their values.
abbrev layout : Bytes → Bytes → Bytes → Bytes → Bytes → Bytes → Bytes → Bytes
layout progress status completed_at claimed_at is_active expires_at seconds =
    ascii ",\"progress\":"
    ++ (progress
        ++ (ascii ",\"status\":\""
            ++ (status
                ++ (ascii "\",\"completedAt\":\""
                    ++ (completed_at
                        ++ (ascii "\",\"claimedAt\":\""
                            ++ (claimed_at
                                ++ (ascii "\",\"isActive\":"
                                    ++ (is_active
                                        ++ (ascii ",\"expiresAt\":\""
                                            ++ (expires_at
                                                ++ (ascii "\",\"expiresInSeconds\":"
                                                    ++ seconds))))))))))))

-- The progress fields of a message.
abbrev pub rendered : Formats → PbGoal → Bytes
rendered formats g =
    layout (format_int g.progress) (escape_json_string (formats.utf8 g.status))
      (formats.utf8 g.completed_at) (formats.utf8 g.claimed_at)
      (if g.is_active then ascii "true" else ascii "false") (formats.utf8 g.expires_at)
      (format_int g.expires_in_seconds)

-- Both pieces of code print times by the same function of the library: the mapper in UTC, and the
-- injector in the zone that a time carries, which is UTC then.
pub record OneLibrary (formats : Formats) (platform : Platform) : Type 0 where
  pub same_times : (t : Time) → formats.utf8 (platform.rfc3339 t) ≡ formats.rfc3339 t
  pub empty_text : formats.utf8 "" ≡ []
  pub not_started_text : formats.utf8 status_not_started ≡ ascii "not_started"

module _ (rules : Rules) (cache : GoalCache) (now : Time) where
  lookup-display_map :
      (id : String) (m : ProgressMap)
      → lookup id (display_map rules cache now m)
        ≡ Option.map (display_row rules cache now id) (lookup id m)
  unfolding lookup display_map
  lookup-display_map id [] = refl
  lookup-display_map id ((key, p) ∷ m) = elim (Bool-cases (str_eq key id)) [
    | inl e ↦ rw e (ap (λ k. some (display_row rules cache now k p)) ((eq_iff key id).0 e))
    | inr e ↦ rw e (lookup-display_map id m)
  ]

module _ (rules : Rules) (cache : GoalCache) (platform : Platform) (formats : Formats) (now : Time)
    (m : ProgressMap) (goal : Goal) (library : OneLibrary formats platform) where
  -- The end of the period is near enough for the seconds to be an `int32`.
  abbrev pub Near : Type 0
  Near =
      (at : Time)
      → rules.calculate_next_expires_at (some goal) now ≡ some at
      → fits (difference at now) ≡ true

  -- What the two pieces of code treat alike: a goal that does not rotate where there is no row, and
  -- where there is one, numbers of 32 bits and times that are not Go's zero time.
  pub data Alike : Option UserGoalProgress → Type 0 where
    no_row : rules.calculate_next_expires_at (some goal) now ≡ none → Alike none
    with_row :
        {p : UserGoalProgress}
        → InRange (rules.apply_display_rotation p goal now).0
        → p.completed_at ≢ some 0
        → p.claimed_at ≢ some 0
        → Near
        → Alike (some p)

  time-shown :
      (o : Option Time)
      → o ≢ some 0
      → formats.utf8 (format_timestamp platform o) ≡ time_or_empty formats o
  unfolding format_timestamp time_or_empty
  time-shown none h = library.empty_text
  time-shown (some t) h = elim (Bool-cases (t == 0)) [
    | inl zero ↦ let e : t ≡ 0 = ground arith in elim (h (ap some e)) [ ]
    | inr later ↦ rw later (library.same_times t)
  ]

  seconds-shown :
      (at : Time) → fits (difference at now) ≡ true → seconds_left platform at now ≡ pos (at - now)
  unfolding seconds_left
  seconds-shown at h =
      let signed : at_least_zero (difference at now) ≡ pos (at - now) = ground arith in rw h signed

  -- The end of the period, as both print it.
  expiry-shown :
      (o : Option Time)
      → rules.calculate_next_expires_at (some goal) now ≡ o
      → Near
      → (time_or_empty formats o
          ≡ formats.utf8 (elim o [ none ↦ "" | some at ↦ platform.rfc3339 at ]))
        × (seconds_until formats now o
            ≡ format_int (elim o [ none ↦ pos 0 | some at ↦ seconds_left platform at now ]))
  unfolding time_or_empty seconds_until
  expiry-shown none e near = (sym library.empty_text, refl)
  expiry-shown (some at) e near =
      (sym (library.same_times at), ap format_int (sym (seconds-shown at (near at e))))

  -- The fields of the message, for any row and any end of the period.
  abbrev shown_as : Option UserGoalProgress → Option Time → Bytes
  shown_as row end =
      layout
        (format_int
          (elim row [ none ↦ pos 0 | some p ↦ int32 (rules.apply_display_rotation p goal now).0 ]))
        (escape_json_string (
          formats.utf8 (elim row [
            | none ↦ status_not_started
            | some p ↦ (rules.apply_display_rotation p goal now).1
          ])))
        (formats.utf8 (elim row [ none ↦ "" | some p ↦ format_timestamp platform p.completed_at ]))
        (formats.utf8 (elim row [ none ↦ "" | some p ↦ format_timestamp platform p.claimed_at ]))
        (if elim row [ none ↦ false | some p ↦ p.is_active ] then ascii "true" else ascii "false")
        (formats.utf8 (elim end [ none ↦ "" | some at ↦ platform.rfc3339 at ]))
        (format_int (elim end [ none ↦ pos 0 | some at ↦ seconds_left platform at now ]))

  -- The row that the handler shows for a configured goal.
  abbrev displayed : UserGoalProgress → UserGoalProgress
  displayed p = record p {
    progress = (rules.apply_display_rotation p goal now).0;
    status = (rules.apply_display_rotation p goal now).1;
    expires_at = rules.calculate_next_expires_at (some goal) now;
  }

  display_row-known :
      (p : UserGoalProgress)
      → cache.get_goal_by_id goal.id ≡ some goal
      → display_row rules cache now goal.id p ≡ displayed p
  unfolding display_row
  display_row-known p known = rw (display_row, known) refl

  row-shown :
      (p : UserGoalProgress)
      → Alike (some p)
      → build_progress_fields formats now (displayed p)
        ≡ shown_as (some p) (rules.calculate_next_expires_at (some goal) now)
  unfolding build_progress_fields
  row-shown p (with_row small done claimed near) =
      let (expires, seconds) =
        expiry-shown (rules.calculate_next_expires_at (some goal) now) refl near in
      rw
        (
          int32_id _ small,
          time-shown p.completed_at done,
          time-shown p.claimed_at claimed,
          expires,
          seconds,
        )
        refl

  none-shown :
      Alike none
      → build_default_progress_fields
        ≡ shown_as none (rules.calculate_next_expires_at (some goal) now)
  unfolding build_default_progress_fields format_int escape_json_string
  none-shown (no_row e) = rw (e, library.not_started_text, library.empty_text) refl

  fields-shown :
      (o : Option UserGoalProgress)
      → cache.get_goal_by_id goal.id ≡ some goal
      → Alike o
      → progress_fields formats now (Option.map (display_row rules cache now goal.id) o)
        ≡ shown_as o (rules.calculate_next_expires_at (some goal) now)
  unfolding progress_fields
  fields-shown none known alike = none-shown alike
  fields-shown (some p) known alike =
      ap (build_progress_fields formats now) (display_row-known p known) ∙ row-shown p alike

  -- The handler puts the goal's progress into its JSON exactly as the message of the RPC has it, for
  -- the same rows and at the same time, if times carry UTC, the goal is configured under its ID, and there is a row
  -- whose numbers fit 32 bits and whose times are not Go's zero time, or there is no row and the goal
  -- does not rotate. What the JSON had before its last brace stands before these fields.
  pub inject_progress_into_goal-rendered :
      (body rest : Bytes)
      → NoBrace rest
      → cache.get_goal_by_id goal.id ≡ some goal
      → Alike (lookup goal.id m)
      → inject_progress_into_goal formats now
          (body ++ b'}' ∷ rest)
          (lookup goal.id (display_map rules cache now m))
        ≡ body ++ (rendered formats (goal_view platform rules now m goal) ++ b'}' ∷ [])
  inject_progress_into_goal-rendered body rest h known alike =
      inject_progress_into_goal-last formats now body rest _ h
      ∙ ap (λ fields. body ++ (fields ++ b'}' ∷ []))
          (ap (progress_fields formats now) (lookup-display_map rules cache now goal.id m)
            ∙ fields-shown (lookup goal.id m) known alike)
