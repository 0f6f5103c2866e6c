-- ===== src/Response/Inject.antt =====
-- pkg/response/json_injector.go: InjectProgressIntoChallenge, processGoalsArray, extractGoalID and
-- findMatchingClosingBracket.
pub mod Brackets
use extend_challenge_service.Base.{
  ℕ, zero, suc, ◌+◌, ◌-◌, String, Bool, true, false, not, ◌&&◌, Option, none, some, List, [], ◌∷◌,
  ◌++◌, drop, take, ◌==◌, ltb, if◌then◌else◌,
}
use extend_challenge_service.Base.Int.{ℤ, pos, negsuc}
use extend_challenge_service.Domain.{Time, UserGoalProgress, ProgressMap}
use extend_challenge_service.Mapper.Errors.{message}
use extend_challenge_service.Response.Bytes.{
  Bytes, ascii, bytes_eq, index_byte, index, slice, Parsed, ok, err, ◌>>=◌, or_err, context,
}
use extend_challenge_service.Response.Fields.{Formats, inject_progress_into_goal}

-- `i` is the index of the first byte left, `depth` the brackets that are open.
unfoldable pub closing_from : ℕ → ℕ → Bytes → Option ℕ
closing_from depth i [] = none
closing_from depth i (c ∷ cs) =
    let deeper = closing_from (suc depth) (suc i) cs in
    let shallower = closing_from (depth - 1) (suc i) cs in
    let same = closing_from depth (suc i) cs in
    if c == b'['
    then deeper
    else if c == b']'
    then (if depth == 1 then some i else shallower)
    else same

unfoldable pub find_matching_closing_bracket : Bytes → ℕ → Option ℕ
unfolding closing_from
find_matching_closing_bracket json open_idx =
    closing_from 1 (suc open_idx) (drop (suc open_idx) json)

-- Each index is relative to the one before, as in the slices of the source.
unfoldable pub extract_goal_id : Bytes → Parsed Bytes
unfolding index index_byte
extract_goal_id goal_json = do
  at_field ← or_err (index (ascii "\"goalId\"") goal_json) (message "goalId field not found")
  let from_field = drop at_field goal_json
  colon ← or_err (index_byte b':' from_field) (message "invalid goalId field: missing colon")
  let from_colon = drop colon from_field
  quote ←
      or_err (index_byte b'"' from_colon) (message "invalid goalId field: missing opening quote")
  let value = drop (suc quote) from_colon
  end ← or_err (index_byte b'"' value) (message "invalid goalId field: missing closing quote")
  ok (take end value)

-- The loop's variables.
pub record Scan : Type 0 where
  pub out : Bytes
  pub goal_start : Option ℕ
  pub goal_index : ℕ
  pub depth : ℤ
  pub in_string : Bool
  pub escape_next : Bool

abbrev pub initial : Scan
initial = record {
  out = [];
  goal_start = none;
  goal_index = 0;
  depth = pos 0;
  in_string = false;
  escape_next = false;
}

abbrev pub increment : ℤ → ℤ
increment (pos n) = pos (suc n)
increment (negsuc zero) = pos 0
increment (negsuc (suc n)) = negsuc n

abbrev pub decrement : ℤ → ℤ
decrement (pos zero) = negsuc 0
decrement (pos (suc n)) = pos n
decrement (negsuc n) = negsuc (suc n)

abbrev pub is_zero : ℤ → Bool
is_zero (pos zero) = true
is_zero _ = false

-- `now n` is what the clock tells when the goal at position `n` is injected.
module _ (formats : Formats) (now : ℕ → Time) (user_progress : ProgressMap) where
  -- `userProgress[goalID]`, by the bytes of the keys.
  unfoldable pub progress_at : ProgressMap → Bytes → Option UserGoalProgress
  progress_at [] id = none
  progress_at ((k, p) ∷ m) id = if bytes_eq (formats.utf8 k) id then some p else progress_at m id

  -- The end of a complete goal object. The error's text leaves out the goal's number.
  unfoldable pub emit_goal : Bytes → Scan → Parsed Scan
  unfolding extract_goal_id inject_progress_into_goal progress_at
  emit_goal goal_json s = do
    id ← context "failed to extract goal_id from goal" (extract_goal_id goal_json)
    let goal =
        inject_progress_into_goal formats (now s.goal_index) goal_json
          (progress_at user_progress id)
    ok (record s {
      out = s.out ++ ((if ltb 0 s.goal_index then b',' ∷ [] else []) ++ goal);
      goal_index = suc s.goal_index;
      goal_start = none;
    })

  -- `case '}'`, once the depth has been lowered.
  unfoldable pub close_brace : Bytes → ℕ → Scan → Parsed Scan
  unfolding emit_goal
  close_brace whole i s = elim s.goal_start [
    | none ↦ ok s
    | some start ↦ if is_zero s.depth then emit_goal (slice start (suc i) whole) s else ok s
  ]

  unfoldable pub scan_byte : Bytes → ℕ → ℕ → Scan → Parsed Scan
  unfolding close_brace
  scan_byte whole i c s =
      if s.escape_next
      then ok (record s { escape_next = false })
      else if c == b'\\'
      then ok (record s { escape_next = true })
      else if c == b'"'
      then ok (record s { in_string = not s.in_string })
      else if s.in_string
      then ok s
      else if c == b'{'
      then ok (record s {
        goal_start = (if is_zero s.depth then some i else s.goal_start);
        depth = increment s.depth;
      })
      else if c == b'}'
      then close_brace whole i (record s { depth = decrement s.depth })
      else ok s

  unfoldable pub scan_from : Bytes → ℕ → Bytes → Scan → Parsed Scan
  unfolding scan_byte
  scan_from whole i [] s = ok s
  scan_from whole i (c ∷ cs) s = do s' ← scan_byte whole i c s; scan_from whole (suc i) cs s'

  -- The bytes written to the result.
  unfoldable pub process_goals_array : Bytes → Parsed Bytes
  unfolding scan_from
  process_goals_array goals_json = do s ← scan_from goals_json 0 goals_json initial; ok s.out

  unfoldable pub inject_progress_into_challenge : Bytes → Parsed Bytes
  unfolding index index_byte find_matching_closing_bracket process_goals_array
  inject_progress_into_challenge static_json = elim (index (ascii "\"goals\":") static_json) [
    | none ↦ ok static_json
    | some goals_idx ↦ do
      offset ←
          or_err (index_byte b'[' (drop goals_idx static_json))
            (message "invalid goals structure: missing opening bracket")
      let array_start = offset + goals_idx
      array_end ←
          or_err (find_matching_closing_bracket static_json array_start)
            (message "invalid goals structure: missing closing bracket")
      goals ←
          context "failed to process goals array"
            (process_goals_array (slice (suc array_start) array_end static_json))
      ok (take (suc array_start) static_json ++ (goals ++ drop array_end static_json))
  ]
