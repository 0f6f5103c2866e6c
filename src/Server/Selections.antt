-- ===== src/Server/Selections.antt =====
-- pkg/server/challenge_service_server.go: BatchSelectGoals and RandomSelectGoals.
pub mod Codes
use Prim.Native.String
use extend_challenge_service.Base.{
  suc, String, Bool, true, false, not, Option, some, List, length, ◌==◌, if◌then◌else◌,
}
use extend_challenge_service.Base.Int.{ℤ, pos, negsuc}
use extend_challenge_service.Base.Int32.{int32}
use extend_challenge_service.Mapper.Errors.{Error}
use extend_challenge_service.Mapper.Status.{Status, plain, invalid_argument, not_found, internal}
use extend_challenge_service.Mapper.Text.{error_text, contains, is_insufficient}
use extend_challenge_service.Pb.{PbGoalSelectionResponse}
use extend_challenge_service.Server.{
  Server, Handler, ◌>>=◌, ◌>>◌, return, valid, required, service, pooled, internal_error,
  extract_user_id_from_context,
}
use extend_challenge_service.Server.Convert.{selected_goals_to_proto}
use extend_challenge_service.Service.Selection.{GoalSelectionResult, SelectionRequest}
use extend_challenge_service.Service.Selection.Requests.{batch_select_goals, random_select_goals}

-- `count > 0`
abbrev pub is_positive : ℤ → Bool
is_positive (pos n) = not (n == 0)
is_positive (negsuc n) = false

module _ (server : Server) where
  unfoldable pub batch_status : Error → Status
  unfolding error_text contains
  batch_status e =
      let text = error_text server.platform server.texts e in
      if contains text "not found"
      then plain not_found text
      else plain internal (String.◌++◌ "failed to batch select goals: " text)

  unfoldable pub random_status : Error → Status
  unfolding error_text contains is_insufficient
  random_status e =
      let text = error_text server.platform server.texts e in
      if is_insufficient server.texts e
      then plain invalid_argument text
      else if contains text "not found"
      then plain not_found text
      else plain internal (String.◌++◌ "failed to random select goals: " text)

  abbrev pub selection_request : String → String → Bool → SelectionRequest
  selection_request user_id challenge_id replace_existing = record {
    user_id = user_id;
    challenge_id = challenge_id;
    replace_existing = replace_existing;
    namespace = server.namespace;
  }

  -- What both handlers make of the result.
  unfoldable pub selection_reply : GoalSelectionResult → Handler PbGoalSelectionResponse
  unfolding selected_goals_to_proto
  selection_reply result = do
    goals ← pooled (selected_goals_to_proto server.platform result.selected_goals)
    return (record {
      selected_goals = goals;
      challenge_id = result.challenge_id;
      total_active_goals = int32 (pos result.total_active_goals);
      replaced_goals = result.replaced_goals;
    })

  unfoldable pub batch_select_goals_rpc :
      Option String → String → List String → Bool → Handler PbGoalSelectionResponse
  unfolding extract_user_id_from_context batch_select_goals batch_status selection_reply
  batch_select_goals_rpc context challenge_id goal_ids replace_existing = do
    user_id ← extract_user_id_from_context context
    required challenge_id "challenge_id is required"
    valid (not (length goal_ids == 0)) invalid_argument "goal_ids cannot be empty"
    result ←
        service
          (batch_select_goals server.rules server.host
            (selection_request user_id challenge_id replace_existing) goal_ids
            (some server.goal_cache) (some server.repo))
          batch_status
    selection_reply result

  unfoldable pub random_select_goals_rpc :
      Option String → String → ℤ → Bool → Bool → Handler PbGoalSelectionResponse
  unfolding extract_user_id_from_context random_select_goals random_status selection_reply
  random_select_goals_rpc context challenge_id count replace_existing exclude_active = do
    user_id ← extract_user_id_from_context context
    required challenge_id "challenge_id is required"
    valid (is_positive count) invalid_argument "count must be greater than 0"
    result ←
        service
          (random_select_goals server.rules server.host
            (selection_request user_id challenge_id replace_existing) count exclude_active
            (some server.goal_cache) (some server.repo))
          random_status
    selection_reply result
