-- ===== src/Server/Selections/Codes.antt =====
-- The status of a selection in a challenge that does not exist.
use Prim.Native.String
use extend_challenge_service.Base.{
  String, Bool, true, false, not, Option, none, some, List, ◌∷◌, zero, suc, length, ◌==◌, ◌≡◌, ◌≢◌,
  refl, sym, ap, ◌∙◌, str_eq-false, suc-not-zero,
}
use extend_challenge_service.Base.Int.{ℤ, pos, negsuc}
use text.Mathlib.TextLemmas.{append_assoc}
use extend_challenge_service.Mapper.Status.{Status, plain, not_found, invalid_argument}
use extend_challenge_service.Mapper.Text.{contains}
use extend_challenge_service.Mapper.Text.Laws.{contains-infix}
use extend_challenge_service.Server.{
  Server, Reply, refuse, World, Handler, ◌>>=◌, ◌>>◌, required, valid, service,
  extract_user_id_from_context,
}
use extend_challenge_service.Pb.{PbGoalSelectionResponse}
use extend_challenge_service.Mapper.Errors.{Error}
use extend_challenge_service.Server.Selections.{
  is_positive, selection_request, selection_reply, batch_status, random_status,
  batch_select_goals_rpc, random_select_goals_rpc,
}
use extend_challenge_service.Service.Selection.{GoalSelectionResult, SelectionRequest}
use extend_challenge_service.Service.Selection.Requests.{
  challenge_missing, positive, batch_select_goals, random_select_goals,
}
use extend_challenge_service.Service.Effects.{Trace, M, Repository, Host, fails}
use extend_challenge_service.Domain.{Rules, GoalCache}

abbrev pub missing_text : String → String
missing_text id = String.◌++◌ "challenge '" (String.◌++◌ id "' not found")

missing_text-split :
    (id : String)
    → missing_text id
      ≡ String.◌++◌ (String.◌++◌ "challenge '" (String.◌++◌ id "' ")) (String.◌++◌ "not found" "")
missing_text-split id = sym (
    append_assoc "challenge '" (String.◌++◌ id "' ") "not found"
    ∙ ap (String.◌++◌ "challenge '") (append_assoc id "' " "not found"))

-- The text ends with what the handlers look for.
missing_text-contains : (id : String) → contains (missing_text id) "not found" ≡ true
missing_text-contains id =
    rw (missing_text-split id)
      (contains-infix (String.◌++◌ "challenge '" (String.◌++◌ id "' ")) "not found" "")

-- The service refuses such a request before it calls anything.
module _ (rules : Rules) (host : Host) (r : SelectionRequest) (cache : GoalCache)
    (repo : Repository) (t : Trace) (h1 : r.user_id ≢ "") (h2 : r.challenge_id ≢ "")
    (h3 : r.namespace ≢ "") (h5 : cache.get_challenge_by_challenge_id r.challenge_id ≡ none) where
  batch_select_goals-missing :
      (id : String) (ids : List String)
      → batch_select_goals rules host r (id ∷ ids) (some cache) (some repo) t
        ≡ (fails (challenge_missing r.challenge_id) false, t)
  unfolding batch_select_goals
  batch_select_goals-missing id ids =
      rw
        (
          str_eq-false r.user_id "" h1,
          str_eq-false r.challenge_id "" h2,
          str_eq-false r.namespace "" h3,
          suc-not-zero (length ids),
          h5,
        )
        refl

  random_select_goals-missing :
      (count : ℤ) (exclude : Bool)
      → is_positive count ≡ true
      → random_select_goals rules host r count exclude (some cache) (some repo) t
        ≡ (fails (challenge_missing r.challenge_id) false, t)
  unfolding random_select_goals positive
  random_select_goals-missing (pos zero) exclude h4 = cc
  random_select_goals-missing (negsuc n) exclude h4 = cc
  random_select_goals-missing (pos (suc n)) exclude h4 =
      rw
        (
          str_eq-false r.user_id "" h1,
          str_eq-false r.challenge_id "" h2,
          str_eq-false r.namespace "" h3,
          h5,
        )
        refl

module _ (server : Server) where
  batch_status-missing :
      (id : String) → batch_status server (challenge_missing id) ≡ plain not_found (missing_text id)
  unfolding batch_status
  batch_status-missing id = rw (missing_text-contains id) refl

  random_status-missing :
      (id : String)
      → random_status server (challenge_missing id) ≡ plain not_found (missing_text id)
  unfolding random_status
  random_status-missing id = rw (missing_text-contains id) refl

  module _ (context : Option String) (user challenge_id : String) (w : World)
      (at : context ≡ some user) (h1 : user ≢ "") (h2 : challenge_id ≢ "")
      (h3 : server.namespace ≢ "")
      (h5 : server.goal_cache.get_challenge_by_challenge_id challenge_id ≡ none) where
    abbrev NotFound : Reply PbGoalSelectionResponse × World → Type 0
    NotFound x = x ≡ (refuse (plain not_found (missing_text challenge_id)), w)

    -- A handler whose service call ends with the error for the unknown challenge.
    service_missing :
        (m : M GoalSelectionResult) (f : Error → Status)
        (k : GoalSelectionResult → Handler PbGoalSelectionResponse)
        → f (challenge_missing challenge_id) ≡ plain not_found (missing_text challenge_id)
        → m w.trace ≡ (fails (challenge_missing challenge_id) false, w.trace)
        → NotFound ((service m f >>= k) w)
    service_missing m f k q h = rw h (rw q refl)

    -- The two handlers start alike.
    checks_missing :
        (b : Bool) (why : String) (k : String → Handler PbGoalSelectionResponse)
        → b ≡ true
        → NotFound (k user w)
        → NotFound (
            (extract_user_id_from_context context >>= (λ user_id.
                required challenge_id "challenge_id is required"
                >> (valid b invalid_argument why >> k user_id)))
              w)
    unfolding extract_user_id_from_context
    checks_missing b why k hb hk =
        rw (at, str_eq-false user "" h1, str_eq-false challenge_id "" h2, hb) hk

  -- Both selections of a named user in a challenge that is not configured are refused as not found,
  -- with the challenge's ID in the text, and call nothing, if the request is otherwise complete.
  pub unknown_challenge :
      (context : Option String) (user challenge_id : String) (count : ℤ) (id : String)
      (ids : List String) (replace exclude : Bool) (w : World)
      → context ≡ some user
      → user ≢ ""
      → challenge_id ≢ ""
      → server.namespace ≢ ""
      → is_positive count ≡ true
      → server.goal_cache.get_challenge_by_challenge_id challenge_id ≡ none
      → (random_select_goals_rpc server context challenge_id count replace exclude w
          ≡ (refuse (plain not_found (missing_text challenge_id)), w))
        × (batch_select_goals_rpc server context challenge_id (id ∷ ids) replace w
            ≡ (refuse (plain not_found (missing_text challenge_id)), w))
  unfolding random_select_goals_rpc batch_select_goals_rpc
  unknown_challenge context user challenge_id count id ids replace exclude w at h1 h2 h3 h4 h5 =
      let r = selection_request server user challenge_id replace in
      (
        checks_missing context user challenge_id w at h1 h2 h3 h5 (is_positive count) _ _ h4 (
            service_missing context user challenge_id w at h1 h2 h3 h5
              (random_select_goals server.rules server.host r count exclude (some server.goal_cache)
                (some server.repo))
              (random_status server) (selection_reply server) (random_status-missing challenge_id)
              (random_select_goals-missing server.rules server.host r server.goal_cache server.repo
                w.trace h1 h2 h3 h5 count exclude h4)),
        checks_missing context user challenge_id w at h1 h2 h3 h5 (not (length (id ∷ ids) == 0)) _ _
            (rw (suc-not-zero (length ids)) refl)
            (service_missing context user challenge_id w at h1 h2 h3 h5
              (batch_select_goals server.rules server.host r (id ∷ ids) (some server.goal_cache)
                (some server.repo))
              (batch_status server) (selection_reply server) (batch_status-missing challenge_id)
              (batch_select_goals-missing server.rules server.host r server.goal_cache server.repo
                w.trace h1 h2 h3 h5 id ids)),
      )
