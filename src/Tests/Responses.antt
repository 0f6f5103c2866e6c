-- ===== src/Tests/Responses.antt =====
-- Runs of the response functions, the cache and the error mapper.
use extend_challenge_service.Base.{
  String, Bool, true, not, ◌&&◌, ◌==◌, length, none, some, [], ◌∷◌, ◌++◌, ◌≡◌, refl, All, arith,
}
use extend_challenge_service.Mapper.Errors.{sentinel, wrap, not_found}
use extend_challenge_service.Mapper.Status.{Status, map_error_to_grpc_status}
use extend_challenge_service.Mapper.Status.Laws.{
  code, error_code, innermost, map_error_to_grpc_status-code,
}
use extend_challenge_service.Response.Bytes.{Bytes, ascii, index, ok}
use extend_challenge_service.Response.Escape.{escape_json_string}
use extend_challenge_service.Response.Escape.Laws.{read_string, read-escape_json_string}
use extend_challenge_service.Response.Fields.{Formats}
use extend_challenge_service.Response.Inject.{inject_progress_into_challenge}
use extend_challenge_service.Response.Inject.Brackets.{
  IsInside, mark, inject_progress_into_challenge_bracket,
}
use extend_challenge_service.Pb.{PbGoal, PbChallenge}
use extend_challenge_service.Cache.{Marshaler}
use extend_challenge_service.Mapper.Proto.{empty_goal}

map_error_to_grpc_status-code_example :
    (s : Status) × (map_error_to_grpc_status (some (wrap "claim" (sentinel not_found))) ≡ some s)
    × (map_error_to_grpc_status (some (innermost (wrap "claim" (sentinel not_found)))) ≡ some s)
    × (code s ≡ error_code (innermost (wrap "claim" (sentinel not_found))))
map_error_to_grpc_status-code_example =
    map_error_to_grpc_status-code (wrap "claim" (sentinel not_found))

read-escape_json_string_example :
    read_string (escape_json_string (ascii "a\"b\n") ++ b'"' ∷ ascii "}")
    ≡ some (ascii "a\"b\n", ascii "}")
read-escape_json_string_example = read-escape_json_string (ascii "a\"b\n") (ascii "}")

abbrev formats : Formats
formats = record { rfc3339 = λ t. []; utf8 = ascii }

-- A challenge as it is cached, whose first goal's name is `a]`.
abbrev head : Bytes
head = ascii "{\"challengeId\":\"daily\",\"name\":\"Daily\","

abbrev first_goal : Bytes
first_goal = ascii "{\"goalId\":\"hunt\",\"name\":\"a"

abbrev bytes_after : Bytes
bytes_after = ascii "\",\"prerequisites\":[]}]}"

goals_first :
    index (ascii "\"goals\":") (head ++ (mark ++ (first_goal ++ b']' ∷ bytes_after)))
    ≡ some (length head)
unfolding index
goals_first = refl

abbrev is_inside : Bytes → Bool
is_inside [] = true
is_inside (c ∷ cs) = not (c == b'[') && (not (c == b']') && (not (c == b'}') && is_inside cs))

is_inside-IsInside : (n : Bytes) → is_inside n ≡ true → All IsInside n
is_inside-IsInside [] h = tt
is_inside-IsInside (c ∷ cs) h = (
  ((λ e. ground arith), (λ e. ground arith), (λ e. ground arith)),
  is_inside-IsInside cs (ground arith),
)

inject_progress_into_challenge_bracket_example :
    inject_progress_into_challenge formats
      (λ n. 100)
      []
      (head ++ (mark ++ (first_goal ++ b']' ∷ bytes_after)))
    ≡ ok (head ++ (mark ++ b']' ∷ bytes_after))
inject_progress_into_challenge_bracket_example =
    inject_progress_into_challenge_bracket formats (λ n. 100) [] head first_goal bytes_after
      goals_first (is_inside-IsInside first_goal refl)

abbrev marshaler : Marshaler
marshaler = record {
  marshal_goal = λ g. ok (ascii g.goal_id);
  marshal_challenge = λ c. ok (ascii c.name);
}

abbrev hunt : PbGoal
hunt = record empty_goal { goal_id = "hunt" }

abbrev challenge_named : String → PbChallenge
challenge_named name = record {
  challenge_id = "daily";
  name = name;
  description = "";
  goals = none ∷ some hunt ∷ [];
}
