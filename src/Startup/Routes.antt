-- ===== src/Startup/Routes.antt =====
-- main.go: the paths that the HTTP server serves, and pkg/common/utils.go and pkg/common/gateway.go: the base
-- path before them. Paths are texts of bytes with no escapes and no braces.
pub mod Laws
pub mod Slash
use extend_challenge_service.Base.{
  Bool, true, false, not, ◌&&◌, Option, none, some, List, [], ◌∷◌, ◌++◌, length, ltb, if◌then◌else◌,
}
use extend_challenge_service.Response.Bytes.{Bytes, ascii, bytes_eq, starts_with}

-- `GetBasePath`, from the variable's value; with `none` the program ends.
unfoldable pub get_base_path : Bytes → Option Bytes
get_base_path value =
    if bytes_eq value [] then none else if starts_with value (ascii "/") then some value else none

-- What is registered: the two optimized handlers, the pages and the file of the API's description, and
-- the gateway, which takes the rest.
pub data Endpoint : Type 0 where
  challenges initialize docs_page docs_file gateway : Endpoint

-- Where a request goes; the pages and the gateway are given a path that lacks a prefix.
pub data Target : Type 0 where
  challenges_handler initialize_handler docs_file_handler not_found : Target
  docs_page_handler gateway_handler redirect : Bytes → Target

abbrev pub Patterns : Type 0
Patterns = List (Bytes × Endpoint)

abbrev pub docs : Bytes → Bytes
docs base_path = base_path ++ ascii "/apidocs/"

-- The mux of `newGRPCGatewayHTTPServer`.
unfoldable pub registered : Bytes → Patterns
registered base_path =
    (base_path ++ ascii "/v1/challenges", challenges)
    ∷ (base_path ++ ascii "/v1/challenges/initialize", initialize)
    ∷ (ascii "/", gateway)
    ∷ (docs base_path, docs_page)
    ∷ (base_path ++ ascii "/apidocs/api.json", docs_file)
    ∷ []

-- `http.ServeMux`: a pattern that is the path comes first, and then the longest one that ends with a
-- slash and starts the path.
unfoldable pub exact : Bytes → Patterns → Option Endpoint
exact path [] = none
exact path ((pattern_path, e) ∷ more) =
    let later = exact path more in if bytes_eq pattern_path path then some e else later

abbrev pub ends_with_slash : Bytes → Bool
ends_with_slash [] = false
ends_with_slash (b ∷ []) = bytes_eq (b ∷ []) (ascii "/")
ends_with_slash (b ∷ c ∷ bs) = ends_with_slash (c ∷ bs)

abbrev pub longer : Bytes × Endpoint → Option (Bytes × Endpoint) → Option (Bytes × Endpoint)
longer x none = some x
longer x (some y) = if ltb (length x.0) (length y.0) then some y else some x

unfoldable pub subtree : Bytes → Patterns → Option (Bytes × Endpoint)
subtree path [] = none
subtree path ((pattern_path, e) ∷ more) =
    let later = subtree path more in
    if ends_with_slash pattern_path && starts_with path pattern_path
    then longer (pattern_path, e) later
    else later

-- `http.StripPrefix`: a path without the prefix is not found.
unfoldable pub strip_prefix : Bytes → Bytes → (Bytes → Target) → Target
strip_prefix [] path go_on = go_on path
strip_prefix (p ∷ ps) [] go_on = not_found
strip_prefix (p ∷ ps) (b ∷ bs) go_on =
    let later = strip_prefix ps bs go_on in if bytes_eq (p ∷ []) (b ∷ []) then later else not_found

unfoldable pub target : Bytes → Bytes → Endpoint → Target
unfolding strip_prefix
target base_path path challenges = challenges_handler
target base_path path initialize = initialize_handler
target base_path path docs_file = docs_file_handler
target base_path path docs_page = strip_prefix (docs base_path) path docs_page_handler
target base_path path gateway = strip_prefix base_path path gateway_handler

unfoldable pub subtree_target : Bytes → Bytes → Option (Bytes × Endpoint) → Target
subtree_target base_path path none = not_found
subtree_target base_path path (some (_, e)) = target base_path path e

unfoldable pub matched : Bytes → Bytes → Option Endpoint → Target
matched base_path path (some e) = target base_path path e
matched base_path path none = subtree_target base_path path (subtree path (registered base_path))

abbrev pub found : Option Endpoint → Bool
found none = false
found (some e) = true

-- The server, where `clean` is the mux's `cleanPath`. A path that only lacks the slash of a pattern, or
-- that is not clean, is redirected.
unfoldable pub route : (Bytes → Bytes) → Bytes → Bytes → Target
route clean base_path path =
    let here = exact (clean path) (registered base_path) in
    if not (found here) && found (exact (clean path ++ ascii "/") (registered base_path))
    then redirect (clean path ++ ascii "/")
    else if bytes_eq (clean path) path
    then matched base_path path here
    else redirect (clean path)
