-- ===== src/Base/Dict.antt =====
-- Go's `map[string]T` as an association list with at most one entry for a key, kept by `insert`.
use Prim.Native.String.{String}
use mathlib.Core.Path.{◌≡◌, refl}
use mathlib.Core.Option.{Option, none, some}
use mathlib.Core.List.{List, [], ◌∷◌}
use native.Mathlib.Omega.{arith}
use text.Mathlib.Text.{◌==◌}
use text.Mathlib.TextEquality.{eq_iff}
use extend_challenge_service.Base.Tests.{if◌then◌else◌}

module _ {ℓ} {V : Type ℓ} where
  -- `m[wanted]`, with `none` for a missing key.
  unfoldable pub lookup : String → List (String × V) → Option V
  lookup wanted [] = none
  lookup wanted ((key, value) ∷ rest) =
      let later = lookup wanted rest in if key == wanted then some value else later

  -- `m[key] = value`: an entry that is there is overwritten in its place.
  unfoldable pub insert : String → V → List (String × V) → List (String × V)
  insert key value [] = (key, value) ∷ []
  insert key value ((other, old) ∷ rest) =
      let later = insert key value rest in
      if other == key then (key, value) ∷ rest else (other, old) ∷ later

  -- Only the written key is answered differently afterwards.
  pub lookup-insert :
      (key wanted : String) (value : V) (rest : List (String × V))
      → lookup wanted (insert key value rest)
        ≡ (if key == wanted then some value else lookup wanted rest)
  unfolding lookup insert
  lookup-insert key wanted value [] = refl
  lookup-insert key wanted value ((other, old) ∷ rest) =
      let later = lookup-insert key wanted value rest in
      ground (arith, later, eq_iff other key, eq_iff other wanted, eq_iff key wanted)
