-- ===== src/Startup.antt =====
-- main.go: the part of the start that fills the cache of pre-marshalled challenges.
pub mod Laws
pub mod Routes
pub mod Environment
pub mod Main
pub mod Migrations
use extend_challenge_service.Base.{ℕ, suc, Option, some, List, [], ◌∷◌}
use extend_challenge_service.Cache.{Marshaler, new_cache, Filled, warm_up}
use extend_challenge_service.Domain.{Time, Challenge, Rules}
use extend_challenge_service.Mapper.Proto.{Platform, Pools, Converted, ok, err, challenge_to_proto}
use extend_challenge_service.Pb.{PbChallenge}

-- A challenge that cannot be converted is only logged.
unfoldable pub keep_converted :
    Converted PbChallenge → List (Option PbChallenge) × Pools → List (Option PbChallenge) × Pools
keep_converted (ok one) rest = (some one ∷ rest.0, rest.1)
keep_converted (err e) rest = rest

-- `now n` is what the clock tells the conversion of the challenge at position `n`.
module _ (platform : Platform) (rules : Rules) (now : ℕ → Time) where
  -- The loop over the challenges, with no progress.
  unfoldable pub convert_for_cache : ℕ → List Challenge → Pools → List (Option PbChallenge) × Pools
  unfolding keep_converted
  convert_for_cache n [] s = ([], s)
  convert_for_cache n (challenge ∷ challenges) s =
      let converted = challenge_to_proto platform rules (now n) [] (some challenge) s in
      keep_converted converted.0 (convert_for_cache (suc n) challenges converted.1)

  -- With an error the program ends.
  unfoldable pub start_cache : Marshaler → List Challenge → Pools → Filled
  unfolding convert_for_cache
  start_cache m challenges s = warm_up m (convert_for_cache 0 challenges s).0 new_cache
