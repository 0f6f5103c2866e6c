-- ===== src/Tests/Paths.antt =====
-- Paths below a base path, and below one that ends with a slash.
use extend_challenge_service.Base.{
  ℕ, ◌&&◌, ◌==◌, some, [], ◌∷◌, ◌++◌, ◌≡◌, refl, inl, inr, arith, Bool-cases, if◌then◌else◌,
}
use extend_challenge_service.Response.Bytes.{Bytes, ascii}
use extend_challenge_service.Startup.Routes.{get_base_path, route}
use extend_challenge_service.Startup.Routes.Laws.{under, route-under}
use extend_challenge_service.Startup.Routes.Slash.{Single, Elsewhere, route-Elsewhere}

abbrev as_it_is : Bytes → Bytes
as_it_is path = path

route-under_example :
    route as_it_is (ascii "/challenge") (ascii "/challenge" ++ ascii "/v1/challenges")
    ≡ under (ascii "/challenge") (ascii "/v1/challenges")
route-under_example = route-under (ascii "challenge") (ascii "/v1/challenges") as_it_is refl

-- One slash for several that stand side by side; the byte before the text is given.
abbrev squeeze_after : ℕ → Bytes → Bytes
squeeze_after p [] = []
squeeze_after p (b ∷ rest) =
    if p == b'/' && b == b'/' then squeeze_after b rest else b ∷ squeeze_after b rest

abbrev squeeze : Bytes → Bytes
squeeze [] = []
squeeze (b ∷ rest) = b ∷ squeeze_after b rest

squeeze_after-Single : (p : ℕ) (rest : Bytes) → Single (p ∷ squeeze_after p rest)
squeeze_after-Single p [] = tt
squeeze_after-Single p (b ∷ rest) = elim (Bool-cases (p == b'/' && b == b'/')) [
  | inl e ↦ let same : p ≡ b = ground arith in rw (e, same) (squeeze_after-Single b rest)
  | inr e ↦ rw e ((λ both. ground (arith, both)), squeeze_after-Single b rest)
]

squeeze-Single : (path : Bytes) → Single (squeeze path)
squeeze-Single [] = tt
squeeze-Single (b ∷ rest) = squeeze_after-Single b rest

route-Elsewhere_example :
    (get_base_path (ascii "/challenge" ++ ascii "/") ≡ some (ascii "/challenge" ++ ascii "/"))
    × ((path : Bytes) → Elsewhere (route squeeze (ascii "/challenge" ++ ascii "/") path))
route-Elsewhere_example = route-Elsewhere squeeze squeeze-Single (ascii "/challenge") refl
