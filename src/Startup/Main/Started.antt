-- ===== src/Startup/Main/Started.antt =====
-- How the start of main.go ends.
use mathlib.Core.List.{append_assoc}
use extend_challenge_service.Base.{
  String, Bool, true, false, Option, none, some, List, [], ◌∷◌, ◌++◌, ◌≡◌, ◌≢◌, refl, subst, inl,
  inr, str_eq, eq_iff, Bool-cases, if◌then◌else◌,
}
use extend_challenge_service.Cache.{SerializedChallengeCache, Filled}
use extend_challenge_service.Domain.{Challenge}
use extend_challenge_service.Mapper.Errors.{Error}
use extend_challenge_service.Response.Bytes.{Bytes}
use extend_challenge_service.Startup.{start_cache}
use extend_challenge_service.Startup.Environment.{get_env, auth_enabled, reward_mode, needs_login}
use extend_challenge_service.Startup.Main.{
  Action, initialize_validator, login, connect, dial_gateway, serve_http, serve_metrics, listen,
  serve_grpc, migrate, load_config, trace, Actions, Machine, RewardMode, mock, real, Running,
  Reached, going, fatal, Run, bind_reached, act, interval, set_up_validator, log_in,
  migrations_path, config_path, service_name, load_configuration, serve, start, choose_client,
  or_fatal, filled,
}
use extend_challenge_service.Startup.Routes.{get_base_path}

-- The actions whose failure ends the program.
abbrev pub needed : Action → Bool
needed (initialize_validator seconds) = false
needed serve_http = false
needed serve_metrics = false
needed serve_grpc = false
needed _ = true

module _ (m : Machine) where
  -- Every action that is needed was answered well.
  abbrev pub Answered : Actions → Type 0
  Answered [] = Unit
  Answered (a ∷ t) = (needed a ≡ true → m.fails (a ∷ t) ≡ false) × Answered t

  -- The actions of each part of the start, after those before it.
  abbrev pub opened : Actions
  opened = if auth_enabled m.environment then initialize_validator (interval m) ∷ [] else []

  abbrev pub logged_in : Actions
  logged_in = if needs_login m.environment then login ∷ opened else opened

  abbrev pub loaded_after : Actions → Actions
  loaded_after t = load_config (config_path m) ∷ migrate (migrations_path m) ∷ connect ∷ t

  abbrev pub serving_after : Actions → Actions
  serving_after t =
      serve_grpc ∷ listen ∷ trace (service_name m) ∷ serve_metrics ∷ serve_http ∷ dial_gateway ∷ t

  abbrev pub loading : Actions
  loading = loaded_after logged_in

  abbrev pub serving : Actions
  serving = serving_after loading

  -- The actions stop at one that is needed and failed, the only such one, on the way to `whole`.
  pub record Broken (whole t : Actions) : Type 0 where
    pub last : Action
    pub before : Actions
    pub is_last : t ≡ last ∷ before
    pub is_needed : needed last ≡ true
    pub failed : m.fails t ≡ true
    pub answered : Answered before
    pub later : Actions
    pub on_the_way : later ++ t ≡ whole

  later-Broken : {whole t : Actions} (more : Actions) → Broken whole t → Broken (more ++ whole) t
  later-Broken {whole} {t} more b = record {
    last = b.last;
    before = b.before;
    is_last = b.is_last;
    is_needed = b.is_needed;
    failed = b.failed;
    answered = b.answered;
    later = more ++ b.later;
    on_the_way = rw (append_assoc more b.later t, b.on_the_way) refl;
  }

  -- A part of the start that either did all its actions, or broke.
  abbrev Part {ℓ} : {A : Type ℓ} → (A → Type 0) → Actions → Reached A × Actions → Type 0
  Part Q whole (going a, t) = (t ≡ whole) × Answered t × Q a
  Part Q whole (fatal why, t) = Broken whole t

  breaks :
      (a : Action) (t later : Actions)
      → needed a ≡ true
      → m.fails (a ∷ t) ≡ true
      → Answered t
      → Broken (later ++ a ∷ t) (a ∷ t)
  breaks a t later n f h = record {
    last = a;
    before = t;
    is_last = refl;
    is_needed = n;
    failed = f;
    answered = h;
    later = later;
    on_the_way = refl;
  }

  act_rule {ℓ} :
      {B : Type ℓ} (P : Reached B × Actions → Type 0) (a : Action) (why : String) (k : Run B)
      (t : Actions)
      → (m.fails (a ∷ t) ≡ true → P (fatal why, a ∷ t))
      → (m.fails (a ∷ t) ≡ false → P (k (a ∷ t)))
      → P (bind_reached (act m a why t) (λ _. k))
  act_rule P a why k t stop rest = elim (Bool-cases (m.fails (a ∷ t))) [
    | inl e ↦ rw e (stop e)
    | inr e ↦ rw e (rest e)
  ]

  -- To prove a property of all ends of a part and what follows it.
  module _ {ℓ κ} {A : Type ℓ} {B : Type κ} (P : Reached B × Actions → Type 0) where
    part_rule :
        {Q : A → Type 0} {whole : Actions} (x : Reached A × Actions) (k : A → Run B)
        → Part Q whole x
        → ((why : String) (t : Actions) → Broken whole t → P (fatal why, t))
        → ((a : A) → Q a → Answered whole → P (k a whole))
        → P (bind_reached x k)
    part_rule (going a, t) k (e, h, q) stop rest = rw e (rest a q (rw e at h))
    part_rule (fatal why, t) k b stop rest = stop why t b

  set_up_validator-Part :
      Part
        (λ v. v ≡ (if auth_enabled m.environment then some (interval m) else none))
        opened
        (set_up_validator m [])
  unfolding set_up_validator
  set_up_validator-Part = elim (Bool-cases (auth_enabled m.environment)) [
    | inl e ↦ rw e (refl, ((λ n. cc), tt), refl)
    | inr e ↦ rw e (refl, tt, refl)
  ]

  log_in-Part : Answered opened → Part (λ _. Unit) logged_in (log_in m opened)
  unfolding log_in
  log_in-Part h = elim (Bool-cases (needs_login m.environment)) [
    | inr e ↦ rw e (refl, h, tt)
    | inl e ↦
        let why : String = "Error unable to login using clientId and clientSecret" in
        rw e (elim (Bool-cases (m.fails (login ∷ opened))) [
          | inl f ↦ rw f (breaks login opened [] refl f h)
          | inr f ↦ rw f (refl, ((λ _. f), h), tt)
        ])
  ]

  load_configuration-Part :
      (t : Actions)
      → Answered t
      → Part (λ cs. cs ≡ m.config (loaded_after t)) (loaded_after t) (load_configuration m t)
  unfolding load_configuration
  load_configuration-Part t h =
      let P = Part (λ cs. cs ≡ m.config (loaded_after t)) (loaded_after t) in
      let load = load_config (config_path m) in
      let move = migrate (migrations_path m) in
      act_rule P connect _ _ t (λ f. breaks connect t (load ∷ move ∷ []) refl f h)
        (λ f1.
          act_rule P move _ _ _ (λ f. breaks move (connect ∷ t) (load ∷ []) refl f ((λ _. f1), h))
            (λ f2.
              act_rule P load _ _ _
                (λ f. breaks load (move ∷ connect ∷ t) [] refl f ((λ _. f2), ((λ _. f1), h)))
                (λ f3. (refl, ((λ _. f3), ((λ _. f2), ((λ _. f1), h))), refl))))

  serve-Part : (t : Actions) → Answered t → Part (λ _. Unit) (serving_after t) (serve m t)
  unfolding serve
  serve-Part t h =
      let P = Part (λ _. Unit) (serving_after t) in
      let tracing = trace (service_name m) in
      let threads = serve_metrics ∷ serve_http ∷ dial_gateway ∷ t in
      act_rule P dial_gateway _ _ t
        (λ f.
          breaks dial_gateway t (serve_grpc ∷ listen ∷ tracing ∷ serve_metrics ∷ serve_http ∷ [])
            refl f h)
        (λ f1.
          let well : Answered threads = ((λ n. cc), ((λ n. cc), ((λ _. f1), h))) in
          act_rule P tracing _ _ threads
            (λ f. breaks tracing threads (serve_grpc ∷ listen ∷ []) refl f well)
            (λ f2.
              act_rule P listen _ _ (tracing ∷ threads)
                (λ f. breaks listen (tracing ∷ threads) (serve_grpc ∷ []) refl f ((λ _. f2), well))
                (λ f3. (refl, ((λ n. cc), ((λ _. f3), ((λ _. f2), well))), tt))))

  abbrev pub configured_base_path : Option Bytes
  configured_base_path = get_base_path (m.utf8 (get_env m.environment "BASE_PATH" ""))

  abbrev pub cache_of : List Challenge → Filled
  cache_of challenges = start_cache m.platform m.rules m.now m.marshaler challenges m.pools

  -- The reward client is that of the mode, and the AGS client is used only after a login.
  abbrev pub ClientOf : RewardMode → Type 0
  ClientOf mock = reward_mode m.environment ≡ "mock"
  ClientOf real =
      (reward_mode m.environment ≡ "real") × (later : Actions) × (later ++ login ∷ opened ≡ loading)

  pub record IsStarted (r : Running) : Type 0 where
    pub at_base_path : configured_base_path ≡ some r.base_path
    pub checks_tokens : r.auth_enabled ≡ auth_enabled m.environment
    pub with_validator : r.token_validator ≡ (if r.auth_enabled then some (interval m) else none)
    pub of_config : r.challenges ≡ m.config loading
    pub serves : cache_of r.challenges ≡ (r.cache, none)
    pub pays : ClientOf r.reward_client

  pub data Outcome : Reached Running × Actions → Type 0 where
    started : {r : Running} → IsStarted r → Answered serving → Outcome (going r, serving)
    broken : {why : String} {t : Actions} → Broken serving t → Outcome (fatal why, t)
    no_base_path : {why : String} → configured_base_path ≡ none → Outcome (fatal why, [])
    no_cache :
        {why : String} {e : Error}
        → (cache_of (m.config loading)).1 ≡ some e
        → Answered loading
        → Outcome (fatal why, loading)
    unknown_mode :
        {why : String}
        → reward_mode m.environment ≢ "mock"
        → reward_mode m.environment ≢ "real"
        → Answered loading
        → Outcome (fatal why, loading)

  or_fatal_rule {ℓ κ} :
      {A : Type ℓ} {B : Type κ} (P : Reached B × Actions → Type 0) (o : Option A) (why : String)
      (t : Actions) (k : A → Run B)
      → (o ≡ none → P (fatal why, t))
      → ((a : A) → o ≡ some a → P (k a t))
      → P (bind_reached (or_fatal o why t) k)
  or_fatal_rule P none why t k stop rest = stop refl
  or_fatal_rule P (some a) why t k stop rest = rest a refl

  filled_rule :
      (P : Reached Running × Actions → Type 0) (x : Filled) (t : Actions)
      (k : SerializedChallengeCache → Run Running)
      → ((why : String) (e : Error) → x.1 ≡ some e → P (fatal why, t))
      → ((c : SerializedChallengeCache) → x ≡ (c, none) → P (k c t))
      → P (bind_reached (filled x t) k)
  filled_rule P (c, none) t k stop rest = rest c refl
  filled_rule P (c, some e) t k stop rest = stop _ e refl

  choose_client-ClientOf :
      (c : RewardMode) → choose_client (reward_mode m.environment) ≡ some c → ClientOf c
  unfolding choose_client needs_login
  choose_client-ClientOf c h =
      let mode = reward_mode m.environment in
      elim (Bool-cases (str_eq mode "mock")) [
        | inl e ↦
            let same : mock ≡ c = (let taken = rw e at h in cc) in
            subst ClientOf same ((eq_iff mode "mock").0 e)
        | inr e ↦ elim (Bool-cases (str_eq mode "real")) [
          | inr f ↦ absurd (let q = rw (e, f) at h in cc)
          | inl f ↦
              let same : real ≡ c = (let taken = rw (e, f) at h in cc) in
              subst ClientOf same ((eq_iff mode "real").0 f, loaded_after [], rw f refl)
        ]
      ]

  choose_client-eq-none :
      (mode : String) → choose_client mode ≡ none → (mode ≢ "mock") × (mode ≢ "real")
  unfolding choose_client
  choose_client-eq-none mode h = (λ e. let q = rw e at h in cc, λ e. let q = rw e at h in cc)

  opened-Broken : {t : Actions} → Broken opened t → Broken serving t
  opened-Broken b = elim (Bool-cases (needs_login m.environment)) [
    | inl e ↦ rw e (later-Broken (serving_after (loaded_after (login ∷ []))) b)
    | inr e ↦ rw e (later-Broken (serving_after (loaded_after [])) b)
  ]

  -- The start ends in one of five ways. It reaches the servers after all its actions in order, with
  -- every one that is needed answered well, with a token validator exactly if authorization is enabled,
  -- with the cache of the configured challenges, and with the reward client of the mode, which for AGS
  -- needs a login. Or it stops at the first needed action that fails, at a wrong base path before
  -- any action, or, once the challenges are loaded, at the cache or at an unknown mode.
  pub start-Outcome : Outcome (start m [])
  unfolding start
  start-Outcome =
      or_fatal_rule Outcome configured_base_path _ [] _ (λ e. no_base_path e)
        (λ base_path at.
          part_rule Outcome (set_up_validator m []) _ set_up_validator-Part
            (λ why t b. broken (opened-Broken b))
            (λ v validator h1.
              part_rule Outcome (log_in m opened) _ (log_in-Part h1)
                (λ why t b. broken (later-Broken (serving_after (loaded_after [])) b))
                (λ _ _ h2.
                  part_rule Outcome (load_configuration m logged_in) _
                    (load_configuration-Part logged_in h2)
                    (λ why t b. broken (later-Broken (serving_after []) b))
                    (λ challenges loads h3.
                      filled_rule Outcome (cache_of challenges) loading _
                        (λ why e fails. no_cache (rw loads at fails) h3)
                        (λ cache fills.
                          or_fatal_rule Outcome _ _ loading _
                            (λ unknown.
                              let (not_mock, not_real) = choose_client-eq-none _ unknown in
                              unknown_mode not_mock not_real h3)
                            (λ client chosen.
                              part_rule Outcome (serve m loading) _ (serve-Part loading h3)
                                (λ why t b. broken b)
                                (λ _ _ h4.
                                  started
                                    (record {
                                      at_base_path = at;
                                      checks_tokens = refl;
                                      with_validator = validator;
                                      of_config = loads;
                                      serves = fills;
                                      pays = choose_client-ClientOf client chosen;
                                    })
                                    h4)))))))
