-- ===== src/Orchestrator/Policy.antt =====
-- `_limits` and `_engines`: what a run may spend, and which engines it starts. Rates and times that
-- are floats in the source are counted in thousandths.
use api_scanner.Common.{
  ℕ, ◌≤◌, Bool, true, false, not, ◌≡◌, refl, Option, none, some, List, [], ◌∷◌, arith, min, select,
  is_empty, if◌then◌else◌, ◌==◌, All, Memᴰ, All-intro, mem-select, mem-select_inv, ◌⊎◌, inl, inr,
}

pub data Profile : Type 0 where
  quick safe standard deep aggressive : Profile

pub data EngineName : Type 0 where
  custom zap nuclei wfuzz wuppiefuzz : EngineName

-- The limits of app/core/config.py.
pub record Settings : Type 0 where
  pub default_rate_limit : ℕ
  pub max_concurrency : ℕ
  pub request_timeout : ℕ
  pub max_requests : ℕ
  pub scan_timeout : ℕ

-- scan.request_config["policy"]
pub record ScanPolicy : Type 0 where
  pub rate_limit : Option ℕ
  pub concurrency : Option ℕ
  pub request_timeout : Option ℕ
  pub max_requests : Option ℕ
  pub max_duration : Option ℕ
  pub enabled_engines : Option (List EngineName)

pub record ScanLimits : Type 0 where
  pub rate_limit : ℕ
  pub concurrency : ℕ
  pub request_timeout : ℕ
  pub max_requests : ℕ
  pub max_duration : ℕ

-- PROFILE_DEFAULTS
unfoldable pub default_engines : Profile → List EngineName
default_engines quick = custom ∷ nuclei ∷ zap ∷ []
default_engines safe = custom ∷ zap ∷ []
default_engines standard = custom ∷ zap ∷ nuclei ∷ wfuzz ∷ wuppiefuzz ∷ []
default_engines deep = custom ∷ zap ∷ nuclei ∷ wfuzz ∷ wuppiefuzz ∷ []
default_engines aggressive = custom ∷ []

unfoldable pub default_requests : Profile → ℕ
default_requests quick = 250
default_requests safe = 500
default_requests standard = 2000
default_requests deep = 10000
default_requests aggressive = 20000

unfoldable pub default_duration : Profile → ℕ
default_duration quick = 300
default_duration safe = 600
default_duration standard = 1800
default_duration deep = 3600
default_duration aggressive = 7200

-- policy.get(name) or default
abbrev pub or_default : Option ℕ → ℕ → ℕ
or_default none d = d
or_default (some v) d = if v == 0 then d else v

-- Orchestrator._limits
unfoldable pub limits : Settings → Profile → ScanPolicy → ScanLimits
unfolding default_requests default_duration
limits s profile policy = record {
  rate_limit = min (or_default policy.rate_limit s.default_rate_limit) s.default_rate_limit;
  concurrency = min (or_default policy.concurrency s.max_concurrency) s.max_concurrency;
  request_timeout = min (or_default policy.request_timeout s.request_timeout) s.request_timeout;
  max_requests = min (or_default policy.max_requests (default_requests profile)) s.max_requests;
  max_duration = min (or_default policy.max_duration (default_duration profile)) s.scan_timeout;
}

abbrev pub is_custom : EngineName → Bool
is_custom custom = true
is_custom _ = false

-- list(requested or PROFILE_DEFAULTS[scan.profile]["engines"])
unfoldable pub requested_engines : Profile → Option (List EngineName) → List EngineName
unfolding default_engines
requested_engines profile none = default_engines profile
requested_engines profile (some names) = if is_empty names then default_engines profile else names

-- ["custom", *(name for name in names if name != "custom")]
unfoldable pub engine_names : Profile → ScanPolicy → List EngineName
unfolding requested_engines
engine_names profile policy =
    custom ∷ select (λ n. not (is_custom n)) (requested_engines profile policy.enabled_engines)

-- For all settings, profiles and policies: no limit of a scan is above the deployment's own.
pub limits_bounded :
    (s : Settings) (profile : Profile) (policy : ScanPolicy)
    → let l : ScanLimits = limits s profile policy in
      (l.rate_limit ≤ s.default_rate_limit)
      × (l.concurrency ≤ s.max_concurrency)
      × (l.request_timeout ≤ s.request_timeout)
      × (l.max_requests ≤ s.max_requests)
      × (l.max_duration ≤ s.scan_timeout)
unfolding limits
limits_bounded s profile policy = omega arith

-- The engines after the first, and the engine that is first.
abbrev pub CustomFirst : List EngineName → Type 0
CustomFirst [] = ⊥
CustomFirst (n ∷ ns) = (n ≡ custom) × All (λ m. is_custom m ≡ false) ns

-- For every profile and policy: the custom engine runs first and runs once, and every requested
-- engine, or every engine of the profile if none is requested, is among those that run.
pub engine_names-CustomFirst :
    (profile : Profile) (policy : ScanPolicy)
    → CustomFirst (engine_names profile policy)
      × ((n : EngineName)
          → Memᴰ n (requested_engines profile policy.enabled_engines)
          → Memᴰ n (engine_names profile policy))
unfolding engine_names
engine_names-CustomFirst profile policy = (
  (
    refl,
    All-intro _ _ (λ n m.
        let (_, e) =
          mem-select_inv (λ n. not (is_custom n)) (requested_engines profile policy.enabled_engines)
            m in
        ground arith),
  ),
  λ n m. elim (is_custom_cases n) [
    | inl e ↦ Memᴰ.head e
    | inr e ↦ Memᴰ.tail (mem-select (λ n. not (is_custom n)) _ m e)
  ],
)
  where
    is_custom_cases : (n : EngineName) → (n ≡ custom) ⊎ (not (is_custom n) ≡ true)
    is_custom_cases custom = inl refl
    is_custom_cases _ = inr refl
