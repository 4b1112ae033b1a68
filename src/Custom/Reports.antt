-- ===== src/Custom/Reports.antt =====
-- What the tests of an endpoint report: which checks, and a finding for each that is DETECTED. It is
-- about `Tested` and the pure parts of Custom/Passive.antt and Custom/Authorization.antt.
use api_scanner.Common.{
  ℕ, Bool, true, false, ◌≡◌, refl, Option, none, some, List, [], ◌∷◌, ◌++◌, map, Memᴰ, All,
  All-append, if◌then◌else◌,
}
use api_scanner.Common.Text.{Text, codes, text_eq}
use mathlib.Core.List.Memᴰ
use api_scanner.Domain.{FindingDraft}
use api_scanner.Coverage.{CheckStatus}
use api_scanner.Custom.{Endpoint, Context, Web}
use api_scanner.Custom.Checks.{
  CheckRecord, check, Tested, join_tested, one_check, detected_or_tested, Issue, finding,
}

abbrev pub is_detected : CheckRecord → Bool
is_detected c = elim c.row.status [ CheckStatus.detected ↦ true | _ ↦ false ]

-- The category of the findings of a check: its name, but for `reflected-xss`.
abbrev pub category_of : Text → Text
category_of name = if text_eq name (codes "reflected-xss") then codes "xss" else name

abbrev pub category_of_check : CheckRecord → Text
category_of_check c = elim c.row.check [ none ↦ [] | some name ↦ category_of name ]

pub map-quiet :
    {A : Type 0} (f : A → CheckRecord) (xs : List A)
    → ((a : A) → is_detected (f a) ≡ false)
    → All (λ c. is_detected c ≡ false) (map f xs)
map-quiet f [] h = tt
map-quiet f (x ∷ xs) h = (h x, map-quiet f xs h)

-- A finding of the category of the check, at its endpoint.
abbrev pub Supports : CheckRecord → FindingDraft → Type 0
Supports c f =
    (f.category ≡ category_of_check c) × (f.endpoint ≡ some c.endpoint) × (f.method ≡ some c.method)

abbrev pub IsSupported : List FindingDraft → CheckRecord → Type 0
IsSupported fs c = is_detected c ≡ true → (f : FindingDraft) × Memᴰ f fs × Supports c f

-- The endpoint and the name of each check.
abbrev pub heads : List CheckRecord → List (Text × Option Text)
heads cs = map (λ c. (c.row.endpoint_id, c.row.check)) cs

pub IsSupported-left :
    (fs gs : List FindingDraft) (cs : List CheckRecord)
    → All (IsSupported fs) cs
    → All (IsSupported (fs ++ gs)) cs
IsSupported-left fs gs [] h = tt
IsSupported-left fs gs (c ∷ cs) (k, h) =
    (λ d. let (f, m, s) = k d in (f, Memᴰ.append_left gs m, s), IsSupported-left fs gs cs h)

pub IsSupported-right :
    (fs gs : List FindingDraft) (cs : List CheckRecord)
    → All (IsSupported gs) cs
    → All (IsSupported (fs ++ gs)) cs
IsSupported-right fs gs [] h = tt
IsSupported-right fs gs (c ∷ cs) (k, h) =
    (λ d. let (f, m, s) = k d in (f, Memᴰ.append_right fs m, s), IsSupported-right fs gs cs h)

pub heads-append : (cs ds : List CheckRecord) → heads (cs ++ ds) ≡ heads cs ++ heads ds
heads-append [] ds = refl
heads-append (c ∷ cs) ds = rw (heads-append cs ds) refl

unsupported :
    (fs : List FindingDraft) (cs : List CheckRecord)
    → All (λ c. is_detected c ≡ false) cs
    → All (IsSupported fs) cs
unsupported fs [] h = tt
unsupported fs (c ∷ cs) (k, h) = (λ d. cc, unsupported fs cs h)

module _ (e : Endpoint) where
  abbrev pub named : List Text → List (Text × Option Text)
  named names = map (λ name. (e.endpoint_id, some name)) names

  pub record IsReport (names : List Text) (t : Tested) : Type 0 where
    pub checked : heads t.checks ≡ named names
    pub supported : All (IsSupported t.findings) t.checks

  named-append : (ns ms : List Text) → named (ns ++ ms) ≡ named ns ++ named ms
  named-append [] ms = refl
  named-append (n ∷ ns) ms = rw (named-append ns ms) refl

  pub join-IsReport :
      {ns ms : List Text} {t u : Tested}
      → IsReport ns t
      → IsReport ms u
      → IsReport (ns ++ ms) (join_tested t u)
  join-IsReport {ns} {ms} {t} {u} a b = record {
    checked =
        rw (heads-append t.checks u.checks)
          (rw (named-append ns ms) (rw (a.checked, b.checked) refl));
    supported =
        All-append _ t.checks u.checks (IsSupported-left t.findings u.findings t.checks a.supported)
          (IsSupported-right t.findings u.findings u.checks b.supported);
  }

  -- Checks none of which is DETECTED need no finding.
  pub quiet-IsReport :
      {ns : List Text} (t : Tested)
      → heads t.checks ≡ named ns
      → All (λ c. is_detected c ≡ false) t.checks
      → IsReport ns t
  quiet-IsReport t n h = record { checked = n; supported = unsupported t.findings t.checks h }

  pub one_check-IsReport :
      (name : Text) (status : CheckStatus) (reason : Option Text)
      → is_detected (check e name status [] 0 reason []) ≡ false
      → IsReport (name ∷ []) (one_check (check e name status [] 0 reason []))
  unfolding check
  one_check-IsReport name status reason h = quiet-IsReport _ refl (h, tt)

-- A check that is DETECTED just if there is the finding.
pub found-IsReport :
    (w : Web) (context : Context) (e : Endpoint) (found : Bool) (i : Issue) (name : Text)
    (requests : ℕ) (techniques : List Text)
    → i.category ≡ category_of name
    → IsReport e (name ∷ []) (record {
      findings = if found then finding w context e i ∷ [] else [];
      checks = check e name (detected_or_tested found) [] requests none techniques ∷ [];
    })
unfolding check finding
found-IsReport w context e true i name requests techniques h = record {
  checked = refl;
  supported = (λ d. (_, Memᴰ.head refl, (h, refl, refl)), tt);
}
found-IsReport w context e false i name requests techniques h = record {
  checked = refl;
  supported = (λ d. cc, tt);
}
