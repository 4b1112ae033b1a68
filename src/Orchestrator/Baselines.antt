-- ===== src/Orchestrator/Baselines.antt =====
-- `_apply_endpoint_baselines`: an endpoint counts as tested if the custom engine's last baseline
-- record for it says so.
use api_scanner.Common.{
  ℕ, ◌+◌, Bool, true, false, ◌&&◌, ◌≡◌, ◌⊎◌, refl, ap, Option, none, some, List, [], ◌∷◌, ◌++◌, map,
  arith, is_empty, if◌then◌else◌, Bool-cases, inl, inr, ◌≢◌, ◌↔◌, ◌∙◌, sym, All, Option-cases,
}
use mathlib.Core.Bool.{true≢false}
use api_scanner.Common.Text.{Text, codes, text_eq, text_eq_sound, text_eq_refl, text_eq_iff}
use api_scanner.Common.Sorting.{is_in}
use api_scanner.Coverage.{
  Endpoint, TestStatus, Check, CheckStatus, has_name, is_tested, tested_count,
}

abbrev pub no_baseline : Text
no_baseline = codes "custom baseline request was not completed"

-- baseline_by_endpoint.get(id): a dict keeps the last value under a key.
unfoldable pub baseline_of : Text → List Check → Option Check
baseline_of id [] = none
baseline_of id (v ∷ vs) = elim (baseline_of id vs) [
  | some w ↦ some w
  | none ↦ if has_name v.check (codes "baseline") && text_eq v.endpoint_id id then some v else none
]

abbrev pub reached : Option Check → Bool
reached none = false
reached (some v) = elim v.status [ CheckStatus.tested ↦ true | _ ↦ false ]

-- str((baseline_check or {}).get("reason") or "custom baseline request was not completed")
abbrev pub reason_or : Option Text → Text
reason_or none = no_baseline
reason_or (some r) = if is_empty r then no_baseline else r

abbrev pub reason_of : Option Check → Text
reason_of none = no_baseline
reason_of (some v) = reason_or v.reason

pub record Applied : Type 0 where
  pub endpoints : List Endpoint
  pub reached : ℕ
  pub reasons : List Text

-- The body of the loop for one endpoint.
unfoldable pub mark : Option Check → Endpoint → Endpoint
mark v e =
    if reached v
    then record e { test_status = TestStatus.tested; skip_reason = none }
    else record e { test_status = TestStatus.skipped; skip_reason = some (reason_of v) }

-- if endpoint.skip_reason not in reasons: reasons.append(endpoint.skip_reason)
unfoldable pub note : Option Check → List Text → List Text
note v reasons =
    if reached v
    then reasons
    else if is_in (reason_of v) reasons
    then reasons
    else reasons ++ reason_of v ∷ []

unfoldable pub baseline_loop : List Check → ℕ → List Text → List Endpoint → Applied
unfolding mark note
baseline_loop checks count reasons [] = record {
  endpoints = [];
  reached = count;
  reasons = reasons;
}
baseline_loop checks count reasons (e ∷ es) =
    let v = baseline_of e.endpoint_id checks in
    let rest = baseline_loop checks (if reached v then count + 1 else count) (note v reasons) es in
    record rest { endpoints = mark v e ∷ rest.endpoints }

-- Orchestrator._apply_endpoint_baselines
unfoldable pub apply_endpoint_baselines : List Check → List Endpoint → Applied
unfolding baseline_loop baseline_of
apply_endpoint_baselines checks endpoints = baseline_loop checks 0 [] endpoints

-- The record is a baseline record of the endpoint.
abbrev pub IsBaselineOf : Text → Check → Type 0
IsBaselineOf id v = (v.check ≡ some (codes "baseline")) × (v.endpoint_id ≡ id)

-- The last baseline record of an endpoint, with no other after it, or none at all.
abbrev pub IsLastBaseline : Text → Option Check → List Check → Type 0
IsLastBaseline id none checks = All (λ u. ¬ IsBaselineOf id u) checks
IsLastBaseline id (some v) checks =
    (earlier : List Check) × (later : List Check) × (checks ≡ earlier ++ v ∷ later)
    × IsBaselineOf id v
    × All (λ u. ¬ IsBaselineOf id u) later

IsBaselineOf-iff :
    (id : Text) (v : Check)
    → (has_name v.check (codes "baseline") && text_eq v.endpoint_id id ≡ true) ↔ IsBaselineOf id v
IsBaselineOf-iff id v = (
  λ h. (named v.check (ground arith), text_eq_sound v.endpoint_id id (ground arith)),
  λ (h, k). rw h (
      let name = text_eq_refl (codes "baseline") in
      let place = (text_eq_iff v.endpoint_id id).1 k in ground arith),
)
  where
    named :
        (check : Option Text)
        → has_name check (codes "baseline") ≡ true
        → check ≡ some (codes "baseline")
    named none h = cc
    named (some name) h = ap some (text_eq_sound name (codes "baseline") h)

baseline_of-IsLastBaseline :
    (id : Text) (checks : List Check) → IsLastBaseline id (baseline_of id checks) checks
unfolding baseline_of
baseline_of-IsLastBaseline id [] = tt
baseline_of-IsLastBaseline id (v ∷ vs) = elim (Option-cases (baseline_of id vs)) [
  | inr (u, e) ↦
      let (earlier, later, split, h, k) = rw e at (baseline_of-IsLastBaseline id vs) in
      rw e (v ∷ earlier, later, ap (◌∷◌ v) split, h, k)
  | inl e ↦
      let after = rw e at (baseline_of-IsLastBaseline id vs) in
      let (to, from) = IsBaselineOf-iff id v in
      rw e (elim (Bool-cases (has_name v.check (codes "baseline") && text_eq v.endpoint_id id)) [
        | inl h ↦ rw h ([], vs, refl, to h, after)
        | inr h ↦ rw h (λ k. true≢false (sym (from k) ∙ h), after)
      ])
]

reached-cases :
    (v : Option Check)
    → (reached v ≡ true) × ((u : Check) × (v ≡ some u) × (u.status ≡ CheckStatus.tested))
      ⊎ (reached v ≡ false) × ((u : Check) → v ≡ some u → u.status ≢ CheckStatus.tested)
reached-cases none = inr (refl, λ u e. cc)
reached-cases (some v) = by_status v.status refl
  where
    by_status :
        (s : CheckStatus)
        → v.status ≡ s
        → (reached (some v) ≡ true)
            × ((u : Check) × (some v ≡ some u) × (u.status ≡ CheckStatus.tested))
          ⊎ (reached (some v) ≡ false)
            × ((u : Check) → some v ≡ some u → u.status ≢ CheckStatus.tested)
    by_status CheckStatus.tested e = inl (rw e refl, (v, refl, e))
    by_status CheckStatus.detected e = inr (rw e refl, λ u f g. cc (e, f, g))
    by_status CheckStatus.error e = inr (rw e refl, λ u f g. cc (e, f, g))
    by_status CheckStatus.skipped e = inr (rw e refl, λ u f g. cc (e, f, g))
    by_status CheckStatus.not_applicable e = inr (rw e refl, λ u f g. cc (e, f, g))

mark-tested : (v : Option Check) (e : Endpoint) → is_tested (mark v e).test_status ≡ reached v
unfolding mark
mark-tested v e = elim (Bool-cases (reached v)) [ inl h ↦ rw h refl | inr h ↦ rw h refl ]

module _ (checks : List Check) where
  loop-endpoints :
      (n : ℕ) (reasons : List Text) (es : List Endpoint)
      → (baseline_loop checks n reasons es).endpoints
        ≡ map (λ e. mark (baseline_of e.endpoint_id checks) e) es
  unfolding baseline_loop
  loop-endpoints n reasons [] = refl
  loop-endpoints n reasons (e ∷ es) = ap (◌∷◌ (mark (baseline_of e.endpoint_id checks) e)) (
      loop-endpoints (if reached (baseline_of e.endpoint_id checks) then n + 1 else n)
        (note (baseline_of e.endpoint_id checks) reasons) es)

  loop-reached :
      (n : ℕ) (reasons : List Text) (es : List Endpoint)
      → (baseline_loop checks n reasons es).reached
        ≡ n + tested_count (baseline_loop checks n reasons es).endpoints
  unfolding baseline_loop tested_count
  loop-reached n reasons [] = omega arith
  loop-reached n reasons (e ∷ es) = ground (
    arith,
    mark-tested (baseline_of e.endpoint_id checks) e,
    loop-reached (if reached (baseline_of e.endpoint_id checks) then n + 1 else n)
        (note (baseline_of e.endpoint_id checks) reasons) es,
  )

  -- What the last baseline record of an endpoint, if there is one, makes of it.
  pub record IsMarked (e e' : Endpoint) : Type 0 where
    pub last : Option Check
    pub is_last : IsLastBaseline e.endpoint_id last checks
    pub same : e'.endpoint_id ≡ e.endpoint_id
    pub marked :
        ((v : Check) × (last ≡ some v) × (v.status ≡ CheckStatus.tested))
          × (e'.test_status ≡ TestStatus.tested)
          × (e'.skip_reason ≡ none)
        ⊎ ((v : Check) → last ≡ some v → v.status ≢ CheckStatus.tested)
          × (e'.test_status ≡ TestStatus.skipped)
          × (e'.skip_reason ≡ some (reason_of last))

  -- The two lists have the same length, and what stands at one place is so related.
  abbrev pub AllMarked : List Endpoint → List Endpoint → Type 0
  AllMarked [] [] = Unit
  AllMarked (e ∷ es) (f ∷ fs) = IsMarked e f × AllMarked es fs
  AllMarked _ _ = ⊥

  mark-IsMarked : (e : Endpoint) → IsMarked e (mark (baseline_of e.endpoint_id checks) e)
  unfolding mark
  mark-IsMarked e = elim (reached-cases (baseline_of e.endpoint_id checks)) [
    | inl (h, (v, f, g)) ↦ rw h (record {
      last = baseline_of e.endpoint_id checks;
      is_last = baseline_of-IsLastBaseline e.endpoint_id checks;
      same = refl;
      marked = inl ((v, f, g), refl, refl);
    })
    | inr (h, g) ↦ rw h (record {
      last = baseline_of e.endpoint_id checks;
      is_last = baseline_of-IsLastBaseline e.endpoint_id checks;
      same = refl;
      marked = inr (g, refl, refl);
    })
  ]

  map-AllMarked :
      (es : List Endpoint) → AllMarked es (map (λ e. mark (baseline_of e.endpoint_id checks) e) es)
  map-AllMarked [] = tt
  map-AllMarked (e ∷ es) = (mark-IsMarked e, map-AllMarked es)

-- For all check records and endpoints: the baselines mark each endpoint, in place, as TESTED with no
-- reason if the last baseline record under its id is TESTED, and as SKIPPED with that record's
-- reason (or the standard one) otherwise; and the count returned is that of the endpoints TESTED.
pub apply_endpoint_baselines-AllMarked :
    (checks : List Check) (endpoints : List Endpoint)
    → let a : Applied = apply_endpoint_baselines checks endpoints in
      AllMarked checks endpoints a.endpoints × (a.reached ≡ tested_count a.endpoints)
unfolding apply_endpoint_baselines
apply_endpoint_baselines-AllMarked checks endpoints = (
  rw loop-endpoints (map-AllMarked checks endpoints),
  omega (arith, loop-reached checks 0 [] endpoints),
)
