-- ===== src/Coverage/Assessment.antt =====
-- When a scan counts as complete.
use mathlib.Core.Path.{subst}
use mathlib.Core.List.Memᴰ
use api_scanner.Common.{
  ℕ, ◌-◌, ◌≤◌, ◌<◌, Bool, true, false, not, ◌||◌, ◌≡◌, ◌↔◌, refl, sym, ap, ◌∙◌, Option, none, some,
  List, [], ◌∷◌, arith, length, select, tally, tally-le-length, sum_by, Bool-cases, inl, inr, All,
  All-at, Memᴰ, is_empty, mem-collect, mem-collect_inv, mem-select, mem-select_inv, All-intro,
}
use api_scanner.Common.Text.{Text, text_eq_iff, text_eq_refl}
use api_scanner.Common.Sorting.{is_in-sorted_set}
use api_scanner.Common.Keyed.{mem-is_in, is_in-mem}
use api_scanner.Coverage.{
  Endpoint, is_tested, Check, ScanEngine, CheckCoverage, complete, has_name, is_eligible,
  is_attempted, is_runtime, check_matrix, check_coverage, check_names, truthy_text, check_summary,
  security_checks, tested_count, assessment_status,
}
use api_scanner.Coverage.Calculate.{status_of, runtime_summary}

sum_le :
    {A : Type 0} (f g : A → ℕ) (xs : List A) → All (λ x. f x ≤ g x) xs → sum_by f xs ≤ sum_by g xs
sum_le f g [] h = omega arith
sum_le f g (x ∷ xs) (p, h) = omega (arith, sum_le f g xs h)

-- All pass a test exactly when as many pass as there are.
tally-eq-length :
    {A : Type 0} (p : A → Bool) (xs : List A) → (tally p xs ≡ length xs) ↔ All (λ x. p x ≡ true) xs
tally-eq-length p [] = (λ h. tt, λ h. refl)
tally-eq-length p (x ∷ xs) =
    let (to, from) = tally-eq-length p xs in
    let small = tally-le-length p xs in
    (λ h. (ground arith, to (ground arith)), λ (e, k). rw e (ground (arith, from k)))

-- The check record is done: it was attempted, or it did not apply.
abbrev pub is_settled : Check → Bool
is_settled v = not (is_eligible v) || is_attempted v

attempted-le-eligible :
    (vs : List Check)
    → length (select is_attempted (select is_eligible vs)) ≤ length (select is_eligible vs)
attempted-le-eligible [] = omega arith
attempted-le-eligible (v ∷ vs) = ground (arith, attempted-le-eligible vs)

settled_iff :
    (vs : List Check)
    → (length (select is_eligible vs) ≤ length (select is_attempted (select is_eligible vs)))
      ↔ All (λ v. is_settled v ≡ true) vs
settled_iff [] = (λ h. tt, λ h. omega arith)
settled_iff (v ∷ vs) =
    let (to, from) = settled_iff vs in
    let small = attempted-le-eligible vs in
    (λ h. (ground arith, to (ground arith)), λ (e, k). ground (arith, from k))

-- Where one number is nowhere above the other, the sums agree exactly when they agree everywhere.
sum_tight :
    {A : Type 0} (f g : A → ℕ) (xs : List A)
    → All (λ x. f x ≤ g x) xs
    → (sum_by g xs - sum_by f xs ≡ 0) ↔ All (λ x. g x ≤ f x) xs
sum_tight f g [] h = (λ e. tt, λ e. omega arith)
sum_tight f g (x ∷ xs) (p, h) =
    let (to, from) = sum_tight f g xs h in
    let small = sum_le f g xs h in
    (λ e. (omega arith, to (omega arith)), λ (q, k). omega (arith, from k))

module _ (percent : ℕ → ℕ → ℕ) (matrix : List Check) where
  abbrev named : Text → List Check
  named name = select (λ v. has_name v.check name) matrix

  abbrev chosen : List (Text × CheckCoverage)
  chosen = select (λ c. is_runtime c.0) (security_checks percent matrix)

  abbrev attempted_of : Text × CheckCoverage → ℕ
  attempted_of c = c.1.attempted_endpoints

  abbrev eligible_of : Text × CheckCoverage → ℕ
  eligible_of c = c.1.eligible_endpoints

  -- A chosen check is that of a name that some record has.
  chosen_name :
      (c : Text × CheckCoverage)
      → Memᴰ c chosen
      → (name : Text) × Memᴰ name (check_names matrix)
        × (is_runtime name ≡ true)
        × (c ≡ (name, check_coverage percent matrix name))
  unfolding security_checks
  chosen_name c m =
      let (listed, runs) = mem-select_inv (λ c. is_runtime c.0) _ m in
      let (name, n, e) =
        Memᴰ.of_map (λ name. (name, check_coverage percent matrix name)) _ listed in
      (name, n, subst (λ d. is_runtime d.0 ≡ true) (sym e) runs, sym e)

  coverage-le :
      (name : Text)
      → attempted_of (name, check_coverage percent matrix name)
        ≤ eligible_of (name, check_coverage percent matrix name)
  unfolding check_coverage
  coverage-le name = attempted-le-eligible (named name)

  small : All (λ c. attempted_of c ≤ eligible_of c) chosen
  small = All-intro _ chosen (λ c m.
      let (name, _, _, e) = chosen_name c m in
      subst (λ d. attempted_of d ≤ eligible_of d) (sym e) (coverage-le name))

  -- Every runtime check that some record names is settled for each of the records.
  abbrev pub AllSettled : Type 0
  AllSettled =
      (v : Check) (name : Text)
      → Memᴰ v matrix
      → v.check ≡ some name
      → is_empty name ≡ false
      → is_runtime name ≡ true
      → is_settled v ≡ true

  name-listed :
      (v : Check) (name : Text)
      → Memᴰ v matrix
      → v.check ≡ some name
      → is_empty name ≡ false
      → Memᴰ name (check_names matrix)
  unfolding check_names
  name-listed v name m e n = is_in-mem name _ (
      is_in-sorted_set name _
      ∙ mem-is_in name _ (
          mem-collect (λ (v : Check). truthy_text v.check) matrix m (rw e (rw n (Memᴰ.head refl)))))

  name-of_listed : (name : Text) → Memᴰ name (check_names matrix) → is_empty name ≡ false
  unfolding check_names
  name-of_listed name m =
      let (v, _, k) =
        mem-collect_inv (λ (v : Check). truthy_text v.check) matrix
          (is_in-mem name _ (sym (is_in-sorted_set name _) ∙ mem-is_in name _ m)) in
      from v.check k
    where
      from : (c : Option Text) → Memᴰ name (truthy_text c) → is_empty name ≡ false
      from none k = elim k [ ]
      from (some s) k = elim (Bool-cases (is_empty s)) [
        | inl e ↦ absurd (Memᴰ.not-nil (rw e at k))
        | inr e ↦ subst (λ w. is_empty w ≡ false) (sym (Memᴰ.eq_of_singleton (rw e at k))) e
      ]

  check-listed :
      (name : Text)
      → Memᴰ name (check_names matrix)
      → Memᴰ (name, check_coverage percent matrix name) (security_checks percent matrix)
  unfolding security_checks
  check-listed name m = Memᴰ.map (λ n. (n, check_coverage percent matrix n)) m

  tight-AllSettled : All (λ c. eligible_of c ≤ attempted_of c) chosen → AllSettled
  unfolding check_coverage
  tight-AllSettled h v name m e n r =
      All-at (λ v. is_settled v ≡ true) (named name)
        ((settled_iff (named name)).0 (
          All-at (λ c. eligible_of c ≤ attempted_of c) chosen h
            (mem-select (λ c. is_runtime c.0) _ (check-listed name (name-listed v name m e n)) r)))
        (mem-select (λ v. has_name v.check name) matrix m (rw e (text_eq_refl name)))

  AllSettled-tight : AllSettled → All (λ c. eligible_of c ≤ attempted_of c) chosen
  unfolding check_coverage
  AllSettled-tight h = All-intro _ chosen (λ c m.
      let (name, listed, runs, e) = chosen_name c m in
      subst (λ d. eligible_of d ≤ attempted_of d) (sym e)
        ((settled_iff (named name)).1 (
          All-intro _ (named name) (λ v k.
            let (inside, has) = mem-select_inv (λ v. has_name v.check name) matrix k in
            h v name inside (name_of v.check has) (name-of_listed name listed) runs))))
    where
      name_of : {name : Text} (c : Option Text) → has_name c name ≡ true → c ≡ some name
      name_of none e = cc
      name_of {name} (some c) e = ap some ((text_eq_iff c name).0 e)

  unblocked_iff :
      ((check_summary percent
          (security_checks percent matrix)
          is_runtime).skipped_or_error_endpoint_checks
        ≡ 0)
      ↔ AllSettled
  unfolding check_summary
  unblocked_iff =
      let (to, from) = sum_tight attempted_of eligible_of chosen small in
      (λ e. tight-AllSettled (to e), λ h. from (AllSettled-tight h))

status-complete_iff :
    (total reached blocked : ℕ)
    → reached ≤ total
    → (assessment_status total reached blocked ≡ complete)
      ↔ ((0 < total) × (reached ≡ total) × (blocked ≡ 0))
unfolding assessment_status
status-complete_iff total reached blocked h = (λ e. ground arith, λ k. ground arith)

-- For all endpoints and engines: a scan is assessed COMPLETE exactly when it has an endpoint, every
-- endpoint was tested, and every record of a runtime check, baselines left out, was attempted or
-- did not apply.
pub assessment-complete_iff :
    (percent : ℕ → ℕ → ℕ) (endpoints : List Endpoint) (engines : List ScanEngine)
    → (status_of percent endpoints engines ≡ complete) ↔ (
        (0 < length endpoints)
        × All (λ e. is_tested e.test_status ≡ true) endpoints
        × AllSettled percent (check_matrix engines))
unfolding status_of tested_count
assessment-complete_iff percent endpoints engines =
    let (to, from) =
      status-complete_iff (length endpoints) (tested_count endpoints)
        (runtime_summary percent endpoints engines).skipped_or_error_endpoint_checks
        (tally-le-length _ endpoints) in
    let (all, each) = tally-eq-length (λ (e : Endpoint). is_tested e.test_status) endpoints in
    let (settled, unblocked) = unblocked_iff percent (check_matrix engines) in
    (
      λ e. let (some_one, reached, free) = to e in (some_one, all reached, settled free),
      λ (some_one, reached, free). from (some_one, each reached, unblocked free),
    )
