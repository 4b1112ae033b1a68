-- ===== src/Correlation/Laws.antt =====
-- What `correlate_findings` gives, from any list of findings.
use mathlib.Core.List.{Perm, Mem}
use mathlib.Core.List.Perm
use mathlib.Core.List.Memᴰ
use mathlib.Core.Logic.{∥∥₁_map}
use api_scanner.Common.{
  ◌≡◌, refl, sym, ap, ◌∙◌, List, [], ◌∷◌, ◌++◌, map, arith, All, All-at, collect, collect-append,
  Memᴰ, mem-collect_inv,
}
use api_scanner.Common.Text.{Text}
use api_scanner.Common.Sorting.{sort_by, sort_by-perm, sort_by-All, sort_by-IsSorted, IsSorted}
use api_scanner.Common.Keyed.{IsUnique, sort_by-IsUnique, sort_by-mem, collect-perm}
use api_scanner.Domain.{FindingDraft, EvidenceDraft, fingerprint}
use api_scanner.Correlation.{
  CorrelatedFinding, Group, members, group_from, merge, severe_first, correlate_findings,
}
use api_scanner.Correlation.Groups.{keys, IsKeyed, group_from-IsGrouped}
use api_scanner.Correlation.Merge.{
  Represents, IsBacked, fingerprint-merge, merge-Represents, merge-IsBacked,
}

module _ (digest : Text → Text) where
  keys-merge :
      (gs : List Group)
      → All (IsKeyed digest) gs
      → map (λ c. fingerprint digest c.finding) (map merge gs) ≡ keys gs
  keys-merge [] h = refl
  keys-merge (g ∷ gs) (p, h) = cc (fingerprint-merge digest g p, keys-merge gs h)

  representative :
      (gs : List Group) (f : FindingDraft)
      → All (IsKeyed digest) gs
      → Memᴰ f (collect members gs)
      → (c : CorrelatedFinding) × Memᴰ c (sort_by severe_first (map merge gs))
        × Represents digest f c
  representative gs f h m =
      let (g, listed, inside) = mem-collect_inv members gs m in
      (
        merge g,
        sort_by-mem severe_first (map merge gs) (Memᴰ.map merge listed),
        merge-Represents digest g f (All-at (IsKeyed digest) gs h listed) inside,
      )

evidence-merge :
    (gs : List Group)
    → collect (λ c. c.finding.evidence) (map merge gs)
      ≡ collect (λ f. f.evidence) (collect members gs)
unfolding merge
evidence-merge [] = refl
evidence-merge (g ∷ gs) =
    ap (λ (es : List EvidenceDraft). collect (λ f. f.evidence) (members g) ++ es)
      (evidence-merge gs)
    ∙ sym (collect-append (λ f. f.evidence) (members g) (collect members gs))

-- For every digest and list of findings: no two findings of the result have one fingerprint.
pub correlate_findings-IsUnique :
    (digest : Text → Text) (findings : List FindingDraft)
    → IsUnique (map (λ c. fingerprint digest c.finding) (correlate_findings digest findings))
unfolding correlate_findings
correlate_findings-IsUnique digest findings =
    let g = group_from-IsGrouped digest findings in
    sort_by-IsUnique severe_first (λ c. fingerprint digest c.finding) _
      (rw (keys-merge digest (group_from digest [] findings) g.keyed) g.unique)

-- For every digest, list of findings and finding of it: the result holds a finding of the same
-- fingerprint with at least its severity, with its engine among the sources and with all of its
-- references.
pub correlate_findings-Represents :
    (digest : Text → Text) (findings : List FindingDraft) (f : FindingDraft)
    → Mem f findings
    → ∥ (
        (c : CorrelatedFinding) × Memᴰ c (correlate_findings digest findings)
        × Represents digest f c) ∥₁
unfolding correlate_findings
correlate_findings-Represents digest findings f m =
    let g = group_from-IsGrouped digest findings in
    ∥∥₁_map ((Perm.mem_iff g.all_there).1 m) (representative digest _ f g.keyed)

-- For every digest and list of findings: the evidence of the result is that of the findings, each
-- piece as often as before.
pub correlate_findings-perm_evidence :
    (digest : Text → Text) (findings : List FindingDraft)
    → Perm
        (collect (λ c. c.finding.evidence) (correlate_findings digest findings))
        (collect (λ f. f.evidence) findings)
unfolding correlate_findings
correlate_findings-perm_evidence digest findings =
    let g = group_from-IsGrouped digest findings in
    Perm.trans
      (collect-perm (λ c. c.finding.evidence)
        (sort_by-perm severe_first (map merge (group_from digest [] findings))))
      (rw (evidence-merge (group_from digest [] findings))
        (collect-perm (λ f. f.evidence) g.all_there))

-- Some of the findings make up a group that backs the finding of the result.
pub record IsSupported (findings : List FindingDraft) (c : CorrelatedFinding) : Type 0 where
  pub group : Group
  pub within : (f : FindingDraft) → Memᴰ f (members group) → Mem f findings
  pub backed : IsBacked group c

supported :
    (gs : List Group) (findings : List FindingDraft)
    → ((f : FindingDraft) → Memᴰ f (collect members gs) → Mem f findings)
    → All (IsSupported findings) (map merge gs)
supported [] findings h = tt
supported (g ∷ gs) findings h = (
  record {
    group = g;
    within = λ f m. h f (Memᴰ.append_left (collect members gs) m);
    backed = merge-IsBacked g;
  },
  supported gs findings (λ f m. h f (Memᴰ.append_right (members g) m)),
)

-- For every digest and list of findings: each finding of the result has the severity and the title
-- of one of them, is HIGH in confidence if two engines or more support it and as confident as that
-- one otherwise, and lists its sources in ascending order; and severities do not rise along the
-- result.
pub correlate_findings-IsSupported :
    (digest : Text → Text) (findings : List FindingDraft)
    → All (IsSupported findings) (correlate_findings digest findings)
      × IsSorted severe_first (correlate_findings digest findings)
unfolding correlate_findings
correlate_findings-IsSupported digest findings =
    let g = group_from-IsGrouped digest findings in
    (
      sort_by-All severe_first (IsSupported findings) _
          (supported _ findings (λ f m. (Perm.mem_iff g.all_there).0 ∣ m ∣₁)),
      sort_by-IsSorted severe_first (λ x y h. ground arith) (λ x y z h k. ground arith) _,
    )
