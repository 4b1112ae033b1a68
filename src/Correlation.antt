-- ===== src/Correlation.antt =====
-- app/correlation/service.py: findings with one fingerprint become one finding.
pub mod Groups
pub mod Merge
pub mod Laws
mod Tests
use api_scanner.Common.{
  ℕ, ◌+◌, Bool, not, ◌&&◌, ◌||◌, List, [], ◌∷◌, ◌++◌, map, ltb, leb, ◌==◌, if◌then◌else◌, length,
  collect,
}
use api_scanner.Common.Text.{Text, text_eq}
use api_scanner.Common.Sorting.{sort_by, sorted_set}
use api_scanner.Domain.{
  FindingDraft, EvidenceDraft, Confidence, Severity, severity_rank, confidence_rank, fingerprint,
}

pub record CorrelatedFinding : Type 0 where
  pub finding : FindingDraft
  pub sources : List Text

-- A non-empty list under its key: the values of the `defaultdict` are never empty.
pub record Group : Type 0 where
  pub key : Text
  pub first : FindingDraft
  pub rest : List FindingDraft

abbrev pub members : Group → List FindingDraft
members g = g.first ∷ g.rest

-- groups[key].append(finding); a dict keeps the order of insertion.
unfoldable pub add_to : Text → FindingDraft → List Group → List Group
add_to key f [] = record { key = key; first = f; rest = [] } ∷ []
add_to key f (g ∷ gs) =
    let others = add_to key f gs in
    if text_eq key g.key then record g { rest = g.rest ++ f ∷ [] } ∷ gs else g ∷ others

-- The loop that fills `groups`.
unfoldable pub group_from : (Text → Text) → List Group → List FindingDraft → List Group
group_from digest groups [] = groups
group_from digest groups (f ∷ fs) = group_from digest (add_to (fingerprint digest f) f groups) fs

-- The order of the pairs (severity rank, confidence rank).
unfoldable pub rank_ltb : FindingDraft → FindingDraft → Bool
rank_ltb f g =
    let s = severity_rank f.severity in
    let t = severity_rank g.severity in
    ltb s t || (s == t && ltb (confidence_rank f.confidence) (confidence_rank g.confidence))

-- max(group, key=...): the first of the largest.
unfoldable pub max_by_rank : FindingDraft → List FindingDraft → FindingDraft
max_by_rank best [] = best
max_by_rank best (f ∷ fs) = max_by_rank (if rank_ltb best f then f else best) fs

abbrev pub is_high : Confidence → Bool
is_high Confidence.high = Bool.true
is_high _ = Bool.false

-- The body of the loop over `groups.values()`.
unfoldable pub merge : Group → CorrelatedFinding
unfolding max_by_rank rank_ltb
merge g =
    let best = max_by_rank g.first g.rest in
    let sources = sorted_set (map (λ f. f.source_engine) (members g)) in
    record {
      finding = record best {
        evidence = collect (λ f. f.evidence) (members g);
        references = sorted_set (collect (λ f. f.references) (members g));
        confidence =
            if leb 2 (length sources) && not (is_high best.confidence)
            then Confidence.high
            else best.confidence;
      };
      sources = sources;
    }

-- The order of `sorted(..., reverse=True)` by severity.
abbrev pub severe_first : CorrelatedFinding → CorrelatedFinding → Bool
severe_first a b = leb (severity_rank b.finding.severity) (severity_rank a.finding.severity)

unfoldable pub correlate_findings : (Text → Text) → List FindingDraft → List CorrelatedFinding
unfolding group_from add_to merge
correlate_findings digest findings =
    sort_by severe_first (map merge (group_from digest [] findings))
