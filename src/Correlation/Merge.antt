-- ===== src/Correlation/Merge.antt =====
-- What the merge of one group keeps of its members.
use mathlib.Core.List.Memᴰ
use mathlib.Core.Path.{subst}
use api_scanner.Common.{
  ◌≤◌, Bool, true, false, not, ◌&&◌, ◌≡◌, refl, sym, ◌∙◌, List, [], ◌∷◌, map, arith, Bool-cases,
  inl, inr, All, All-at, mem-collect, length, leb, if◌then◌else◌, Memᴰ,
}
use api_scanner.Common.Text.{Text}
use api_scanner.Common.Sorting.{is_in, is_in-sorted_set, IsAscending, sorted_set-IsAscending}
use api_scanner.Common.Keyed.{mem-is_in, is_in-mem}
use api_scanner.Domain.{
  FindingDraft, EvidenceDraft, endpoint_key, method_key, parameter_key, category_key, Confidence,
  severity_rank, fingerprint,
}
use api_scanner.Correlation.{
  CorrelatedFinding, Group, members, rank_ltb, max_by_rank, is_high, merge,
}
use api_scanner.Correlation.Groups.{IsKeyed}

max_by_rank-mem : (b : FindingDraft) (fs : List FindingDraft) → Memᴰ (max_by_rank b fs) (b ∷ fs)
unfolding max_by_rank
max_by_rank-mem b [] = Memᴰ.head refl
max_by_rank-mem b (f ∷ fs) = elim (Bool-cases (rank_ltb b f)) [
  | inl e ↦ rw (e, max_by_rank) (Memᴰ.tail (max_by_rank-mem f fs))
  | inr e ↦
      rw (e, max_by_rank)
        (elim (Memᴰ.cases_cons (max_by_rank-mem b fs)) [
          | inl h ↦ Memᴰ.head h
          | inr h ↦ Memᴰ.tail (Memᴰ.tail h)
        ])
]

rank_ltb_trans :
    (a b c : FindingDraft) → rank_ltb b a ≡ false → rank_ltb c b ≡ false → rank_ltb c a ≡ false
unfolding rank_ltb
rank_ltb_trans a b c h k = ground arith

rank_ltb_weak : (a b : FindingDraft) → rank_ltb a b ≡ true → rank_ltb b a ≡ false
unfolding rank_ltb
rank_ltb_weak a b h = ground arith

rank_ltb_irrefl : (a : FindingDraft) → rank_ltb a a ≡ false
unfolding rank_ltb
rank_ltb_irrefl a = ground arith

-- The start is not above the maximum, and neither is what is not above the start.
max_by_rank-start :
    (a b : FindingDraft) (fs : List FindingDraft)
    → rank_ltb b a ≡ false
    → rank_ltb (max_by_rank b fs) a ≡ false
unfolding max_by_rank
max_by_rank-start a b [] h = h
max_by_rank-start a b (f ∷ fs) h = elim (Bool-cases (rank_ltb b f)) [
  | inl e ↦
      rw (e, max_by_rank) (max_by_rank-start a f fs (rank_ltb_trans a b f h (rank_ltb_weak b f e)))
  | inr e ↦ rw (e, max_by_rank) (max_by_rank-start a b fs h)
]

abbrev NotAbove : FindingDraft → List FindingDraft → FindingDraft → Type 0
NotAbove f fs m = (rank_ltb m f ≡ false) × All (λ x. rank_ltb m x ≡ false) fs

max_by_rank-step :
    (b f : FindingDraft) (fs : List FindingDraft)
    → rank_ltb b f ≡ true
    → max_by_rank f fs ≡ max_by_rank b (f ∷ fs)
unfolding max_by_rank
max_by_rank-step b f fs e = rw e refl

max_by_rank-keep :
    (b f : FindingDraft) (fs : List FindingDraft)
    → rank_ltb b f ≡ false
    → max_by_rank b fs ≡ max_by_rank b (f ∷ fs)
unfolding max_by_rank
max_by_rank-keep b f fs e = rw e refl

max_by_rank-top :
    (b : FindingDraft) (fs : List FindingDraft)
    → All (λ f. rank_ltb (max_by_rank b fs) f ≡ false) fs
unfolding max_by_rank
max_by_rank-top b [] = tt
max_by_rank-top b (f ∷ fs) = elim (Bool-cases (rank_ltb b f)) [
  | inl e ↦
      subst (NotAbove f fs) (max_by_rank-step b f fs e)
        (max_by_rank-start f f fs (rank_ltb_irrefl f), max_by_rank-top f fs)
  | inr e ↦
      subst (NotAbove f fs) (max_by_rank-keep b f fs e)
        (max_by_rank-start f b fs e, max_by_rank-top b fs)
]

severity_of_rank :
    (b f : FindingDraft)
    → rank_ltb b f ≡ false
    → severity_rank f.severity ≤ severity_rank b.severity
unfolding rank_ltb
severity_of_rank b f h = ground arith

-- The merged finding stands for `f`: one fingerprint, at least its severity, its engine among the
-- sources, and its references.
pub record Represents (digest : Text → Text) (f : FindingDraft) (c : CorrelatedFinding)
    : Type 0 where
  pub same : fingerprint digest c.finding ≡ fingerprint digest f
  pub severity : severity_rank f.severity ≤ severity_rank c.finding.severity
  pub source : is_in f.source_engine c.sources ≡ true
  pub references : (r : Text) → is_in r f.references ≡ true → is_in r c.finding.references ≡ true

-- The fingerprint reads none of the fields that a merge replaces.
fingerprint-update :
    (digest : Text → Text) (f : FindingDraft) (e : List EvidenceDraft) (r : List Text)
    (c : Confidence)
    → fingerprint digest (record f { evidence = e; references = r; confidence = c })
      ≡ fingerprint digest f
unfolding fingerprint endpoint_key method_key parameter_key category_key
fingerprint-update digest f e r c = refl

source-is_in :
    (fs : List FindingDraft) {f : FindingDraft}
    → Memᴰ f fs
    → is_in f.source_engine (map (λ x. x.source_engine) fs) ≡ true
source-is_in fs m = mem-is_in _ _ (Memᴰ.map (λ x. x.source_engine) m)

module _ (digest : Text → Text) (g : Group) where
  pub fingerprint-merge : IsKeyed digest g → fingerprint digest (merge g).finding ≡ g.key
  unfolding merge
  fingerprint-merge h =
      fingerprint-update digest (max_by_rank g.first g.rest) _ _ _
      ∙ All-at (λ f. fingerprint digest f ≡ g.key) (members g) h (max_by_rank-mem g.first g.rest)

  pub merge-Represents :
      (f : FindingDraft) → IsKeyed digest g → Memᴰ f (members g) → Represents digest f (merge g)
  unfolding merge
  merge-Represents f h m = record {
    same = fingerprint-merge h ∙ sym (All-at (λ x. fingerprint digest x ≡ g.key) (members g) h m);
    severity = severity_of_rank (max_by_rank g.first g.rest) f (
        All-at (λ x. rank_ltb (max_by_rank g.first g.rest) x ≡ false) (members g)
          (
            max_by_rank-start g.first g.first g.rest (rank_ltb_irrefl g.first),
            max_by_rank-top g.first g.rest,
          )
          m);
    source = is_in-sorted_set f.source_engine _ ∙ source-is_in (members g) m;
    references = λ r i.
        is_in-sorted_set r _
        ∙ mem-is_in r _
            (mem-collect (λ x. x.references) (members g) m (is_in-mem r f.references i));
  }

-- The merged finding stands on its group: it has the severity and the title of a member, and
-- its confidence raised if two engines agree; its sources are in order.
pub record IsBacked (g : Group) (c : CorrelatedFinding) : Type 0 where
  pub origin : FindingDraft
  pub is_member : Memᴰ origin (members g)
  pub severity : c.finding.severity ≡ origin.severity
  pub title : c.finding.title ≡ origin.title
  pub confidence :
      c.finding.confidence
      ≡ (if leb 2 (length c.sources) then Confidence.high else origin.confidence)
  pub sources : IsAscending c.sources

promotion :
    (b : Bool) (c : Confidence)
    → (if b && not (is_high c) then Confidence.high else c) ≡ (if b then Confidence.high else c)
promotion true Confidence.high = refl
promotion true _ = refl
promotion false c = refl

pub merge-IsBacked : (g : Group) → IsBacked g (merge g)
unfolding merge
merge-IsBacked g = record {
  origin = max_by_rank g.first g.rest;
  is_member = max_by_rank-mem g.first g.rest;
  severity = refl;
  title = refl;
  confidence = promotion (leb 2 (length (merge g).sources)) (max_by_rank g.first g.rest).confidence;
  sources = sorted_set-IsAscending _;
}
