-- ===== src/Custom/AuthorizationReports.antt =====
-- The reports of the authorization tests: Custom/Authorization.antt.
use api_scanner.Common.{refl, List, [], ◌∷◌, select, not}
use api_scanner.Common.Sorting.{is_in}
use api_scanner.Common.Text.{Text, codes, text_eq}
use api_scanner.Scope.{Response}
use api_scanner.Coverage.{CheckStatus}
use api_scanner.Custom.{Endpoint, Auth, Identity, Context, Request, Web}
use api_scanner.Custom.Session.{Session, send}
use api_scanner.Custom.Checks.{check}
use api_scanner.Custom.Authorization.{
  bola_applicable, bfla_candidate, owners, judge_bola, compare_owners, bola_left_out, bola_between,
  test_bola, judge_bfla, compare_roles, bfla_left_out, roles_required, bfla_between, test_bfla,
  test_authorization,
}
use api_scanner.Custom.Logic.{Runs, Runs-if, Runs-pure, Runs-bind, Runs-attempt}
use api_scanner.Custom.Reports.{IsReport, join-IsReport, one_check-IsReport, found-IsReport}

-- The authorization checks of an endpoint.
abbrev pub authorization_names : List Text
authorization_names = codes "bola" ∷ codes "bfla" ∷ []

module _ (w : Web) (context : Context) (e : Endpoint) where
  judge_bola-IsReport :
      (owner foreign : Identity) (id : Text) (r s : Response)
      → IsReport e (codes "bola" ∷ []) (judge_bola w context e owner foreign id r s)
  unfolding judge_bola text_eq check
  judge_bola-IsReport owner foreign id r s = found-IsReport w context e _ _ _ _ _ refl

  judge_bfla-IsReport :
      (regular : Identity) (r s : Response)
      → IsReport e (codes "bfla" ∷ []) (judge_bfla w context e regular r s)
  unfolding judge_bfla text_eq check
  judge_bfla-IsReport regular r s = found-IsReport w context e _ _ _ _ _ refl

  module _ (P : Session → Type 0)
      (sends : (auth : Auth) (request : Request) (url : Text)
        → Runs P Unit (λ _. Unit) (send w context auth request url)) where
    compare_owners-run :
        (owner foreign : Identity × Text)
        → Runs P ⊥ (IsReport e (codes "bola" ∷ [])) (compare_owners w context e owner foreign)
    unfolding compare_owners check
    compare_owners-run owner foreign =
        Runs-attempt P
          (Runs-bind P (sends _ _ _) (λ r _.
            Runs-bind P (sends _ _ _)
              (λ s _. Runs-pure P _ (judge_bola-IsReport owner.0 foreign.0 foreign.1 r s))))
          (λ f. Runs-pure P _ (one_check-IsReport e _ CheckStatus.error _ refl))

    compare_roles-run :
        (admin regular : Identity)
        → Runs P ⊥ (IsReport e (codes "bfla" ∷ [])) (compare_roles w context e admin regular)
    unfolding compare_roles check
    compare_roles-run admin regular =
        Runs-attempt P
          (Runs-bind P (sends _ _ _) (λ r _.
            Runs-bind P (sends _ _ _) (λ s _. Runs-pure P _ (judge_bfla-IsReport regular r s))))
          (λ f. Runs-pure P _ (one_check-IsReport e _ CheckStatus.error _ refl))

    bola_between-run :
        (is : List (Identity × Text))
        → Runs P ⊥ (IsReport e (codes "bola" ∷ [])) (bola_between w context e is)
    unfolding check
    bola_between-run [] = Runs-pure P _ (one_check-IsReport e _ CheckStatus.skipped _ refl)
    bola_between-run (owner ∷ []) =
        Runs-pure P _ (one_check-IsReport e _ CheckStatus.skipped _ refl)
    bola_between-run (owner ∷ foreign ∷ is) = compare_owners-run owner foreign

    bola_left_out-run :
        (reason : Text)
        → Runs P ⊥
            (IsReport e (codes "bola" ∷ []))
            (bola_left_out w context e CheckStatus.not_applicable reason)
    unfolding check
    bola_left_out-run reason =
        Runs-pure P _ (one_check-IsReport e _ CheckStatus.not_applicable _ refl)

    bfla_left_out-run :
        (reason : Text)
        → Runs P ⊥
            (IsReport e (codes "bfla" ∷ []))
            (bfla_left_out w context e CheckStatus.not_applicable reason)
    unfolding check
    bfla_left_out-run reason =
        Runs-pure P _ (one_check-IsReport e _ CheckStatus.not_applicable _ refl)

    roles_required-run : Runs P ⊥ (IsReport e (codes "bfla" ∷ [])) (roles_required w context e)
    unfolding check
    roles_required-run = Runs-pure P _ (one_check-IsReport e _ CheckStatus.skipped _ refl)

    bfla_between-run :
        (admins regulars : List Identity)
        → Runs P ⊥ (IsReport e (codes "bfla" ∷ [])) (bfla_between w context e admins regulars)
    bfla_between-run [] regulars = roles_required-run
    bfla_between-run (admin ∷ admins) [] = roles_required-run
    bfla_between-run (admin ∷ admins) (regular ∷ regulars) =
        Runs-if P (is_in e.method (codes "GET" ∷ codes "HEAD" ∷ []))
          (compare_roles-run admin regular) roles_required-run

    test_bola-run : Runs P ⊥ (IsReport e (codes "bola" ∷ [])) (test_bola w context e)
    unfolding test_bola
    test_bola-run = Runs-if P (bola_applicable e) (bola_between-run (owners context.identities)) (
        Runs-if P (not e.auth_required)
          (bola_left_out-run (codes "operation is not documented as requiring authorization"))
          (bola_left_out-run (codes "a GET operation with an object path parameter is required")))

    test_bfla-run : Runs P ⊥ (IsReport e (codes "bfla" ∷ [])) (test_bfla w context e)
    unfolding test_bfla
    test_bfla-run =
        Runs-if P (bfla_candidate e)
          (bfla_between-run (select (λ i. i.is_admin) context.identities)
            (select (λ i. not i.is_admin) context.identities))
          (bfla_left_out-run (codes "operation is not identified as administrative"))

    pub test_authorization-run :
        Runs P ⊥ (IsReport e authorization_names) (test_authorization w context e)
    unfolding test_authorization
    test_authorization-run =
        Runs-bind P test_bola-run
          (λ b h. Runs-bind P test_bfla-run (λ f k. Runs-pure P _ (join-IsReport e h k)))
