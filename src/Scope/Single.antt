-- ===== src/Scope/Single.antt =====
-- `ScopedHttpClient.request` without redirects: `follow_redirects=False`.
use api_scanner.Common.{ℕ, ◌≤◌, false, inl, inr, none, [], Bool-cases, Option-cases, length, arith}
use api_scanner.Common.Text.{Text, text_eq}
use api_scanner.Scope.{
  Net, Target, Response, ScopedHttpClient, validate, read_body, response_of, Verdict, done, onward,
  judge, dispatch, pin, is_redirect, request_loop, request,
}
use api_scanner.Scope.Client.{Checked-cases, Verdict-cases}

abbrev IsDone : Verdict → Type 0
IsDone (done c) = Unit
IsDone (onward u) = ⊥

module _ (net : Net) (client : ScopedHttpClient) where
  judge-IsDone : (n : ℕ) (t : Target) (r : Response) → IsDone (judge net client false n t r)
  unfolding judge
  judge-IsDone n t r = elim (Bool-cases (is_redirect r.status)) [
    | inl e ↦ rw e tt
    | inr e ↦ rw e tt
  ]

  dispatch-IsDone : (n : ℕ) (t : Target) → IsDone (dispatch net client false n t)
  unfolding dispatch
  dispatch-IsDone n t = elim (Option-cases (net.send n t.url)) [
    | inl e ↦ rw (e, dispatch) tt
    | inr (reply, e) ↦
        rw (e, dispatch)
          (elim (Option-cases (read_body client.max_response_size 0 [] reply.chunks)) [
            | inl f ↦ rw f tt
            | inr (body, f) ↦ rw f (elim (Option-cases (net.decode reply.headers body)) [
              | inl g ↦ rw g tt
              | inr (content, g) ↦ rw g (judge-IsDone n t (response_of reply content))
            ])
          ])
  ]

  -- For every network, client and URL: without redirects at most one request is sent.
  pub request-single : (url : Text) → length (request net client false url).sent ≤ 1
  unfolding request request_loop
  request-single url = elim (Checked-cases (validate net client.guard 0 url)) [
    | inl (e, h) ↦ rw (h, request_loop) (omega arith)
    | inr (t, h) ↦
        rw (h, request_loop)
          (elim (Bool-cases (text_eq t.host (pin net client false none t.host))) [
            | inr f ↦ rw f (omega arith)
            | inl f ↦ rw f (elim (Verdict-cases (dispatch net client false 0 t)) [
              | inl (c, d) ↦ rw d (omega arith)
              | inr (u, d) ↦ elim (rw d at (dispatch-IsDone 0 t)) [ ]
            ])
          ])
  ]
