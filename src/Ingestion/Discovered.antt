-- ===== src/Ingestion/Discovered.antt =====
-- What a discovery asks for, and what its result rests on.
use api_scanner.Common.{
  ℕ, suc, ◌+◌, ◌≤◌, ◌==◌, ==_iff, true, ◌≡◌, ◌⊎◌, refl, ap, inl, inr, some, List, [], ◌∷◌, length,
  map, arith, All, Memᴰ, Bool-cases, Option-cases,
}
use api_scanner.Common.Text.{Text, codes, starts_with, starts_with-append}
use api_scanner.Scope.{Checked, err, ok, ScopeError, Response, ScopedHttpClient, SplitUrl}
use api_scanner.Scope.Client.{IsScoped, request-IsScoped}
use api_scanner.Ingestion.{EndpointDefinition, ParsedInventory, Parsed, invalid, crashed}
use api_scanner.Ingestion
use api_scanner.Ingestion.Found.{AreFound, note_answer-AreFound}
use api_scanner.Ingestion.Discovery.{
  common_spec_paths, Web, Call, Found, Result, raised, inventory, probed, Discovery, ask,
  answer_inventory, observed, observing, ending, after_parse, search, note_answer, rooted, probe,
  path_or_root, base_of, discover_inventory,
}

pub Checked-Response-cases :
    (c : Checked Response) → ((e : ScopeError) × (c ≡ err e)) ⊎ ((r : Response) × (c ≡ ok r))
Checked-Response-cases (err e) = inl (e, refl)
Checked-Response-cases (ok r) = inr (r, refl)

module _ (w : Web) (client : ScopedHttpClient) (target_url base : Text) (max_size : ℕ) where
  -- A call whose requests the guard of the client admitted.
  abbrev pub IsAsked : Call → Type 0
  IsAsked call =
      IsScoped (w.net call.moment call.accept) client true (suc client.max_redirects) call.run

  -- An inventory that one of the calls brought: an answer with status 200 that was parsed to it.
  pub record IsBrought (found : ParsedInventory) (calls : List Call) : Type 0 where
    pub call : Call
    pub made : Memᴰ call calls
    pub response : Response
    pub answered : call.run.result ≡ ok response
    pub status : response.status ≡ 200
    pub parsed : answer_inventory w client max_size target_url response ≡ Ingestion.ok found

  abbrev pub RestsOn : Result → List Call → Type 0
  RestsOn raised calls = Unit
  RestsOn (inventory found) calls = IsBrought found calls
  RestsOn (probed found) calls = AreFound w client base found

  -- A discovery of at most so many calls.
  pub record IsDiscovery (most : ℕ) (d : Discovery) : Type 0 where
    pub asked : All IsAsked d.calls
    pub count : length d.calls ≤ most
    pub observed_eq : d.observations ≡ map (observed w client) d.calls
    pub rests : RestsOn d.result d.calls

  ask-IsAsked : (now : ℕ) (accept url : Text) → IsAsked (ask w client now accept url)
  unfolding ask
  ask-IsAsked now accept url = request-IsScoped (w.net now accept) client true url

  RestsOn-later :
      (result : Result) (call : Call) (calls : List Call)
      → RestsOn result calls
      → RestsOn result (call ∷ calls)
  RestsOn-later raised call calls h = tt
  RestsOn-later (inventory found) call calls h = record {
    call = h.call;
    made = Memᴰ.tail h.made;
    response = h.response;
    answered = h.answered;
    status = h.status;
    parsed = h.parsed;
  }
  RestsOn-later (probed found) call calls h = h

  observing-IsDiscovery :
      (most : ℕ) (call : Call) (d : Discovery)
      → IsAsked call
      → IsDiscovery most d
      → IsDiscovery (suc most) (observing w client call d)
  observing-IsDiscovery most call d a h = record {
    asked = (a, h.asked);
    count = omega (arith, h.count);
    observed_eq = ap (λ o. observed w client call ∷ o) h.observed_eq;
    rests = RestsOn-later d.result call d.calls h.rests;
  }

  ending-IsDiscovery :
      (most : ℕ) (call : Call) (result : Result)
      → IsAsked call
      → RestsOn result (call ∷ [])
      → IsDiscovery (suc most) (ending w client call result)
  ending-IsDiscovery most call result a h = record {
    asked = (a, tt);
    count = omega arith;
    observed_eq = refl;
    rests = h;
  }

  after_parse-IsDiscovery :
      (most : ℕ) (call : Call) (response : Response) (parsed : Parsed ParsedInventory)
      (rest : Discovery)
      → IsAsked call
      → call.run.result ≡ ok response
      → response.status ≡ 200
      → answer_inventory w client max_size target_url response ≡ parsed
      → IsDiscovery most rest
      → IsDiscovery (suc most) (after_parse w client call parsed rest)
  after_parse-IsDiscovery most call response (Ingestion.ok found) rest a answered status parsed h =
      ending-IsDiscovery most call (inventory found) a (record {
        call = call;
        made = Memᴰ.head refl;
        response = response;
        answered = answered;
        status = status;
        parsed = parsed;
      })
  after_parse-IsDiscovery most call response (invalid m) rest a answered status parsed h =
      observing-IsDiscovery most call rest a h
  after_parse-IsDiscovery most call response crashed rest a answered status parsed h =
      ending-IsDiscovery most call raised a tt

  IsDiscovery-le : {m n : ℕ} {d : Discovery} → m ≤ n → IsDiscovery m d → IsDiscovery n d
  IsDiscovery-le le h = record {
    asked = h.asked;
    count = omega (arith, h.count);
    observed_eq = h.observed_eq;
    rests = h.rests;
  }

  search-IsDiscovery :
      (most : ℕ) (after : ℕ → Discovery)
      → ((now : ℕ) → IsDiscovery most (after now))
      → (now : ℕ) (paths : List Text)
      → IsDiscovery (length paths + most) (search w client max_size target_url base after now paths)
  unfolding search
  search-IsDiscovery most after h now [] = IsDiscovery-le (omega arith) (h now)
  search-IsDiscovery most after h now (path ∷ paths) =
      let call = ask w client now (codes "application/json, */*") (w.reader.urljoin base path) in
      let asked : IsAsked call =
        ask-IsAsked now (codes "application/json, */*") (w.reader.urljoin base path) in
      let rest = search-IsDiscovery most after h (suc now) paths in
      IsDiscovery-le {m = suc (length paths + most)} (omega arith)
        (elim (Checked-Response-cases call.run.result) [
          | inl (e, failed) ↦
              rw (failed, search) (observing-IsDiscovery (length paths + most) call _ asked rest)
          | inr (response, answered) ↦
              rw (answered, search)
                (elim (Bool-cases (response.status == 200)) [
                  | inr other ↦
                      rw other (observing-IsDiscovery (length paths + most) call _ asked rest)
                  | inl good ↦ rw good (
                      after_parse-IsDiscovery (length paths + most) call response _ _ asked answered
                        ((==_iff response.status 200).0 good) refl rest)
                ])
        ])

  rooted-starts : (path : Text) → starts_with (codes "/") (rooted w client path) ≡ true
  rooted-starts path = elim (Bool-cases (starts_with (codes "/") path)) [
    | inl e ↦ rw e e
    | inr e ↦ rw e (starts_with-append (codes "/") path)
  ]

  probe-IsDiscovery :
      (now : ℕ) (found : Found) (seeds : List Text)
      → AreFound w client base found
      → IsDiscovery (length seeds) (probe w client base now found seeds)
  unfolding probe
  probe-IsDiscovery now found [] h = record {
    asked = tt;
    count = omega arith;
    observed_eq = refl;
    rests = h;
  }
  probe-IsDiscovery now found (seed ∷ seeds) h =
      let path = rooted w client seed in
      let call = ask w client now (codes "application/json") (w.reader.urljoin base path) in
      let asked : IsAsked call =
        ask-IsAsked now (codes "application/json") (w.reader.urljoin base path) in
      elim (Checked-Response-cases call.run.result) [
        | inl (e, failed) ↦
            rw (failed, probe)
              (observing-IsDiscovery (length seeds) call _ asked
                (probe-IsDiscovery (suc now) found seeds h))
        | inr (response, answered) ↦
            rw (answered, probe)
              (elim (Option-cases (note_answer w client base path found response)) [
                | inl broken ↦ rw broken (ending-IsDiscovery (length seeds) call raised asked tt)
                | inr (found', added) ↦ rw added (
                    observing-IsDiscovery (length seeds) call _ asked (
                      probe-IsDiscovery (suc now) found' seeds (
                        note_answer-AreFound w client base path found response found'
                          (rooted-starts seed) h added)))
              ])
      ]

-- For every network, client, target URL, size limit and paths of the user: a discovery below the base
-- of the target asks the client at most eight times and once more for each path of the user, each of
-- these requests, with its redirects, sent only to URLs that the guard of the client admits; it
-- observes each of them once, in order; an
-- inventory that it returns was parsed from the body of an answer with status 200 to one of them; and
-- the endpoints that it returns instead are GET endpoints below the base, each with a path that starts
-- with "/" and with the id of its base URL, path and method, and no id twice.
pub discover_inventory-IsDiscovery :
    (w : Web) (client : ScopedHttpClient) (target_url : Text) (max_size : ℕ)
    (user_paths : List Text) (parsed : SplitUrl)
    → w.split_url target_url ≡ some parsed
    → IsDiscovery w client target_url
        (base_of w client parsed)
        max_size
        (8 + length user_paths)
        (discover_inventory w client target_url max_size user_paths)
unfolding discover_inventory
discover_inventory-IsDiscovery w client target_url max_size user_paths parsed e =
    rw (e, discover_inventory)
      (IsDiscovery-le w client target_url (base_of w client parsed) max_size
        {m = 7 + suc (length user_paths)} (omega arith)
        (search-IsDiscovery w client target_url (base_of w client parsed) max_size
          (suc (length user_paths)) _
          (λ now.
            probe-IsDiscovery w client target_url (base_of w client parsed) max_size now []
              (path_or_root w client parsed ∷ user_paths) (tt, tt))
          0 common_spec_paths))
