-- ===== src/Oast/Tests.antt =====
-- Runs of the collector on a store that is a function of time and key.
use api_scanner.Common.{
  ℕ, ◌+◌, ◌≡◌, refl, true, none, some, Option, List, [], ◌∷◌, arith, if◌then◌else◌, any, leb,
}
use api_scanner.Common.Text.{Text, codes, text_eq, text_eq_iff}
use api_scanner.Oast.{
  Redis, IsRedis, is_token, is_authorised, hit, Request, calls, registers, callback, register,
  event, serve, serve_all,
}
use api_scanner.Oast.Laws.{event-callback, event-IsCalled, is_call, is_registration}

abbrev redis : Redis
redis = record {
  Store = ℕ → Text → Option Text;
  get = λ t k s. s t k;
  set = λ now ttl k v s t l.
      if text_eq k l then (if leb (now + ttl) t then none else some v) else s t l;
  delete = λ k s t l. if text_eq k l then none else s t l;
}

redis-IsRedis : IsRedis redis
redis-IsRedis = record {
  get-set = λ now ttl t k v s h. rw ((text_eq_iff k k).1 refl) (ground arith);
  get-set_expired = λ now ttl t k v s h. rw ((text_eq_iff k k).1 refl) (ground arith);
  get-set_other = λ now ttl t k l v s e. rw e refl;
  get-delete = λ t k s. rw ((text_eq_iff k k).1 refl) refl;
  get-delete_other = λ t k l s e. rw e refl;
}

abbrev token : Text
token = codes "abcdefghijklmnop"

abbrev secret : Text
secret = codes "k"

token_fits : is_token token ≡ true
unfolding is_token
token_fits = refl

key_fits : is_authorised secret (some secret) ≡ true
unfolding is_authorised text_eq
key_fits = refl

event-callback_example :
    (event redis secret 700 token
      (some secret)
      (callback redis secret 500 token
        (register redis secret 0 token (some secret) (λ _ _. none)).1).1).0
    ≡ hit true
event-callback_example =
    event-callback redis redis-IsRedis secret token (some secret) (λ _ _. none) 0 500 700 token_fits
      key_fits (omega arith) (omega arith)

abbrev requests : List (ℕ × Request redis secret)
requests = (500, calls token) ∷ (0, registers token (some secret)) ∷ []

is_hit :
    (event redis secret 700 token (some secret) (serve_all redis secret requests (λ _ _. none))).0
    ≡ hit true
unfolding serve_all serve
is_hit =
    event-callback redis redis-IsRedis secret token (some secret) (λ _ _. none) 0 500 700 token_fits
      key_fits (omega arith) (omega arith)

event-IsCalled_example :
    (any (is_registration redis redis-IsRedis secret token) requests ≡ true)
    × (any (is_call redis redis-IsRedis secret token) requests ≡ true)
event-IsCalled_example =
    event-IsCalled redis redis-IsRedis secret token (some secret) requests 700 (λ _ _. none)
      (λ _ _. refl) is_hit
