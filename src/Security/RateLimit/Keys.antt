-- ===== src/Security/RateLimit/Keys.antt =====
-- The table of deques in platform_security/rate_limiting.py: callers do not affect one another.
use superoffice_ai_support_m.Common.{
  ℕ, ◌≤◌, ◌≡◌, refl, some, List, [], ◌∷◌, Text, text_eq, text_eq_iff, Dict, lookup, lookup_or,
  lookup-put, lookup-remove, put, strip-strip, count_if, if◌then◌else◌, arith, ok, err,
}
use superoffice_ai_support_m.Security.RateLimit.{
  RateLimitPolicy, SlidingWindowRateLimiter, Key, single, normalize_key, admit, is_allowed_at,
  is_allowed, check_rate_limit, reset,
}
use superoffice_ai_support_m.Security.RateLimit.Refinement.{admitted, Ascending}
use superoffice_ai_support_m.Security.RateLimit.Windows.{within, admitted_window}

-- The requests that a limiter lets through, out of a sequence over any keys.
unfoldable pub serve : SlidingWindowRateLimiter → List (Key × ℕ) → List (Text × ℕ)
serve limiter [] = []
serve limiter ((key, now) ∷ requests) =
    let (limiter', allowed) = is_allowed limiter key now in
    let rest = serve limiter' requests in if allowed then (normalize_key key, now) ∷ rest else rest

-- The times of the requests of one key.
unfoldable pub times_of : Text → List (Text × ℕ) → List ℕ
times_of k [] = []
times_of k ((j, t) ∷ requests) =
    let rest = times_of k requests in if text_eq j k then t ∷ rest else rest

unfoldable pub normalized : List (Key × ℕ) → List (Text × ℕ)
normalized [] = []
normalized ((key, now) ∷ requests) = (normalize_key key, now) ∷ normalized requests

lookup_or-put :
    (k j : Text) (v : List ℕ) (d : Dict (List ℕ))
    → lookup_or j (put k v d) [] ≡ (if text_eq k j then v else lookup_or j d [])
unfolding lookup_or
lookup_or-put k j v d = ground (arith, lookup-put k j v d)

-- One request of any key, before the rest of the sequence.
serve_round :
    (k : Text) (limiter : SlidingWindowRateLimiter) (j : Text) (now : ℕ) (times : List (Text × ℕ))
    (rest : SlidingWindowRateLimiter → List (Text × ℕ))
    → ((l : SlidingWindowRateLimiter)
        → times_of k (rest l) ≡ admitted l.policy (lookup_or k l.history []) (times_of k times))
    → times_of k (
        let (limiter', allowed) = is_allowed_at limiter j now in
        let served = rest limiter' in if allowed then (j, now) ∷ served else served)
      ≡ admitted limiter.policy (lookup_or k limiter.history []) (times_of k ((j, now) ∷ times))
unfolding times_of admitted is_allowed_at
serve_round k limiter j now times rest ih =
    let (deque, allowed) = admit limiter.policy (lookup_or j limiter.history []) now in
    let limiter' : SlidingWindowRateLimiter = record limiter {
      history = put j deque limiter.history;
    } in
    ground (arith, lookup_or-put j k deque limiter.history, ih limiter', text_eq_iff j k)

-- Whatever the order in which the requests of all the keys come in, those of one key are let
-- through exactly as if the limiter served that key alone, from the deque that the key has.
pub serve_by_key :
    (k : Text) (limiter : SlidingWindowRateLimiter) (requests : List (Key × ℕ))
    → times_of k (serve limiter requests)
      ≡ admitted limiter.policy (lookup_or k limiter.history []) (times_of k (normalized requests))
unfolding serve times_of normalized admitted is_allowed
serve_by_key k limiter [] = refl
serve_by_key k limiter ((key, now) ∷ requests) =
    serve_round k limiter (normalize_key key) now (normalized requests) (λ l. serve l requests)
      (λ l. serve_by_key k l requests)

-- From empty deques, for any interleaving of requests: if the times of a key's requests never go
-- back and the burst window is no longer than the main one, then of the key's requests that are
-- let through at most requests_per_window lie in any window of window_seconds and at most
-- burst_limit in any window of burst_window_seconds, ends included.
pub serve_window :
    (policy : RateLimitPolicy) (requests : List (Key × ℕ)) (k : Text) (start : ℕ)
    → policy.burst_window_seconds ≤ policy.window_seconds
    → Ascending 0 (times_of k (normalized requests))
    → let served = times_of k (serve (record { policy = policy; history = [] }) requests) in
      (count_if (within start policy.window_seconds) served ≤ policy.requests_per_window)
      × (count_if (within start policy.burst_window_seconds) served ≤ policy.burst_limit)
serve_window policy requests k start nested asc =
    rw (serve_by_key k (record { policy = policy; history = [] }) requests) (
      unfold lookup_or lookup in
      admitted_window policy (times_of k (normalized requests)) start nested asc)

-- check_rate_limit raises for a str key exactly when is_allowed says no, with the same table
-- afterwards; what it raises carries the limit and the window of the policy.
pub check_rate_limit_iff :
    (limiter : SlidingWindowRateLimiter) (key : Text) (now : ℕ)
    → ((check_rate_limit limiter (single key) now).0 ≡ (is_allowed limiter (single key) now).0)
      × ((check_rate_limit limiter (single key) now).1 ≡ (
          if (is_allowed limiter (single key) now).1
          then ok tt
          else err (record {
            limit_per_minute = limiter.policy.requests_per_window;
            retry_after_seconds = limiter.policy.window_seconds;
          })))
unfolding check_rate_limit normalize_key is_allowed
check_rate_limit_iff limiter key now = (rw strip-strip, rw strip-strip)

-- After a reset of one key its deque is empty and every other key keeps its deque.
pub lookup-reset :
    (limiter : SlidingWindowRateLimiter) (key : Key) (j : Text)
    → lookup_or j (reset limiter (some key)).history []
      ≡ (if text_eq (normalize_key key) j then [] else lookup_or j limiter.history [])
unfolding reset lookup_or
lookup-reset limiter key j = ground (arith, lookup-remove (normalize_key key) j limiter.history)
