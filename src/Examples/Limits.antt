-- ===== src/Examples/Limits.antt =====
-- Runs of platform_security/rate_limiting.py on a small policy.
use superoffice_ai_support_m.Common.{
  ℕ, ◌≡◌, ◌≤◌, some, List, [], ◌∷◌, Text, codes, count_if, lookup_or, text_eq, if◌then◌else◌, arith,
  strip,
}
use superoffice_ai_support_m.Security.RateLimit.{
  RateLimitPolicy, SlidingWindowRateLimiter, Key, single, parts, normalize_key, reset,
}
use superoffice_ai_support_m.Security.RateLimit.Refinement.{
  admitted, admitted_spec, admitted-eq-admitted_spec,
}
use superoffice_ai_support_m.Security.RateLimit.Windows.{within, admitted_window}
use superoffice_ai_support_m.Security.RateLimit.Keys.{
  serve, times_of, normalized, serve_by_key, serve_window, lookup-reset,
}

abbrev two_per_ten : RateLimitPolicy
two_per_ten = record {
  requests_per_window = 2;
  window_seconds = 10;
  burst_limit = 2;
  burst_window_seconds = 3;
}

abbrev some_times : List ℕ
some_times = 1 ∷ 4 ∷ 5 ∷ 12 ∷ 20 ∷ []

admitted-eq-admitted_spec_example :
    admitted two_per_ten [] some_times ≡ admitted_spec two_per_ten [] some_times
admitted-eq-admitted_spec_example =
    admitted-eq-admitted_spec two_per_ten some_times (omega arith) (omega arith)

admitted_window_example :
    (count_if (within 3 10) (admitted two_per_ten [] some_times) ≤ 2)
    × (count_if (within 3 3) (admitted two_per_ten [] some_times) ≤ 2)
admitted_window_example = admitted_window two_per_ten some_times 3 (omega arith) (omega arith)

abbrev two_callers : List (Key × ℕ)
two_callers =
    (single (codes "anna::get_ticket"), 1)
    ∷ (parts (codes "ben" ∷ codes "get_ticket" ∷ []), 2)
    ∷ (single (codes " anna::get_ticket "), 4)
    ∷ (single (codes "anna::get_ticket"), 5)
    ∷ []

abbrev empty_limiter : SlidingWindowRateLimiter
empty_limiter = record { policy = two_per_ten; history = [] }

abbrev anna : Text
anna = codes "anna::get_ticket"

serve_by_key_example :
    times_of anna (serve empty_limiter two_callers)
    ≡ admitted two_per_ten
        (lookup_or anna empty_limiter.history [])
        (times_of anna (normalized two_callers))
serve_by_key_example = serve_by_key anna empty_limiter two_callers

serve_window_example :
    (count_if (within 1 10) (times_of anna (serve empty_limiter two_callers)) ≤ 2)
    × (count_if (within 1 3) (times_of anna (serve empty_limiter two_callers)) ≤ 2)
unfolding times_of normalized normalize_key text_eq strip
serve_window_example = serve_window two_per_ten two_callers anna 1 (omega arith) (omega arith)

abbrev used_limiter : SlidingWindowRateLimiter
used_limiter = record {
  policy = two_per_ten;
  history = (anna, 1 ∷ 2 ∷ []) ∷ (codes "ben::get_ticket", 3 ∷ []) ∷ [];
}

lookup-reset_example :
    lookup_or (codes "ben::get_ticket") (reset used_limiter (some (single anna))).history [] ≡ (
      if text_eq (normalize_key (single anna)) (codes "ben::get_ticket")
      then []
      else lookup_or (codes "ben::get_ticket") used_limiter.history [])
lookup-reset_example = lookup-reset used_limiter (single anna) (codes "ben::get_ticket")
