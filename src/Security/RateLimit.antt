-- ===== src/Security/RateLimit.antt =====
-- platform_security/rate_limiting.py. Times and windows are natural numbers of one clock tick,
-- whatever the tick is. `now - window` stops at 0 where the code's float goes below 0; no recorded
-- time is below 0 either, so each test gives the same answer.
pub mod Refinement
pub mod Windows
pub mod Keys
use superoffice_ai_support_m.Common.{
  ◌||◌, ℕ, ◌-◌, Bool, true, false, not, Option, none, some, List, [], ◌∷◌, ◌++◌, Text, codes, strip,
  is_blank, Dict, lookup_or, put, remove, Result, ok, err, ltb, leb, length, count_if,
  if◌then◌else◌, map,
}

pub record RateLimitPolicy : Type 0 where
  pub requests_per_window : ℕ
  pub window_seconds : ℕ
  pub burst_limit : ℕ
  pub burst_window_seconds : ℕ

-- A deque is the list of its items, the oldest first.
pub record SlidingWindowRateLimiter : Type 0 where
  pub policy : RateLimitPolicy
  pub history : Dict (List ℕ)

-- `given or default`, where 0 counts as not given
abbrev or_default : Option ℕ → ℕ → ℕ
or_default none default = default
or_default (some given) default = if leb given 0 then default else given

-- The constructor: `none` where RateLimitPolicy refuses a window of no length.
unfoldable pub new_limiter :
    Option RateLimitPolicy
    → (requests_per_minute burst_limit : Option ℕ) → (window_seconds burst_window_seconds : ℕ)
    → Option SlidingWindowRateLimiter
new_limiter (some policy) requests_per_minute burst_limit window_seconds burst_window_seconds =
    some (record { policy = policy; history = [] })
new_limiter none requests_per_minute burst_limit window_seconds burst_window_seconds =
    if leb window_seconds 0 || leb burst_window_seconds 0
    then none
    else some (record {
      policy = record {
        requests_per_window = or_default requests_per_minute 60;
        window_seconds = window_seconds;
        burst_limit = or_default burst_limit 10;
        burst_window_seconds = burst_window_seconds;
      };
      history = [];
    })

abbrev separator : Text
separator = codes "::"

unfoldable pub format_rate_limit_key : Text → Text → Option Text → Text
format_rate_limit_key identity tool_name none = strip identity ++ (separator ++ strip tool_name)
format_rate_limit_key identity tool_name (some client_ip) =
    let base = strip identity ++ (separator ++ strip tool_name) in
    if not (is_blank client_ip) then base ++ (separator ++ strip client_ip) else base

-- A key is a str, or a tuple of parts that are read as str.
pub data Key : Type 0 where
  single : Text → Key
  parts : List Text → Key

join : Text → List Text → Text
join sep [] = []
join sep (part ∷ []) = part
join sep (part ∷ next ∷ rest) = part ++ (sep ++ join sep (next ∷ rest))

unfoldable pub normalize_key : Key → Text
unfolding join
normalize_key (single key) = strip key
normalize_key (parts key) = join separator (map strip key)

-- The loop that drops old items from the left end.
unfoldable pub evict : ℕ → List ℕ → List ℕ
evict window_start [] = []
evict window_start (t ∷ timestamps) =
    if ltb t window_start then evict window_start timestamps else t ∷ timestamps

-- The decision for one deque, and the deque after it.
unfoldable pub admit : RateLimitPolicy → List ℕ → ℕ → List ℕ × Bool
unfolding evict
admit policy recorded now =
    let timestamps = evict (now - policy.window_seconds) recorded in
    if leb policy.requests_per_window (length timestamps)
    then (timestamps, false)
    else if leb policy.burst_limit
        (count_if (λ t. leb (now - policy.burst_window_seconds) t) timestamps)
    then (timestamps, false)
    else (timestamps ++ now ∷ [], true)

-- is_allowed at a normalized key: the deque of a new key is empty, and the table holds the deque
-- itself, so what the loop dropped stays dropped on every branch.
unfoldable pub is_allowed_at : SlidingWindowRateLimiter → Text → ℕ → SlidingWindowRateLimiter × Bool
unfolding admit
is_allowed_at limiter norm_key now =
    let (timestamps, allowed) = admit limiter.policy (lookup_or norm_key limiter.history []) now in
    (record limiter { history = put norm_key timestamps limiter.history }, allowed)

unfoldable pub is_allowed : SlidingWindowRateLimiter → Key → ℕ → SlidingWindowRateLimiter × Bool
unfolding is_allowed_at
is_allowed limiter key now = is_allowed_at limiter (normalize_key key) now

pub record RateLimitExceededError : Type 0 where
  pub limit_per_minute : ℕ
  pub retry_after_seconds : ℕ

unfoldable pub check_rate_limit :
    SlidingWindowRateLimiter
    → Key
    → ℕ
    → SlidingWindowRateLimiter × Result RateLimitExceededError (Unit {0})
check_rate_limit limiter key now =
    let (limiter', allowed) = is_allowed limiter (single (normalize_key key)) now in
    (
      limiter',
      (if allowed
          then ok tt
          else err (record {
            limit_per_minute = limiter.policy.requests_per_window;
            retry_after_seconds = limiter.policy.window_seconds;
          })),
    )

unfoldable pub reset : SlidingWindowRateLimiter → Option Key → SlidingWindowRateLimiter
reset limiter (some key) = record limiter { history = remove (normalize_key key) limiter.history }
reset limiter none = record limiter { history = [] }
