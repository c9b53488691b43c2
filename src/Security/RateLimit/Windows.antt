-- ===== src/Security/RateLimit/Windows.antt =====
-- How many requests of platform_security/rate_limiting.py get through in any window of time.
use superoffice_ai_support_m.Common.{
  ℕ, ◌+◌, ◌≤◌, ◌<◌, ◌≡◌, Bool, true, ◌&&◌, List, [], ◌∷◌, ◌++◌, leb, count_if, count_if-append,
  arith, Bool-cases, inl, inr,
}
use superoffice_ai_support_m.Security.RateLimit.{RateLimitPolicy}
use superoffice_ai_support_m.Security.RateLimit.Refinement.{
  fits, admitted, admitted_spec, admitted-eq-admitted_spec, Ascending,
}

-- t lies between start and start + width, both included.
abbrev pub within : ℕ → ℕ → ℕ → Bool
within start width t = leb start t && leb t (start + width)

-- What lies in a window with `now` lies in the window of the same width that ends now.
within_le :
    (start width now : ℕ) (past : List ℕ)
    → within start width now ≡ true
    → count_if (within start width) past ≤ count_if (λ t. leb now (t + width)) past
within_le start width now [] h = omega arith
within_le start width now (t ∷ past) h = ground (arith, within_le start width now past)

module _ (policy : RateLimitPolicy) (width limit : ℕ)
    (bounded : (past : List ℕ) (now : ℕ)
      → fits policy past now ≡ true
      → count_if (λ t. leb now (t + width)) past < limit)
    (start : ℕ) where
  spec_window :
      (past times : List ℕ)
      → count_if (within start width) past ≤ limit
      → count_if (within start width) past
          + count_if (within start width) (admitted_spec policy past times)
        ≤ limit
  unfolding admitted_spec
  spec_window past [] h = omega arith
  spec_window past (now ∷ times) h = elim (Bool-cases (fits policy past now)) [
    | inl e ↦ rw e (admit_case (bounded past now e) (spec_window (past ++ now ∷ []) times))
    | inr e ↦ rw e (spec_window past times h)
  ]
    where
      admit_case :
          count_if (λ t. leb now (t + width)) past < limit
          → (count_if (within start width) (past ++ now ∷ []) ≤ limit
              → count_if (within start width) (past ++ now ∷ [])
                  + count_if (within start width) (admitted_spec policy (past ++ now ∷ []) times)
                ≤ limit)
          → count_if (within start width) past
              + count_if (within start width) (now ∷ admitted_spec policy (past ++ now ∷ []) times)
            ≤ limit
      admit_case below rest = ground (
        arith,
        count_if-append (within start width) past (now ∷ []),
        within_le start width now past,
        rest,
      )

fits_window :
    (policy : RateLimitPolicy) (past : List ℕ) (now : ℕ)
    → fits policy past now ≡ true
    → (count_if (λ t. leb now (t + policy.window_seconds)) past < policy.requests_per_window)
      × (count_if (λ t. leb now (t + policy.burst_window_seconds)) past < policy.burst_limit)
unfolding fits
fits_window policy past now h = ground arith

-- Of the requests that one deque admits, at most requests_per_window lie in any window of
-- window_seconds and at most burst_limit in any window of burst_window_seconds, ends included,
-- if the times never go back and the burst window is no longer than the main one.
pub admitted_window :
    (policy : RateLimitPolicy) (times : List ℕ) (start : ℕ)
    → policy.burst_window_seconds ≤ policy.window_seconds
    → Ascending 0 times
    → (count_if (within start policy.window_seconds) (admitted policy [] times)
        ≤ policy.requests_per_window)
      × (count_if (within start policy.burst_window_seconds) (admitted policy [] times)
          ≤ policy.burst_limit)
admitted_window policy times start nested asc =
    rw (admitted-eq-admitted_spec policy times nested asc) (
      omega (
        arith,
        spec_window policy policy.window_seconds policy.requests_per_window
            (λ past now h. (fits_window policy past now h).0) start [] times (omega arith),
      ),
      omega (
        arith,
        spec_window policy policy.burst_window_seconds policy.burst_limit
            (λ past now h. (fits_window policy past now h).1) start [] times (omega arith),
      ),
    )
