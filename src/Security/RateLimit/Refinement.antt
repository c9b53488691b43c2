-- ===== src/Security/RateLimit/Refinement.antt =====
-- The deque of platform_security/rate_limiting.py against a limiter that forgets nothing.
use mathlib.Core.List.{append_assoc}
use superoffice_ai_support_m.Common.{
  ℕ, ◌+◌, ◌-◌, ◌≤◌, ◌<◌, ◌≡◌, refl, Bool, true, false, ◌&&◌, List, [], ◌∷◌, ◌++◌, ltb, leb, sym, ap,
  ◌∙◌, length, count_if, count_if-append, All, All-append, if◌then◌else◌, arith, Bool-cases, inl,
  inr,
}
use superoffice_ai_support_m.Security.RateLimit.{RateLimitPolicy, evict, admit}

-- The times that a deque admits out of a sequence of requests.
unfoldable pub admitted : RateLimitPolicy → List ℕ → List ℕ → List ℕ
admitted policy deque [] = []
admitted policy deque (now ∷ times) =
    let (deque', allowed) = admit policy deque now in
    let rest = admitted policy deque' times in if allowed then now ∷ rest else rest

-- The specification: of all admitted times `past`, fewer than the limits lie in the two windows
-- that end now.
unfoldable pub fits : RateLimitPolicy → List ℕ → ℕ → Bool
fits policy past now =
    ltb (count_if (λ t. leb now (t + policy.window_seconds)) past) policy.requests_per_window
    && ltb (count_if (λ t. leb now (t + policy.burst_window_seconds)) past) policy.burst_limit

unfoldable pub admitted_spec : RateLimitPolicy → List ℕ → List ℕ → List ℕ
admitted_spec policy past [] = []
admitted_spec policy past (now ∷ times) =
    let with = now ∷ admitted_spec policy (past ++ now ∷ []) times in
    let without = admitted_spec policy past times in if fits policy past now then with else without

-- The times never go back, from `start` on.
abbrev pub Ascending : ℕ → List ℕ → Type 0
Ascending start [] = Unit
Ascending start (t ∷ times) = (start ≤ t) × Ascending t times

-- What the deque has to do with all admitted times: `dropped` is what left its window.
pub record Tracks (policy : RateLimitPolicy) (past deque dropped : List ℕ) (last : ℕ) : Type 0 where
  pub split : past ≡ dropped ++ deque
  pub gone : All (λ t. t + policy.window_seconds < last) dropped
  pub sorted : Ascending 0 deque
  pub before : All (λ t. t ≤ last) deque

Ascending-weaken : (a b : ℕ) (times : List ℕ) → a ≤ b → Ascending b times → Ascending a times
Ascending-weaken a b [] le h = tt
Ascending-weaken a b (t ∷ times) le h = (omega arith, h.1)

All-weaken : (a b : ℕ) (times : List ℕ) → a ≤ b → All (λ t. t ≤ a) times → All (λ t. t ≤ b) times
All-weaken a b [] le h = tt
All-weaken a b (t ∷ times) le h = (omega arith, All-weaken a b times le h.1)

Ascending-snoc :
    (start now : ℕ) (times : List ℕ)
    → Ascending start times
    → All (λ t. t ≤ now) times
    → start ≤ now
    → Ascending start (times ++ now ∷ [])
Ascending-snoc start now [] h k le = (le, tt)
Ascending-snoc start now (t ∷ times) h k le = (h.0, Ascending-snoc t now times h.1 k.1 k.0)

-- The items that the loop drops.
evicted : ℕ → List ℕ → List ℕ
evicted window_start [] = []
evicted window_start (t ∷ times) =
    let rest = evicted window_start times in if ltb t window_start then t ∷ rest else []

evicted-append-evict : (ws : ℕ) (times : List ℕ) → times ≡ evicted ws times ++ evict ws times
unfolding evicted evict
evicted-append-evict ws [] = refl
evicted-append-evict ws (t ∷ times) = ground (arith, evicted-append-evict ws times)

evicted_old : (now w last : ℕ) (times : List ℕ) → All (λ t. t + w < now) (evicted (now - w) times)
unfolding evicted
evicted_old now w last [] = tt
evicted_old now w last (t ∷ times) = elim (Bool-cases (ltb t (now - w))) [
  | inl old ↦ rw old (ground arith, evicted_old now w last times)
  | inr recent ↦ rw recent tt
]

evict_recent :
    (ws start : ℕ) (times : List ℕ) → Ascending start times → Ascending ws (evict ws times)
unfolding evict
evict_recent ws start [] h = tt
evict_recent ws start (t ∷ times) h = elim (Bool-cases (ltb t ws)) [
  | inl old ↦ rw old (evict_recent ws t times h.1)
  | inr recent ↦ rw recent (ground arith, h.1)
]

evict_before :
    (ws last : ℕ) (times : List ℕ)
    → All (λ t. t ≤ last) times
    → All (λ t. t ≤ last) (evict ws times)
unfolding evict
evict_before ws last [] h = tt
evict_before ws last (t ∷ times) h = elim (Bool-cases (ltb t ws)) [
  | inl old ↦ rw old (evict_before ws last times h.1)
  | inr recent ↦ rw recent h
]

gone_weaken :
    (w last now : ℕ) (times : List ℕ)
    → last ≤ now
    → All (λ t. t + w < last) times
    → All (λ t. t + w < now) times
gone_weaken w last now [] le h = tt
gone_weaken w last now (t ∷ times) le h = (omega arith, gone_weaken w last now times le h.1)

-- Nothing that left the window counts, in it or in a shorter one.
count_gone :
    (now w b : ℕ) (times : List ℕ)
    → b ≤ w
    → All (λ t. t + w < now) times
    → count_if (λ t. leb now (t + b)) times ≡ 0
count_gone now w b [] le h = refl
count_gone now w b (t ∷ times) le h = ground (arith, count_gone now w b times)

count_kept :
    (now w start : ℕ) (times : List ℕ)
    → now ≤ start + w
    → Ascending start times
    → count_if (λ t. leb now (t + w)) times ≡ length times
count_kept now w start [] le h = refl
count_kept now w start (t ∷ times) le h = ground (arith, count_kept now w t times)

count_burst :
    (now b : ℕ) (times : List ℕ)
    → count_if (λ t. leb now (t + b)) times ≡ count_if (λ t. leb (now - b) t) times
count_burst now b [] = refl
count_burst now b (t ∷ times) = ground (arith, count_burst now b times)

module _ (policy : RateLimitPolicy)
    (nested : policy.burst_window_seconds ≤ policy.window_seconds) where
  abbrev start_of : ℕ → ℕ
  start_of now = now - policy.window_seconds

  evict-Tracks :
      (past deque dropped : List ℕ) (last now : ℕ)
      → last ≤ now
      → Tracks policy past deque dropped last
      → Tracks policy past
          (evict (start_of now) deque)
          (dropped ++ evicted (start_of now) deque)
          now
  evict-Tracks past deque dropped last now le h = record {
    split =
        h.split
        ∙ ap (λ xs. dropped ++ xs) (evicted-append-evict (start_of now) deque)
        ∙ sym (append_assoc dropped (evicted (start_of now) deque) (evict (start_of now) deque));
    gone =
        All-append _ dropped _ (gone_weaken policy.window_seconds last now dropped le h.gone)
          (evicted_old now policy.window_seconds last deque);
    sorted =
        Ascending-weaken 0 (start_of now) _ (omega arith)
          (evict_recent (start_of now) 0 deque h.sorted);
    before = evict_before (start_of now) now deque (All-weaken last now deque le h.before);
  }

  -- The two counts of the specification are those of the evicted deque.
  counts :
      (past deque dropped : List ℕ) (now : ℕ)
      → Tracks policy past deque dropped now
      → Ascending (start_of now) deque
      → (count_if (λ t. leb now (t + policy.window_seconds)) past ≡ length deque)
        × (count_if (λ t. leb now (t + policy.burst_window_seconds)) past
            ≡ count_if (λ t. leb (now - policy.burst_window_seconds) t) deque)
  counts past deque dropped now h recent =
      let w = policy.window_seconds in
      let b = policy.burst_window_seconds in
      (
        rw (h.split, count_if-append)
            (omega (
              arith,
              count_gone now w w dropped (omega arith) h.gone,
              count_kept now w (start_of now) deque (omega arith) recent,
            )),
        rw (h.split, count_if-append)
            (omega (arith, count_gone now w b dropped nested h.gone, count_burst now b deque)),
      )

  admit-fits :
      (past deque dropped : List ℕ) (last now : ℕ)
      → last ≤ now
      → Tracks policy past deque dropped last
      → admit policy deque now ≡ (
          if fits policy past now
          then (evict (start_of now) deque ++ now ∷ [], true)
          else (evict (start_of now) deque, false))
  admit-fits past deque dropped last now le h =
      let kept = evict-Tracks past deque dropped last now le h in
      let (all, burst) =
        counts past (evict (start_of now) deque) _ now kept
          (evict_recent (start_of now) 0 deque h.sorted) in
      unfold admit fits in rw (all, burst) (ground arith)

  snoc-Tracks :
      (past deque dropped : List ℕ) (now : ℕ)
      → Tracks policy past deque dropped now
      → Tracks policy (past ++ now ∷ []) (deque ++ now ∷ []) dropped now
  snoc-Tracks past deque dropped now h = record {
    split = rw h.split (append_assoc dropped deque (now ∷ []));
    gone = h.gone;
    sorted = Ascending-snoc 0 now deque h.sorted h.before (omega arith);
    before = All-append _ deque (now ∷ []) h.before (omega arith, tt);
  }

  admitted-Tracks :
      (past deque dropped : List ℕ) (last : ℕ) (times : List ℕ)
      → Ascending last times
      → Tracks policy past deque dropped last
      → admitted policy deque times ≡ admitted_spec policy past times
  unfolding admitted admitted_spec
  admitted-Tracks past deque dropped last [] asc h = refl
  admitted-Tracks past deque dropped last (now ∷ times) asc h =
      let kept = evict-Tracks past deque dropped last now asc.0 h in
      let yes_case =
        admitted-Tracks (past ++ now ∷ []) _ _ now times asc.1 (snoc-Tracks past _ _ now kept) in
      let no_case = admitted-Tracks past _ _ now times asc.1 kept in
      rw (admit-fits past deque dropped last now asc.0 h)
        (elim (Bool-cases (fits policy past now)) [
          | inl e ↦ rw e (ap (λ rest. now ∷ rest) yes_case)
          | inr e ↦ rw e no_case
        ])

-- For requests whose times never go back, under a burst window no longer than the main one, the
-- pruned deque admits exactly the requests that the specification admits, which looks at all the
-- admitted times: those for which fewer than requests_per_window of them lie in the window that
-- ends now and fewer than burst_limit in the burst window.
pub admitted-eq-admitted_spec :
    (policy : RateLimitPolicy) (times : List ℕ)
    → policy.burst_window_seconds ≤ policy.window_seconds
    → Ascending 0 times
    → admitted policy [] times ≡ admitted_spec policy [] times
admitted-eq-admitted_spec policy times nested asc =
    admitted-Tracks policy nested [] [] [] 0 times asc
      (record { split = refl; gone = tt; sorted = tt; before = tt })
