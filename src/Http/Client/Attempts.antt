-- ===== src/Http/Client/Attempts.antt =====
-- How many requests one send of platform_http/client.py makes, and which of them it answers with.
use superoffice_ai_support_m.Common.{
  ℕ, zero, suc, ◌+◌, ◌≤◌, ◌<◌, ◌≡◌, refl, ◌⊎◌, inl, inr, true, false, [], ◌∷◌, ◌++◌, leb, ◌==◌, any,
  leb→le, not_leb→lt, Result, err, arith, Bool-cases,
}
use superoffice_ai_support_m.Http.Client.{
  HttpRequest, HttpResponse, HttpError, timeout_error, Exchange, response, timeout_exception,
  network_error, platform_error, unexpected_error, World, Trace, Verdict, retry, finish,
  is_retry_safe, attempts_allowed, calculate_backoff, judge, send_loop, send,
}

-- What an attempt came to that the client may repeat.
abbrev pub IsTransient : HttpRequest → Exchange → Type 0
IsTransient request (response r) =
    any (λ code. code == r.status_code) request.retry.retryable_status_codes ≡ true
IsTransient request timeout_exception = Unit
IsTransient request network_error = Unit
IsTransient request platform_error = ⊥
IsTransient request unexpected_error = ⊥

abbrev pub deadline : HttpRequest → World → ℕ
deadline request world = world.called + request.total_timeout

-- An attempt is repeated only for a request that is safe to retry, below its limit of attempts,
-- after a retryable status, a timeout or a network error, and if the backoff ends before the
-- total deadline.
judge_retry :
    (request : HttpRequest) (world : World) (attempt : ℕ) (exchange : Exchange)
    → judge request world attempt exchange ≡ retry
    → (is_retry_safe request ≡ true)
      × (attempt < request.retry.max_attempts)
      × IsTransient request exchange
      × (world.tested attempt + calculate_backoff world attempt request.retry
          < deadline request world)
unfolding judge attempts_allowed
judge_retry request world attempt (response r) h =
    (ground arith, ground arith, ground arith, ground arith)
judge_retry request world attempt timeout_exception h =
    (ground arith, ground arith, tt, ground arith)
judge_retry request world attempt network_error h = (ground arith, ground arith, tt, ground arith)
judge_retry request world attempt platform_error h = cc
judge_retry request world attempt unexpected_error h = cc

Verdict-cases : (v : Verdict) → (v ≡ retry) ⊎ ((r : Result HttpError HttpResponse) × (v ≡ finish r))
Verdict-cases retry = inl refl
Verdict-cases (finish r) = inr (r, refl)

module _ (request : HttpRequest) (world : World) where
  abbrev verdict : ℕ → Verdict
  verdict k = judge request world k (world.exchange k)

  -- How a loop ends that starts at the attempt `from`: at the attempt `last`.
  pub record Ends (from : ℕ) (trace : Trace) (answer : Trace × Result HttpError HttpResponse)
      : Type 0 where
    pub last : ℕ
    pub from_le : from ≤ last
    pub last_le : last ≤ attempts_allowed request
    pub retried :
        (k : ℕ)
        → from ≤ k
        → k < last
        → (world.started k < deadline request world)
          × (judge request world k (world.exchange k) ≡ retry)
    pub ended :
        ((deadline request world ≤ world.started last)
          × (answer.1 ≡ err timeout_error)
          × (answer.0.sent + from ≡ trace.sent + last))
        ⊎ ((world.started last < deadline request world)
            × (judge request world last (world.exchange last) ≡ finish answer.1)
            × (answer.0.sent + from ≡ suc (trace.sent + last)))

  retry-lt : (k : ℕ) → verdict k ≡ retry → k < attempts_allowed request
  unfolding attempts_allowed
  retry-lt k h =
      let (safe, below, transient, early) = judge_retry request world k (world.exchange k) h in
      rw safe below

  unsafe_once : is_retry_safe request ≡ false → attempts_allowed request ≡ 1
  unfolding attempts_allowed
  unsafe_once unsafe = rw unsafe

  send_loop-Ends :
      (left attempt : ℕ) (trace : Trace)
      → attempt + left ≡ suc (attempts_allowed request)
      → 0 < left
      → Ends attempt trace (send_loop request world left attempt trace)
  unfolding send_loop
  send_loop-Ends zero attempt trace e some_left = absurd (omega arith)
  send_loop-Ends (suc left) attempt trace e some_left =
      elim (Bool-cases (leb (deadline request world) (world.started attempt))) [
        | inl over ↦ rw over (record {
          last = attempt;
          from_le = omega arith;
          last_le = omega arith;
          retried = λ k low high. absurd (omega arith);
          ended = inl (leb→le _ _ over, refl, refl);
        })
        | inr in_time ↦ elim (Verdict-cases (verdict attempt)) [
          | inr (result, done) ↦
              rw (in_time, done)
                (record {
                  last = attempt;
                  from_le = omega arith;
                  last_le = omega arith;
                  retried = λ k low high. absurd (omega arith);
                  ended = inr (not_leb→lt _ _ in_time, done, omega arith);
                })
          | inl again ↦
              let below = retry-lt attempt again in
              let slept = trace.slept ++ calculate_backoff world attempt request.retry ∷ [] in
              let rest =
                send_loop-Ends left (attempt + 1) (record { sent = trace.sent + 1; slept = slept })
                  (omega arith) (omega arith) in
              rw (in_time, again)
                (record {
                  last = rest.last;
                  from_le = omega (arith, rest.from_le);
                  last_le = rest.last_le;
                  retried = λ k low high. elim (Bool-cases (k == attempt)) [
                    | inl this ↦
                        let f : k ≡ attempt = ground arith in rw f (not_leb→lt _ _ in_time, again)
                    | inr later ↦ rest.retried k (ground arith) high
                  ];
                  ended = elim rest.ended [
                    | inl (a, b, c) ↦ inl (a, b, omega arith)
                    | inr (a, b, c) ↦ inr (a, b, omega arith)
                  ];
                })
        ]
      ]

  -- A send that is allowed at least one attempt ends at one of its attempts, never by running out
  -- of them. All attempts before that one started before the total deadline and were repeated. At
  -- the last one either the deadline had passed, and the send raises a timeout with one request
  -- fewer sent, or the send ends with what that attempt came to. A request that is not safe to
  -- retry is sent at most once, any other at most max_attempts times.
  pub send-Ends :
      0 < attempts_allowed request
      → Ends 1 (record { sent = 0; slept = [] }) (send request world)
        × ((send request world).0.sent ≤ attempts_allowed request)
        × (is_retry_safe request ≡ false → (send request world).0.sent ≤ 1)
  unfolding send
  send-Ends allowed =
      let ends =
        send_loop-Ends (attempts_allowed request) 1 (record { sent = 0; slept = [] }) (omega arith)
          allowed in
      let bound : (send request world).0.sent ≤ attempts_allowed request = elim ends.ended [
        | inl (a, b, c) ↦ omega (arith, ends.last_le)
        | inr (a, b, c) ↦ omega (arith, ends.last_le)
      ] in
      (ends, bound, λ unsafe. let one = unsafe_once unsafe in omega (arith, bound, one))
