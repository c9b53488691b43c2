-- ===== src/Http/Client.antt =====
-- platform_http/client.py and the policies of models.py. Times and delays are natural numbers of
-- one clock tick. What httpx answers to each attempt, the readings of the monotonic clock and the
-- factor of random.random() are arguments, as functions of the attempt's number.
pub mod Attempts
use superoffice_ai_support_m.Common.{
  ℕ, zero, suc, ◌+◌, ◌-◌, ◌*◌, ◌^◌, min, Bool, true, false, not, ◌&&◌, Option, none, some, List, [],
  ◌∷◌, ◌++◌, ltb, leb, ◌==◌, any, Result, ok, err, if◌then◌else◌,
}

pub data HttpMethod : Type 0 where
  get post put delete patch head : HttpMethod

pub record RetryPolicy : Type 0 where
  pub max_attempts : ℕ
  pub initial_backoff : ℕ
  pub max_backoff : ℕ
  pub jitter : Bool
  pub retryable_status_codes : List ℕ

-- The parts of a request that the retry logic reads.
pub record HttpRequest : Type 0 where
  pub method : HttpMethod
  pub total_timeout : ℕ
  pub retry : RetryPolicy
  pub retry_safe : Option Bool

-- Headers and the elapsed time are left out.
pub record HttpResponse : Type 0 where
  pub status_code : ℕ
  pub body_text : List ℕ
  pub is_success : Bool

-- What one attempt comes to.
pub data Exchange : Type 0 where
  response : HttpResponse → Exchange
  timeout_exception network_error platform_error unexpected_error : Exchange

-- `exhausted` is the raise after the loop.
pub data HttpError : Type 0 where
  timeout_error network_failure platform_failure unexpected_failure exhausted : HttpError

-- The world of one send: the clock at the start of the call, at the head of each round and where
-- the backoff is tested.
pub record World : Type 0 where
  pub called : ℕ
  pub started : ℕ → ℕ
  pub tested : ℕ → ℕ
  pub exchange : ℕ → Exchange
  pub scale : ℕ → ℕ → ℕ

abbrev by_method : HttpMethod → Bool
by_method get = true
by_method head = true
by_method _ = false

unfoldable pub is_retry_safe : HttpRequest → Bool
is_retry_safe request = elim request.retry_safe [
  | none ↦ by_method request.method
  | some safe ↦ safe
]

unfoldable pub attempts_allowed : HttpRequest → ℕ
unfolding is_retry_safe
attempts_allowed request = if is_retry_safe request then request.retry.max_attempts else 1

unfoldable pub calculate_backoff : World → ℕ → RetryPolicy → ℕ
calculate_backoff world attempt policy =
    let delay = min (policy.initial_backoff * 2 ^ (attempt - 1)) policy.max_backoff in
    if policy.jitter then world.scale attempt delay else delay

-- The state of the loop: how many requests went out, and what it slept.
pub record Trace : Type 0 where
  pub sent : ℕ
  pub slept : List ℕ

pub data Verdict : Type 0 where
  retry : Verdict
  finish : Result HttpError HttpResponse → Verdict

-- One round after its attempt: whether to sleep and go on, or how to end.
unfoldable pub judge : HttpRequest → World → ℕ → Exchange → Verdict
unfolding attempts_allowed calculate_backoff
judge request world attempt (response r) =
    let more = is_retry_safe request && ltb attempt (attempts_allowed request) in
    let late =
      leb (world.called + request.total_timeout)
        (world.tested attempt + calculate_backoff world attempt request.retry) in
    if more && any (λ code. code == r.status_code) request.retry.retryable_status_codes
    then (if late then finish (err timeout_error) else retry)
    else finish (ok r)
judge request world attempt timeout_exception =
    let more = is_retry_safe request && ltb attempt (attempts_allowed request) in
    let early =
      ltb (world.tested attempt + calculate_backoff world attempt request.retry)
        (world.called + request.total_timeout) in
    if more && early then retry else finish (err timeout_error)
judge request world attempt network_error =
    let more = is_retry_safe request && ltb attempt (attempts_allowed request) in
    let early =
      ltb (world.tested attempt + calculate_backoff world attempt request.retry)
        (world.called + request.total_timeout) in
    if more && early then retry else finish (err network_failure)
judge request world attempt platform_error = finish (err platform_failure)
judge request world attempt unexpected_error = finish (err unexpected_failure)

-- The loop over the attempts that are left, `attempt` being the next one.
unfoldable pub send_loop :
    HttpRequest → World → (left attempt : ℕ) → Trace → Trace × Result HttpError HttpResponse
unfolding judge
send_loop request world zero attempt trace = (trace, err exhausted)
send_loop request world (suc left) attempt trace =
    let sent : Trace = record trace { sent = trace.sent + 1 } in
    let rest =
      send_loop request world left (attempt + 1) (record sent {
        slept = trace.slept ++ calculate_backoff world attempt request.retry ∷ [];
      }) in
    if leb (world.called + request.total_timeout) (world.started attempt)
    then (trace, err timeout_error)
    else elim (judge request world attempt (world.exchange attempt)) [
      | retry ↦ rest
      | finish result ↦ (sent, result)
    ]

unfoldable pub send : HttpRequest → World → Trace × Result HttpError HttpResponse
unfolding send_loop
send request world =
    send_loop request world (attempts_allowed request) 1 (record { sent = 0; slept = [] })
