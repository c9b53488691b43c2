-- ===== src/Examples/Requests.antt =====
-- Runs of platform_http/client.py.
use superoffice_ai_support_m.Common.{
  ℕ, ◌≤◌, ◌≡◌, true, false, none, [], ◌∷◌, ◌==◌, if◌then◌else◌, arith,
}
use superoffice_ai_support_m.Http.Client.{
  HttpRequest, Exchange, response, timeout_exception, World, get, is_retry_safe, attempts_allowed,
  send,
}
use superoffice_ai_support_m.Http.Client.Attempts.{Ends, send-Ends}

abbrev a_request : HttpRequest
a_request = record {
  method = get;
  total_timeout = 100;
  retry = record {
    max_attempts = 3;
    initial_backoff = 1;
    max_backoff = 5;
    jitter = false;
    retryable_status_codes = 500 ∷ 503 ∷ [];
  };
  retry_safe = none;
}

abbrev two_timeouts : ℕ → Exchange
two_timeouts k =
    if k == 3
    then response (record { status_code = 200; body_text = []; is_success = true })
    else timeout_exception

abbrev a_world : World
a_world = record {
  called = 0;
  started = λ k. k;
  tested = λ k. k;
  exchange = two_timeouts;
  scale = λ k delay. delay;
}

send-Ends_example :
    Ends a_request a_world 1 (record { sent = 0; slept = [] }) (send a_request a_world)
    × ((send a_request a_world).0.sent ≤ attempts_allowed a_request)
    × (is_retry_safe a_request ≡ false → (send a_request a_world).0.sent ≤ 1)
unfolding attempts_allowed is_retry_safe
send-Ends_example = send-Ends a_request a_world (omega arith)
