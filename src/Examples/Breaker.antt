-- ===== src/Examples/Breaker.antt =====
-- The theorems on the circuit breaker at concrete inputs: a limit of three failures and two
-- half-open requests, and a timeout of five.
use meta_co_sign.Base.{◌≡◌, refl, some, [], ◌∷◌, arith, map}
use meta_co_sign.CircuitBreaker.{
  Config, CircuitBreaker, state_closed, state_open, new_circuit_breaker, ask, success, failure,
  reset_event, run, admitted,
}
use meta_co_sign.CircuitBreaker.Bounds.{IsSensible, IsValid, run-new_circuit_breaker-IsValid}
use meta_co_sign.CircuitBreaker.Trip.{run-failure-state, open-admitted, late-admitted}

abbrev small : Config
small = record { max_failures = 3; max_requests = 2; interval = 1; timeout = 5 }

abbrev fresh : CircuitBreaker
fresh = record {
  config = small;
  state = state_closed;
  failures = 0;
  requests = 0;
  last_failure_time = 0;
  last_success_time = 0;
  total_requests = 0;
  total_failures = 0;
  total_successes = 0;
  total_rejected = 0;
}

abbrev opened : CircuitBreaker
opened = record fresh { state = state_open; failures = 3; last_failure_time = 7 }

small-IsSensible : IsSensible small
small-IsSensible = record {
  failures_positive = omega arith;
  failures_fit = omega arith;
  requests_fit = omega arith;
}

run-new_circuit_breaker-IsValid_example : IsValid small (
    run
      (failure 1 ∷ failure 2 ∷ failure 3 ∷ ask 9 ∷ ask 10 ∷ success 11 ∷ reset_event ∷ [])
      (new_circuit_breaker (some small)))
run-new_circuit_breaker-IsValid_example =
    run-new_circuit_breaker-IsValid small small-IsSensible
      (failure 1 ∷ failure 2 ∷ failure 3 ∷ ask 9 ∷ ask 10 ∷ success 11 ∷ reset_event ∷ [])

run-failure-state_example : (run (map failure (1 ∷ 2 ∷ 3 ∷ [])) fresh).state ≡ state_open
run-failure-state_example =
    run-failure-state (1 ∷ 2 ∷ 3 ∷ []) fresh refl (omega arith) (omega arith)

open-admitted_example : admitted (8 ∷ 10 ∷ 12 ∷ []) opened ≡ 0
open-admitted_example =
    open-admitted (8 ∷ 10 ∷ 12 ∷ []) opened refl (omega arith, (omega arith, (omega arith, tt)))
      (omega arith)

late-admitted_example : admitted (13 ∷ 14 ∷ 15 ∷ 16 ∷ []) opened ≡ 3
late-admitted_example =
    late-admitted 13 (14 ∷ 15 ∷ 16 ∷ []) opened refl (omega arith) (omega arith) (omega arith)
