-- ===== src/CircuitBreaker.antt =====
-- pkg/network/circuit_breaker.go: the breaker that stops requests to a failing peer. Every method
-- holds the breaker's mutex, so that concurrent use is a sequence of calls. An `int` or `int64` is
-- given by its 64 bits, and a time by its nanoseconds on the monotonic clock.
pub mod Bounds
pub mod Trip
use meta_co_sign.Base.{
  ℕ, ◌+◌, ◌-◌, Bool, true, false, Option, none, some, List, [], ◌∷◌, if◌then◌else◌, leb, min,
}
use meta_co_sign.Bytes.{Bytes, codes}
use meta_co_sign.Bytes.Word.{int_suc, int_leb}

pub data State : Type 0 where
  state_closed state_open state_half_open : State

unfoldable pub string : State → Bytes
string state_closed = codes "CLOSED"
string state_open = codes "OPEN"
string state_half_open = codes "HALF_OPEN"

pub record Config : Type 0 where
  pub max_failures : ℕ
  pub max_requests : ℕ
  pub interval : ℕ
  pub timeout : ℕ

pub record CircuitBreaker : Type 0 where
  pub config : Config
  pub state : State
  pub failures : ℕ
  pub requests : ℕ
  pub last_failure_time : ℕ
  pub last_success_time : ℕ
  pub total_requests : ℕ
  pub total_failures : ℕ
  pub total_successes : ℕ
  pub total_rejected : ℕ

unfoldable pub default_circuit_breaker_config : Config
default_circuit_breaker_config = record {
  max_failures = 10;
  max_requests = 5;
  interval = 10000000000;
  timeout = 60000000000;
}

unfoldable pub config_or_default : Option Config → Config
unfolding default_circuit_breaker_config
config_or_default none = default_circuit_breaker_config
config_or_default (some c) = c

-- The zero `time.Time` is the number 0.
unfoldable pub new_circuit_breaker : Option Config → CircuitBreaker
unfolding config_or_default
new_circuit_breaker c = record {
  config = config_or_default c;
  state = state_closed;
  failures = 0;
  requests = 0;
  last_failure_time = 0;
  last_success_time = 0;
  total_requests = 0;
  total_failures = 0;
  total_successes = 0;
  total_rejected = 0;
}

-- `time.Since`, which is at most the largest `Duration`; the clock does not run backwards.
abbrev pub since : ℕ → ℕ → ℕ
since now then_ = min (now - then_) 9223372036854775807

-- The branches of `CanExecute`, once the request is counted.
unfoldable pub admit : ℕ → State → CircuitBreaker → Bool × CircuitBreaker
admit now state_closed cb = (true, cb)
admit now state_open cb =
    if int_leb (since now cb.last_failure_time) cb.config.timeout
    then (false, record cb { total_rejected = int_suc cb.total_rejected })
    else (true, record cb { state = state_half_open; requests = 0 })
admit now state_half_open cb =
    if int_leb cb.config.max_requests cb.requests
    then (false, record cb { total_rejected = int_suc cb.total_rejected })
    else (true, record cb { requests = int_suc cb.requests })

unfoldable pub can_execute : ℕ → CircuitBreaker → Bool × CircuitBreaker
unfolding admit
can_execute now cb = admit now cb.state (record cb { total_requests = int_suc cb.total_requests })

unfoldable pub succeed : State → CircuitBreaker → CircuitBreaker
succeed state_half_open cb =
    if int_leb cb.config.max_requests cb.requests
    then record cb { state = state_closed; failures = 0; requests = 0 }
    else cb
succeed state_closed cb = record cb { failures = 0 }
succeed state_open cb = cb

unfoldable pub record_success : ℕ → CircuitBreaker → CircuitBreaker
unfolding succeed
record_success now cb =
    succeed cb.state
      (record cb { total_successes = int_suc cb.total_successes; last_success_time = now })

unfoldable pub trip : State → CircuitBreaker → CircuitBreaker
trip state_closed cb =
    if int_leb cb.config.max_failures cb.failures then record cb { state = state_open } else cb
trip state_half_open cb = record cb { state = state_open; requests = 0 }
trip state_open cb = cb

unfoldable pub record_failure : ℕ → CircuitBreaker → CircuitBreaker
unfolding trip
record_failure now cb = trip cb.state (record cb {
  total_failures = int_suc cb.total_failures;
  failures = int_suc cb.failures;
  last_failure_time = now;
})

unfoldable pub reset : CircuitBreaker → CircuitBreaker
reset cb = record cb { state = state_closed; failures = 0; requests = 0 }

-- the calls that change a breaker, with the time of the call
pub data Event : Type 0 where
  ask success failure : ℕ → Event
  reset_event : Event

unfoldable pub apply : Event → CircuitBreaker → CircuitBreaker
unfolding can_execute record_success record_failure reset
apply (ask now) cb = (can_execute now cb).1
apply (success now) cb = record_success now cb
apply (failure now) cb = record_failure now cb
apply reset_event cb = reset cb

unfoldable pub run : List Event → CircuitBreaker → CircuitBreaker
unfolding apply
run [] cb = cb
run (e ∷ es) cb = run es (apply e cb)

-- How many of the requests, asked for one after the other, may be executed.
unfoldable pub admitted : List ℕ → CircuitBreaker → ℕ
unfolding can_execute
admitted [] cb = 0
admitted (now ∷ nows) cb =
    let (allowed, after) = can_execute now cb in
    let rest = admitted nows after in if allowed then rest + 1 else rest
