-- ===== src/CircuitBreaker/Bounds.antt =====
-- What holds of a breaker after any calls.
use meta_co_sign.Base.{
  ℕ, subst, some, ◌<◌, ◌≤◌, ◌≡◌, refl, false, List, [], ◌∷◌, inl, inr, arith, Bool-cases,
}
use meta_co_sign.Bytes.Word.{int_suc, int_leb, lt_of_int_leb}
use meta_co_sign.CircuitBreaker.{
  new_circuit_breaker, State, state_closed, state_open, state_half_open, Config, CircuitBreaker,
  since, admit, can_execute, succeed, record_success, trip, record_failure, reset, Event, ask,
  success, failure, reset_event, apply, run,
}

-- limits that are positive `int`s
pub record IsSensible (c : Config) : Type 0 where
  pub failures_positive : 0 < c.max_failures
  pub failures_fit : c.max_failures < 9223372036854775808
  pub requests_fit : c.max_requests < 9223372036854775808

-- a closed breaker has seen fewer failures than the limit
abbrev pub FailuresBelow : State → ℕ → ℕ → Type 0
FailuresBelow state_closed failures limit = failures < limit
FailuresBelow state_open failures limit = Unit
FailuresBelow state_half_open failures limit = Unit

pub record IsValid (c : Config) (cb : CircuitBreaker) : Type 0 where
  pub same_config : cb.config ≡ c
  pub failures_below : FailuresBelow cb.state cb.failures c.max_failures
  pub requests_within : cb.requests ≤ c.max_requests

module _ (c : Config) (sensible : IsSensible c) where
  admit-IsValid :
      (now : ℕ) (s : State) (cb : CircuitBreaker)
      → cb.state ≡ s
      → IsValid c cb
      → IsValid c (admit now s cb).1
  unfolding admit
  admit-IsValid now state_closed cb e v = v
  admit-IsValid now state_open cb e v =
      elim (Bool-cases (int_leb (since now cb.last_failure_time) cb.config.timeout)) [
        | inl early ↦ rw early (record {
          same_config = v.same_config;
          failures_below = v.failures_below;
          requests_within = v.requests_within;
        })
        | inr late ↦ rw late (record {
          same_config = v.same_config;
          failures_below = tt;
          requests_within = omega arith;
        })
      ]
  admit-IsValid now state_half_open cb e v =
      elim (Bool-cases (int_leb cb.config.max_requests cb.requests)) [
        | inl full ↦ rw full (record {
          same_config = v.same_config;
          failures_below = v.failures_below;
          requests_within = v.requests_within;
        })
        | inr free ↦ rw free (record {
          same_config = v.same_config;
          failures_below = rw e tt;
          requests_within =
              let below : cb.requests < c.max_requests =
                lt_of_int_leb c.max_requests cb.requests sensible.requests_fit
                  (omega (arith, v.requests_within, sensible.requests_fit))
                  (subst (λ d. int_leb d.max_requests cb.requests ≡ false) v.same_config free) in
              omega (arith, sensible.requests_fit);
        })
      ]

  can_execute-IsValid :
      (now : ℕ) (cb : CircuitBreaker) → IsValid c cb → IsValid c (can_execute now cb).1
  unfolding can_execute
  can_execute-IsValid now cb v = admit-IsValid now cb.state _ refl (record {
    same_config = v.same_config;
    failures_below = v.failures_below;
    requests_within = v.requests_within;
  })

  succeed-IsValid :
      (s : State) (cb : CircuitBreaker) → cb.state ≡ s → IsValid c cb → IsValid c (succeed s cb)
  unfolding succeed
  succeed-IsValid state_closed cb e v = record {
    same_config = v.same_config;
    failures_below = rw e sensible.failures_positive;
    requests_within = v.requests_within;
  }
  succeed-IsValid state_open cb e v = v
  succeed-IsValid state_half_open cb e v =
      elim (Bool-cases (int_leb cb.config.max_requests cb.requests)) [
        | inl full ↦ rw full (record {
          same_config = v.same_config;
          failures_below = sensible.failures_positive;
          requests_within = omega arith;
        })
        | inr more ↦ rw more v
      ]

  record_success-IsValid :
      (now : ℕ) (cb : CircuitBreaker) → IsValid c cb → IsValid c (record_success now cb)
  unfolding record_success
  record_success-IsValid now cb v = succeed-IsValid cb.state _ refl (record {
    same_config = v.same_config;
    failures_below = v.failures_below;
    requests_within = v.requests_within;
  })

  -- what `RecordFailure` counts before it looks at the state.
  abbrev pub failed : ℕ → CircuitBreaker → CircuitBreaker
  failed now cb = record cb {
    total_failures = int_suc cb.total_failures;
    failures = int_suc cb.failures;
    last_failure_time = now;
  }

  trip-IsValid :
      (now : ℕ) (s : State) (cb : CircuitBreaker)
      → cb.state ≡ s
      → IsValid c cb
      → IsValid c (trip s (failed now cb))
  unfolding trip
  trip-IsValid now state_closed cb e v =
      elim (Bool-cases (int_leb cb.config.max_failures (int_suc cb.failures))) [
        | inl many ↦ rw many (record {
          same_config = v.same_config;
          failures_below = tt;
          requests_within = v.requests_within;
        })
        | inr few ↦ rw few (record {
          same_config = v.same_config;
          failures_below = rw e (
              let before : cb.failures < c.max_failures =
                subst (λ s. FailuresBelow s cb.failures c.max_failures) e v.failures_below in
              lt_of_int_leb c.max_failures (int_suc cb.failures) sensible.failures_fit
                (omega (arith, before, sensible.failures_fit))
                (subst (λ d. int_leb d.max_failures (int_suc cb.failures) ≡ false) v.same_config
                  few));
          requests_within = v.requests_within;
        })
      ]
  trip-IsValid now state_open cb e v = record {
    same_config = v.same_config;
    failures_below = rw e tt;
    requests_within = v.requests_within;
  }
  trip-IsValid now state_half_open cb e v = record {
    same_config = v.same_config;
    failures_below = tt;
    requests_within = omega arith;
  }

  apply-IsValid : (e : Event) (cb : CircuitBreaker) → IsValid c cb → IsValid c (apply e cb)
  unfolding apply record_failure reset
  apply-IsValid (ask now) cb v = can_execute-IsValid now cb v
  apply-IsValid (success now) cb v = record_success-IsValid now cb v
  apply-IsValid (failure now) cb v = trip-IsValid now cb.state cb refl v
  apply-IsValid reset_event cb v = record {
    same_config = v.same_config;
    failures_below = sensible.failures_positive;
    requests_within = omega arith;
  }

  run-IsValid : (es : List Event) (cb : CircuitBreaker) → IsValid c cb → IsValid c (run es cb)
  unfolding run
  run-IsValid [] cb v = v
  run-IsValid (e ∷ es) cb v = run-IsValid es (apply e cb) (apply-IsValid e cb v)

  -- After any calls on a new breaker whose limits are positive `int`s, its limits are the ones it
  -- was made with, it has counted fewer failures than the limit if it is closed, and it has never
  -- counted more half-open requests than the limit.
  pub run-new_circuit_breaker-IsValid :
      (es : List Event) → IsValid c (run es (new_circuit_breaker (some c)))
  unfolding new_circuit_breaker
  run-new_circuit_breaker-IsValid es = run-IsValid es (new_circuit_breaker (some c)) (record {
    same_config = refl;
    failures_below = sensible.failures_positive;
    requests_within = omega arith;
  })
