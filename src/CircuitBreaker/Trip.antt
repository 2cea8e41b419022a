-- ===== src/CircuitBreaker/Trip.antt =====
-- How a breaker opens, how long it stays open, and how many requests it lets through half-open.
use meta_co_sign.Base.{
  map, ◌∙◌, ap, ℕ, suc, ◌+◌, ◌-◌, ◌<◌, ◌≤◌, ◌≡◌, refl, true, false, List, [], ◌∷◌, inl, inr, arith,
  min, length, All, Bool-cases, if◌then◌else◌, leb,
}
use meta_co_sign.Bytes.Word.{int_suc, int_leb, int_leb-small}
use meta_co_sign.CircuitBreaker.{
  state_closed, state_open, state_half_open, CircuitBreaker, since, admit, can_execute, trip,
  record_failure, failure, apply, run, admitted,
}

module _ (cb : CircuitBreaker) (shut : cb.state ≡ state_closed)
    (below : cb.failures < cb.config.max_failures)
    (fit : cb.config.max_failures < 9223372036854775808) where
  trips :
      int_leb cb.config.max_failures (int_suc cb.failures)
      ≡ leb cb.config.max_failures (suc cb.failures)
  trips =
      let s : int_suc cb.failures ≡ suc cb.failures = omega arith in
      rw s (int_leb-small cb.config.max_failures (suc cb.failures) fit (omega arith))

  record_failure-opens :
      (now : ℕ)
      → leb cb.config.max_failures (suc cb.failures) ≡ true
      → (record_failure now cb).state ≡ state_open
  unfolding record_failure trip
  record_failure-opens now h = rw (shut, trips, h) refl

  record_failure-stays :
      (now : ℕ)
      → leb cb.config.max_failures (suc cb.failures) ≡ false
      → ((record_failure now cb).state ≡ state_closed)
        × ((record_failure now cb).failures ≡ suc cb.failures)
        × ((record_failure now cb).config ≡ cb.config)
  unfolding record_failure trip
  record_failure-stays now h =
      (rw (shut, trips, h) refl, rw (shut, trips, h) (omega arith), rw (shut, trips, h) refl)

open-record_failure :
    (times : List ℕ) (cb : CircuitBreaker)
    → cb.state ≡ state_open
    → (run (map failure times) cb).state ≡ state_open
unfolding run apply record_failure trip
open-record_failure [] cb e = e
open-record_failure (now ∷ times) cb e =
    open-record_failure times (record_failure now cb) (rw e refl)

-- A closed breaker that has counted fewer failures than a limit below 2 ^ 63 is open after further
-- failures in a row exactly if the two counts together reach the limit; else it is still closed.
pub run-failure-state :
    (times : List ℕ) (cb : CircuitBreaker)
    → cb.state ≡ state_closed
    → cb.failures < cb.config.max_failures
    → cb.config.max_failures < 9223372036854775808
    → (run (map failure times) cb).state ≡ (
        if leb cb.config.max_failures (cb.failures + length times)
        then state_open
        else state_closed)
unfolding run apply
run-failure-state [] cb e below fit =
    let h : leb cb.config.max_failures (cb.failures + 0) ≡ false = ground arith in rw (h, e) refl
run-failure-state (now ∷ times) cb e below fit =
    elim (Bool-cases (leb cb.config.max_failures (suc cb.failures))) [
      | inl reached ↦
          let h : leb cb.config.max_failures (cb.failures + suc (length times)) ≡ true =
            ground arith in
          rw
            (
              h,
              open-record_failure times (record_failure now cb)
                  (record_failure-opens cb e below fit now reached),
            )
            refl
      | inr not_reached ↦
          let (shut, count, same) = record_failure-stays cb e below fit now not_reached in
          let less : suc cb.failures < cb.config.max_failures = ground arith in
          let rest =
            run-failure-state times (record_failure now cb) shut (rw (count, same) less)
              (rw same fit) in
          rest
          ∙ rw (same, count)
              (ap (λ n. if leb cb.config.max_failures n then state_open else state_closed)
                (omega arith))
    ]

-- While no more than the timeout has passed since the last failure, an open breaker admits none of
-- the requests asked for.
pub open-admitted :
    (times : List ℕ) (cb : CircuitBreaker)
    → cb.state ≡ state_open
    → All (λ now. now - cb.last_failure_time ≤ cb.config.timeout) times
    → cb.config.timeout < 9223372036854775808
    → admitted times cb ≡ 0
unfolding admitted can_execute admit
open-admitted [] cb e early fit = refl
open-admitted (now ∷ times) cb e early fit =
    let h : int_leb (since now cb.last_failure_time) cb.config.timeout ≡ true =
      int_leb-small (since now cb.last_failure_time) cb.config.timeout (omega arith) fit
      ∙ ground (arith, early.0) in
    rw (e, h)
      (open-admitted times
        (record cb {
          state = state_open;
          total_requests = int_suc cb.total_requests;
          total_rejected = int_suc cb.total_rejected;
        })
        refl early.1 fit)

half_open-admitted :
    (times : List ℕ) (cb : CircuitBreaker)
    → cb.state ≡ state_half_open
    → cb.requests ≤ cb.config.max_requests
    → cb.config.max_requests < 9223372036854775808
    → admitted times cb ≡ min (length times) (cb.config.max_requests - cb.requests)
unfolding admitted can_execute admit
half_open-admitted [] cb e within fit = omega arith
half_open-admitted (now ∷ times) cb e within fit =
    let h : int_leb cb.config.max_requests cb.requests ≡ leb cb.config.max_requests cb.requests =
      int_leb-small cb.config.max_requests cb.requests fit (omega arith) in
    elim (Bool-cases (leb cb.config.max_requests cb.requests)) [
      | inl full ↦
          let same : cb.requests ≡ cb.config.max_requests = ground arith in
          rw (e, h, full)
            (half_open-admitted times
                (record cb {
                  state = state_half_open;
                  total_requests = int_suc cb.total_requests;
                  total_rejected = int_suc cb.total_rejected;
                })
                refl within fit
              ∙ omega arith)
      | inr free ↦
          let less : cb.requests < cb.config.max_requests = ground arith in
          let next : int_suc cb.requests ≡ suc cb.requests = omega arith in
          rw
            (
              e,
              h,
              free,
              next,
              half_open-admitted times
                  (record cb {
                    state = state_half_open;
                    total_requests = int_suc cb.total_requests;
                    requests = suc cb.requests;
                  })
                  refl less fit,
            )
            (omega arith)
    ]

-- Once more than the timeout has passed since the last failure, and with no result recorded, an
-- open breaker admits the request that makes it half-open, and then as many more as the limit
-- permits, and no others: one more than the limit in all.
pub late-admitted :
    (now : ℕ) (times : List ℕ) (cb : CircuitBreaker)
    → cb.state ≡ state_open
    → cb.config.timeout < now - cb.last_failure_time
    → cb.config.timeout < 9223372036854775807
    → cb.config.max_requests < 9223372036854775808
    → admitted (now ∷ times) cb ≡ suc (min (length times) cb.config.max_requests)
unfolding admitted can_execute admit
late-admitted now times cb e late fit fit' =
    let h : int_leb (since now cb.last_failure_time) cb.config.timeout ≡ false =
      int_leb-small (since now cb.last_failure_time) cb.config.timeout (omega arith) (omega arith)
      ∙ ground arith in
    rw
      (
        e,
        h,
        half_open-admitted times
            (record cb {
              total_requests = int_suc cb.total_requests;
              state = state_half_open;
              requests = 0;
            })
            refl (omega arith) fit',
      )
      (omega arith)
