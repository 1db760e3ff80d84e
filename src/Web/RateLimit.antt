-- ===== src/Web/RateLimit.antt =====
-- filters/RateLimitFilter.cc. Redis is outside the repository: the answer of `INCR` is an argument,
-- 1 where it is no integer.
use cppadmin.Base.{
  ℕ, zero, suc, ◌+◌, ◌≡◌, Bytes, bytes, ◌++◌, ◌∷◌, Bool, Option, none, some, ltb, min, nat_beq,
  arith, if◌then◌else◌, List, [], Bool-cases, inl, inr,
}

-- `pass`, or the answer with status 429 and the seconds after which to try again.
pub data Outcome : Type 0 where
  pass : Outcome
  too_many : ℕ → Outcome

-- The key of the counter.
unfoldable pub counter_key : Bytes → Bytes → Bytes
counter_key path ip = bytes "rl:" ++ (path ++ (b':' ∷ ip))

-- The first request of a window sets the time at which the counter goes away.
unfoldable pub sets_expiry : ℕ → Bool
sets_expiry count = nat_beq count 1

-- `none` is an error of Redis, or that there is none.
unfoldable pub do_rate_limit : ℕ → ℕ → Option ℕ → Outcome
do_rate_limit max_requests window_secs none = pass
do_rate_limit max_requests window_secs (some count) =
    if ltb max_requests count then too_many window_secs else pass

-- The outcomes of the requests of one window, of which `seen` came before.
unfoldable pub run_window : ℕ → ℕ → ℕ → ℕ → List Outcome
run_window max_requests window_secs seen zero = []
run_window max_requests window_secs seen (suc n) =
    do_rate_limit max_requests window_secs (some (suc seen))
    ∷ run_window max_requests window_secs (suc seen) n

unfoldable pub passed : List Outcome → ℕ
passed [] = 0
passed (pass ∷ os) = suc (passed os)
passed (too_many n ∷ os) = passed os

passed-run_window :
    (max_requests window_secs seen n : ℕ)
    → passed (run_window max_requests window_secs seen n) + min seen max_requests
      ≡ min (seen + n) max_requests
unfolding passed run_window do_rate_limit
passed-run_window m w seen zero = omega arith
passed-run_window m w seen (suc n) =
    let rest = passed-run_window m w (suc seen) n in
    elim (Bool-cases (ltb m (suc seen))) [
      | inl over ↦ ground (arith, over)
      | inr under ↦ ground (arith, under)
    ]

-- Of the requests of one window, as many pass as the limit says, and all if they are fewer.
pub rate_limit_window :
    (max_requests window_secs n : ℕ)
    → passed (run_window max_requests window_secs 0 n) ≡ min n max_requests
rate_limit_window m w n = omega (arith, passed-run_window m w 0 n)
