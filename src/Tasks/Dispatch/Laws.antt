-- ===== src/Tasks/Dispatch/Laws.antt =====
-- tasks.py: a dispatch makes at most four posts, and ends as the first decided one says.
use china_a_share.Prelude.{
  ℕ, zero, suc, ◌-◌, ◌*◌, ◌^◌, ◌<◌, ◌≡◌, ◌≢◌, refl, Result, ok, raised, runtime_error,
  external_error, arith,
}
use china_a_share.Tasks.Dispatch.{
  Post, Verdict, started, refused, again, crashed, verdict, Dispatched, at_verdict, attempts,
  dispatch,
}

abbrev pub result_of : Verdict → Result (Unit {0})
result_of started = ok tt
result_of refused = raised runtime_error
result_of crashed = raised external_error
result_of again = raised runtime_error

at_decided :
    (v : Verdict) (t : ℕ) (rest : Dispatched)
    → v ≢ again
    → at_verdict v t rest ≡ record { posts = 1; slept = 0; result = result_of v }
at_decided started t rest h = refl
at_decided refused t rest h = refl
at_decided crashed t rest h = refl
at_decided again t rest h = absurd (h refl)

-- If the posts before number n, below four, are to be repeated and post n is not, then a dispatch
-- makes n + 1 posts, sleeps 500 * (2 ^ n - 1) milliseconds and ends as post n says.
pub dispatch_decided :
    (meets : ℕ → Post) (n : ℕ)
    → n < 4
    → ((m : ℕ) → m < n → verdict (meets m) ≡ again)
    → verdict (meets n) ≢ again
    → dispatch meets
      ≡ record { posts = suc n; slept = 500 * (2 ^ n - 1); result = result_of (verdict (meets n)) }
unfolding dispatch attempts
dispatch_decided meets zero lt before h = rw (at_decided (verdict (meets 0)) _ _ h) refl
dispatch_decided meets (suc zero) lt before h =
    rw (before 0 (omega arith), at_decided (verdict (meets 1)) _ _ h) refl
dispatch_decided meets (suc (suc zero)) lt before h =
    rw (before 0 (omega arith), before 1 (omega arith), at_decided (verdict (meets 2)) _ _ h) refl
dispatch_decided meets (suc (suc (suc zero))) lt before h =
    rw
      (
        before 0 (omega arith),
        before 1 (omega arith),
        before 2 (omega arith),
        at_decided (verdict (meets 3)) _ _ h,
      )
      refl
dispatch_decided meets (suc (suc (suc (suc n)))) lt before h = absurd (omega arith)

-- If the first four posts are all to be repeated, a dispatch makes four posts, sleeps 7.5 seconds
-- and raises a RuntimeError.
pub dispatch_exhausted :
    (meets : ℕ → Post)
    → ((m : ℕ) → m < 4 → verdict (meets m) ≡ again)
    → dispatch meets ≡ record { posts = 4; slept = 7500; result = raised runtime_error }
unfolding dispatch attempts
dispatch_exhausted meets h =
    rw (h 0 (omega arith), h 1 (omega arith), h 2 (omega arith), h 3 (omega arith)) refl
