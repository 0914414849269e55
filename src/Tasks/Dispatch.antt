-- ===== src/Tasks/Dispatch.antt =====
-- tasks.py: `CloudRunJobDispatcher.dispatch`, the posts that start a job and the waits between them, in
-- milliseconds. What each post meets is an argument.
pub mod Laws
use china_a_share.Prelude.{
  ℕ, zero, suc, ◌+◌, ◌-◌, ◌*◌, ◌^◌, Bool, true, false, ◌||◌, ltb, nat_beq, List, [], ◌∷◌, Result,
  ok, raised, runtime_error, external_error, if◌then◌else◌,
}

-- What a post meets: a response's status, a failed connection or a timeout, or another exception.
pub data Post : Type 0 where
  status : ℕ → Post
  no_response : Post
  other_error : Post

abbrev pub dispatch_max_attempts : ℕ
dispatch_max_attempts = 4

abbrev pub retry_backoff : ℕ
retry_backoff = 500

-- `DISPATCH_RETRYABLE_STATUS_CODES`
unfoldable pub is_retryable : ℕ → Bool
is_retryable n =
    nat_beq n 408
    || nat_beq n 429
    || nat_beq n 500
    || nat_beq n 502
    || nat_beq n 503
    || nat_beq n 504

pub data Verdict : Type 0 where
  started refused again crashed : Verdict

unfoldable pub verdict : Post → Verdict
unfolding is_retryable
verdict (status n) = if ltb n 400 then started else if is_retryable n then again else refused
verdict no_response = again
verdict other_error = crashed

-- What a dispatch did: the posts that it made, the time that it slept and how it ended.
pub record Dispatched : Type 0 where
  pub posts : ℕ
  pub slept : ℕ
  pub result : Result (Unit {0})

abbrev pub after_wait : ℕ → Dispatched → Dispatched
after_wait t d = record { posts = suc d.posts; slept = t + d.slept; result = d.result }

abbrev pub at_verdict : Verdict → ℕ → Dispatched → Dispatched
at_verdict started t rest = record { posts = 1; slept = 0; result = ok tt }
at_verdict refused t rest = record { posts = 1; slept = 0; result = raised runtime_error }
at_verdict crashed t rest = record { posts = 1; slept = 0; result = raised external_error }
at_verdict again t rest = after_wait t rest

-- The attempts that are left, and the number of the next one.
unfoldable pub attempts : ℕ → ℕ → (ℕ → Post) → Dispatched
attempts zero attempt meets = record { posts = 0; slept = 0; result = raised runtime_error }
attempts (suc left) attempt meets =
    let rest = attempts left (suc attempt) meets in
    at_verdict (verdict (meets attempt)) (retry_backoff * 2 ^ attempt) rest

unfoldable pub dispatch : (ℕ → Post) → Dispatched
dispatch meets = attempts dispatch_max_attempts 0 meets
