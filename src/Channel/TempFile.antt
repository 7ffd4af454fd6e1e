-- ===== src/Channel/TempFile.antt =====
-- src/pidprobe/_channel.py: `TempFileChannel.receive`, which polls for the file. Time passes as the
-- schedule says, on top of what `sleep` is asked for.
use pidprobe.Base.{ℕ, zero, suc, ◌+◌, ◌-◌, min, String, Option, none, some, ◌=ₛ◌, if◌then◌else◌}
use pidprobe.Errors.{Seconds, Exception, Result, ok, raised}
use pidprobe.Deadline.{Deadline, is_expired, timed_out}

-- `read_text` at a time: no file, its text, or an exception.
pub data Reading : Type 0 where
  missing : Reading
  content : String → Reading
  unreadable : Exception → Reading

-- What the steps of one round take: the read, the test of the deadline, and the time slept too long.
pub record Step : Type 0 where
  pub reading : Seconds
  pub testing : Seconds
  pub oversleep : Seconds

abbrev pub poll_interval : Seconds
poll_interval = 5000000

module _ (show_g : Seconds → String) (file : Seconds → Reading) (steps : ℕ → Step)
    (deadline : Deadline) where
  -- `content` after the `try` statement
  unfoldable pub text_of : Reading → Result String
  text_of missing = ok ""
  text_of (content text) = ok text
  text_of (unreadable e) = raised e

  -- `sleep(min(_POLL_INTERVAL_SECONDS, max(deadline.remaining, 0.0)))` at a time, and when it is over.
  unfoldable pub woken : Seconds → Step → Seconds
  woken now step = now + min poll_interval (deadline.expires_at - now) + step.oversleep

  -- The tests of one round, on what it read; `rest` is the rounds after it.
  unfoldable pub decide : Seconds → Result String → Option (Result String) → Option (Result String)
  decide tested (raised e) rest = some (raised e)
  decide tested (ok text) rest =
      if text =ₛ ""
      then if is_expired deadline tested then some (raised (timed_out show_g deadline)) else rest
      else some (ok text)

  -- The loop from round `k` at the time `now`; none if the fuel does not reach its end.
  unfoldable pub poll : (fuel k : ℕ) → Seconds → Option (Result String)
  unfolding decide
  poll zero k now = none
  poll (suc fuel) k now =
      let step = steps k in
      let tested = now + step.reading in
      let rest = poll fuel (suc k) (woken (tested + step.testing) step) in
      decide tested (text_of (file now)) rest

  unfoldable pub receive : ℕ → Seconds → Option (Result String)
  unfolding poll
  receive fuel now = poll fuel 0 now
