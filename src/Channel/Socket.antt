-- ===== src/Channel/Socket.antt =====
-- src/pidprobe/_channel.py: `UnixSocketChannel.receive` and `_accept`. The clock and the socket are given
-- by the number of the reading or of the call; `recv` may never see the end of the stream.
use pidprobe.Base.{
  ℕ, zero, suc, ◌+◌, ◌*◌, String, Option, none, some, List, [], ◌∷◌, ◌++◌, if◌then◌else◌,
}
use pidprobe.Base.Int.{ℤ, pos, negsuc}
use pidprobe.Errors.{
  Seconds, Exception, python, value_error, Result, ok, raised, channel_error, ◌>>=◌,
}
use pidprobe.Deadline.{Deadline, remaining, is_expired, timed_out}

-- `accept` with a timeout set.
pub data Accepted : Type 0 where
  connected : Accepted
  accept_timeout : Accepted
  accept_error : Exception → Accepted

-- `recv` with a timeout set: bytes, no bytes at the end of the stream, or an exception.
pub data Received : Type 0 where
  received : (first : ℕ) (rest : List ℕ) → Received
  closed : Received
  recv_timeout : Received
  recv_error : Exception → Received

-- `settimeout(t)`: a negative timeout is refused, 0 makes the socket non-blocking.
pub data Timeout : Type 0 where
  negative : Timeout
  non_blocking : Timeout
  blocking : Seconds → Timeout

abbrev pub timeout_of : ℤ → Timeout
timeout_of (negsuc n) = negative
timeout_of (pos zero) = non_blocking
timeout_of (pos (suc n)) = blocking (suc n)

abbrev pub out_of_range : Exception
out_of_range = python value_error "ValueError" "Timeout value out of range"

pub record Connection : Type 0 where
  pub clock : ℕ → Seconds
  pub accept : Timeout → Accepted
  pub recv : ℕ → Timeout → Received
  -- `bytes.decode("utf-8")`: none is a UnicodeDecodeError
  pub decode : List ℕ → Result String

module _ (show_g : Seconds → String) (c : Connection) (deadline : Deadline) where
  accepted : Accepted → Result (Unit {0})
  accepted connected = ok tt
  accepted accept_timeout = raised (timed_out show_g deadline)
  accepted (accept_error e) = raised e

  -- `settimeout` and the call that follows it.
  with_timeout : {A : Type 0} → Timeout → (Timeout → Result A) → Result A
  with_timeout negative call = raised out_of_range
  with_timeout non_blocking call = call non_blocking
  with_timeout (blocking t) call = call (blocking t)

  -- `_accept`, on the readings 0 and 1 of the clock.
  unfoldable pub accept : Result (Unit {0})
  unfolding accepted with_timeout
  accept =
      if is_expired deadline (c.clock 0)
      then raised (timed_out show_g deadline)
      else with_timeout (timeout_of (remaining deadline (c.clock 1))) (λ t. accepted (c.accept t))

  -- One call of `recv`: none at the end of the stream.
  chunk : Received → Result (Option (List ℕ))
  chunk (received first rest) = ok (some (first ∷ rest))
  chunk closed = ok none
  chunk recv_timeout = raised (timed_out show_g deadline)
  chunk (recv_error e) = raised e

  -- Round `k` of the loop, on two readings of the clock.
  unfoldable pub round : ℕ → Result (Option (List ℕ))
  unfolding chunk with_timeout
  round k =
      let now = c.clock (2 * k + 2) in
      let later = c.clock (2 * k + 3) in
      if is_expired deadline now
      then raised (timed_out show_g deadline)
      else with_timeout (timeout_of (remaining deadline later)) (λ t. chunk (c.recv k t))

  -- What a round leads to: the loop goes on with the bytes it has then.
  unfoldable pub proceed :
      Result (Option (List ℕ))
      → List ℕ
      → (List ℕ → Option (Result (List ℕ)))
      → Option (Result (List ℕ))
  proceed (raised e) bytes next = some (raised e)
  proceed (ok none) bytes next = some (ok bytes)
  proceed (ok (some more)) bytes next = next (bytes ++ more)

  -- The loop: the bytes of the chunks, or none if the fuel does not reach the end.
  unfoldable pub read_all : (fuel k : ℕ) → List ℕ → Option (Result (List ℕ))
  unfolding proceed
  read_all zero k bytes = none
  read_all (suc fuel) k bytes = proceed (round k) bytes (λ all. read_all fuel (suc k) all)

  -- After the loop.
  unfoldable pub decoded : List ℕ → Result String
  decoded [] = channel_error "target connected to the return channel but sent nothing"
  decoded (byte ∷ bytes) = c.decode (byte ∷ bytes)

  unfoldable pub finish : Option (Result (List ℕ)) → Option (Result String)
  unfolding decoded
  finish none = none
  finish (some bytes) = some (bytes >>= decoded)

  unfoldable pub after_accept :
      Result (Unit {0}) → Option (Result (List ℕ)) → Option (Result String)
  unfolding finish
  after_accept (raised e) all = some (raised e)
  after_accept (ok connection) all = finish all

  unfoldable pub receive : ℕ → Option (Result String)
  unfolding after_accept
  receive fuel = after_accept accept (read_all fuel 0 [])
