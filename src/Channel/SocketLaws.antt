-- ===== src/Channel/SocketLaws.antt =====
-- src/pidprobe/_channel.py: when the socket's loop ends, what it returns, and what a late clock does.
use mathlib.Core.Path.{subst}
use pidprobe.Base.{
  ℕ, zero, suc, ◌+◌, ◌*◌, ◌≤◌, ◌<◌, ◌≡◌, refl, sym, ap, ◌∙◌, String, Option, none, some, List, [],
  ◌++◌, arith,
}
use mathlib.Core.List.{append-nil, append_assoc}
use pidprobe.Errors.{Seconds, Result, ok, raised}
use pidprobe.Deadline.{Deadline, timed_out}
use pidprobe.Channel.Socket.{
  Connection, accept, round, proceed, read_all, decoded, finish, after_accept, receive,
  out_of_range,
}

-- The chunks of the rounds from `k` on, joined.
abbrev pub joined : (ℕ → List ℕ) → (k n : ℕ) → List ℕ
joined chunk k zero = []
joined chunk k (suc n) = chunk k ++ joined chunk (suc k) n

-- The fuel was enough.
pub data Finishes {A : Type 0} : Option A → Type 0 where
  finished : (a : A) → Finishes (some a)

module _ (show_g : Seconds → String) (c : Connection) (deadline : Deadline) where
  round-expired :
      (k : ℕ)
      → deadline.expires_at ≤ c.clock (2 * k + 2)
      → round show_g c deadline k ≡ raised (timed_out show_g deadline)
  unfolding round
  round-expired k h = ground arith

  proceed-Finishes :
      (r : Result (Option (List ℕ))) (bytes : List ℕ) (next : List ℕ → Option (Result (List ℕ)))
      → ((all : List ℕ) → Finishes (next all))
      → Finishes (proceed show_g c deadline r bytes next)
  unfolding proceed
  proceed-Finishes (raised e) bytes next h = finished (raised e)
  proceed-Finishes (ok none) bytes next h = finished (ok bytes)
  proceed-Finishes (ok (some more)) bytes next h = h (bytes ++ more)

  read_all-Finishes :
      (n k : ℕ) (bytes : List ℕ)
      → deadline.expires_at ≤ c.clock (2 * (k + n) + 2)
      → Finishes (read_all show_g c deadline (suc n) k bytes)
  unfolding read_all proceed
  read_all-Finishes zero k bytes h =
      let here : k + 0 ≡ k = omega arith in
      let late : deadline.expires_at ≤ c.clock (2 * k + 2) =
        subst (λ i. deadline.expires_at ≤ c.clock (2 * i + 2)) here h in
      rw (round-expired k late) (finished _)
  read_all-Finishes (suc n) k bytes h =
      let next : k + suc n ≡ suc k + n = omega arith in
      let late : deadline.expires_at ≤ c.clock (2 * (suc k + n) + 2) =
        subst (λ i. deadline.expires_at ≤ c.clock (2 * i + 2)) next h in
      proceed-Finishes (round show_g c deadline k) bytes _
        (λ all. read_all-Finishes n (suc k) all late)

  finish-Finishes :
      (r : Option (Result (List ℕ))) → Finishes r → Finishes (finish show_g c deadline r)
  unfolding finish
  finish-Finishes _ (finished r) = finished _

  after_accept-Finishes :
      (r : Result (Unit {0})) (all : Option (Result (List ℕ)))
      → Finishes all
      → Finishes (after_accept show_g c deadline r all)
  unfolding after_accept
  after_accept-Finishes (raised e) all h = finished _
  after_accept-Finishes (ok connection) all h = finish-Finishes all h

  -- If the clock has reached the deadline by round `n` of the loop, then the probe has an answer or an
  -- exception after at most `n + 1` rounds, whatever the target sends.
  pub receive-Finishes :
      (n : ℕ)
      → deadline.expires_at ≤ c.clock (2 * n + 2)
      → Finishes (receive show_g c deadline (suc n))
  unfolding receive
  receive-Finishes n h =
      let zero_first : n ≡ 0 + n = omega arith in
      after_accept-Finishes (accept show_g c deadline) _ (
        read_all-Finishes n 0 []
          (subst (λ i. deadline.expires_at ≤ c.clock (2 * i + 2)) zero_first h))

  read_all-joined :
      (n k : ℕ) (bytes : List ℕ) (chunk : ℕ → List ℕ)
      → ((i : ℕ) → i < n → round show_g c deadline (k + i) ≡ ok (some (chunk (k + i))))
      → round show_g c deadline (k + n) ≡ ok none
      → read_all show_g c deadline (suc n) k bytes ≡ some (ok (bytes ++ joined chunk k n))
  unfolding read_all proceed
  read_all-joined zero k bytes chunk h e =
      let here : k + 0 ≡ k = omega arith in
      let end = ap (round show_g c deadline) (sym here) ∙ e in rw (end, append-nil bytes) refl
  read_all-joined (suc n) k bytes chunk h e =
      let here : k + 0 ≡ k = omega arith in
      let first =
        subst (λ i. round show_g c deadline i ≡ ok (some (chunk i))) here (h 0 (omega arith)) in
      let later : (i : ℕ)
          → i < n
          → round show_g c deadline (suc k + i) ≡ ok (some (chunk (suc k + i))) =
        λ i l.
          let same : k + suc i ≡ suc k + i = omega arith in
          subst (λ j. round show_g c deadline j ≡ ok (some (chunk j))) same
            (h (suc i) (omega arith)) in
      let last : k + suc n ≡ suc k + n = omega arith in
      let rest =
        read_all-joined n (suc k) (bytes ++ chunk k) chunk later
          (subst (λ j. round show_g c deadline j ≡ ok none) last e) in
      rw first
        (rest ∙ ap (λ all. some (ok all)) (append_assoc bytes (chunk k) (joined chunk (suc k) n)))

  -- If the target connects, sends its chunks in the rounds before `n` and closes in round `n`, then the
  -- answer is the decoded text of all the chunks in order; without a chunk it is a channel error.
  pub receive-joined :
      (n : ℕ) (chunk : ℕ → List ℕ)
      → accept show_g c deadline ≡ ok tt
      → ((i : ℕ) → i < n → round show_g c deadline i ≡ ok (some (chunk i)))
      → round show_g c deadline n ≡ ok none
      → receive show_g c deadline (suc n) ≡ some (decoded show_g c deadline (joined chunk 0 n))
  unfolding receive after_accept finish
  receive-joined n chunk a h e =
      let from_zero : (i : ℕ) → i ≡ 0 + i = λ i. omega arith in
      let rounds : (i : ℕ) → i < n → round show_g c deadline (0 + i) ≡ ok (some (chunk (0 + i))) =
        λ i l. subst (λ j. round show_g c deadline j ≡ ok (some (chunk j))) (from_zero i) (h i l) in
      let all =
        read_all-joined n 0 [] chunk rounds
          (subst (λ j. round show_g c deadline j ≡ ok none) (from_zero n) e) in
      rw (a, all) refl

  -- If the budget runs out between the test of the deadline and the reading that sets the timeout, the
  -- caller gets a ValueError and not a timeout of the probe.
  pub receive_late :
      (fuel : ℕ)
      → c.clock 0 < deadline.expires_at
      → deadline.expires_at < c.clock 1
      → receive show_g c deadline fuel ≡ some (raised out_of_range)
  unfolding receive accept after_accept
  receive_late fuel h k = ground arith
