-- ===== src/Channel/TempFileLaws.antt =====
-- src/pidprobe/_channel.py: the polling loop ends, and what it returns was in the file.
use pidprobe.Base.{
  ℕ, zero, suc, ◌+◌, ◌*◌, ◌≤◌, ◌<◌, ◌≡◌, ◌≢◌, refl, ◌⊎◌, ◌∙◌, ap, inl, inr, String, Option, none,
  some, ◌=ₛ◌, eq_iff, if◌then◌else◌, Bool-cases, arith,
}
use pidprobe.Errors.{Seconds, Exception, Result, ok, raised}
use pidprobe.Deadline.{Deadline, is_expired, timed_out}
use pidprobe.Channel.TempFile.{
  Reading, missing, content, unreadable, Step, poll_interval, text_of, decide, woken, poll, receive,
}

-- What the prober goes through: round `k` reads the file at this time.
abbrev pub round_start :
    (Seconds → String) → (Seconds → Reading) → (ℕ → Step) → Deadline → Seconds → ℕ → Seconds
round_start show_g file steps deadline from zero = from
round_start show_g file steps deadline from (suc k) =
    let step = steps k in
    woken show_g file steps deadline
      (round_start show_g file steps deadline from k + step.reading + step.testing) step

-- How polling can end, by the times at which the rounds read the file: with the text that some round
-- found, with the exception of a round's reading, or with the timeout, after a round that found no text
-- and whose reading was over when the deadline had passed.
pub data Outcome (show_g : Seconds → String) (file : Seconds → Reading) (steps : ℕ → Step)
    (deadline : Deadline) (start : ℕ → Seconds) : Result String → Type 0 where
  found :
      (text : String) (k : ℕ)
      → file (start k) ≡ content text
      → text ≢ ""
      → Outcome show_g file steps deadline start (ok text)
  refused :
      (e : Exception) (k : ℕ)
      → file (start k) ≡ unreadable e
      → Outcome show_g file steps deadline start (raised e)
  expired :
      (k : ℕ)
      → (file (start k) ≡ missing) ⊎ (file (start k) ≡ content "")
      → deadline.expires_at ≤ start k + (steps k).reading
      → Outcome show_g file steps deadline start (raised (timed_out show_g deadline))

pub data Ends (show_g : Seconds → String) (file : Seconds → Reading) (steps : ℕ → Step)
    (deadline : Deadline) (start : ℕ → Seconds) : Option (Result String) → Type 0 where
  ends :
      (r : Result String)
      → Outcome show_g file steps deadline start r
      → Ends show_g file steps deadline start (some r)

module _ (show_g : Seconds → String) (file : Seconds → Reading) (steps : ℕ → Step)
    (deadline : Deadline) (from : Seconds) where
  start_of : ℕ → Seconds
  start_of k = round_start show_g file steps deadline from k

  Finishes : Option (Result String) → Type 0
  Finishes r = Ends show_g file steps deadline (round_start show_g file steps deadline from) r

  -- A round that goes on is followed by one that starts a poll interval later, or at the deadline.
  start-later :
      (n k : ℕ)
      → deadline.expires_at ≤ start_of k + suc n * poll_interval
      → deadline.expires_at ≤ start_of (suc k) + n * poll_interval
  unfolding woken start_of
  start-later n k h = omega arith

  waiting-Ends :
      (k : ℕ) (rest : Option (Result String))
      → (file (start_of k) ≡ missing) ⊎ (file (start_of k) ≡ content "")
      → (start_of k + (steps k).reading < deadline.expires_at → Finishes rest)
      → Finishes (
          if is_expired deadline (start_of k + (steps k).reading)
          then some (raised (timed_out show_g deadline))
          else rest)
  unfolding start_of Finishes
  waiting-Ends k rest f h =
      elim (Bool-cases (is_expired deadline (start_of k + (steps k).reading))) [
        | inl e ↦ rw e (ends _ (expired k f (ground arith)))
        | inr e ↦ rw e (h (ground arith))
      ]

  decide-Ends :
      (k : ℕ) (reading : Reading) (rest : Option (Result String))
      → file (start_of k) ≡ reading
      → (start_of k + (steps k).reading < deadline.expires_at → Finishes rest)
      → Finishes (
          decide show_g file steps deadline
            (start_of k + (steps k).reading)
            (text_of show_g file steps deadline reading)
            rest)
  unfolding decide text_of start_of Finishes
  decide-Ends k missing rest f h = waiting-Ends k rest (inl f) h
  decide-Ends k (content text) rest f h = elim (Bool-cases (text =ₛ "")) [
    | inl e ↦ rw e (waiting-Ends k rest (inr (f ∙ ap content ((eq_iff text "").0 e))) h)
    | inr e ↦ rw e (ends _ (found text k f (λ p. ground (arith, eq_iff text "", p, e))))
  ]
  decide-Ends k (unreadable e) rest f h = ends _ (refused e k f)

  poll-Ends :
      (n k : ℕ)
      → deadline.expires_at ≤ start_of k + n * poll_interval
      → Finishes (poll show_g file steps deadline (suc n) k (start_of k))
  unfolding poll start_of Finishes
  poll-Ends zero k h = decide-Ends k (file (start_of k)) none refl (λ l. absurd (omega arith))
  poll-Ends (suc n) k h =
      decide-Ends k (file (start_of k)) _ refl (λ l. poll-Ends n (suc k) (start-later n k h))

  -- With fuel for one round more than there are poll intervals left of the budget, polling returns, for
  -- every file and every schedule: it hands over a text that is not empty and that a round found in the
  -- file, passes on the exception of reading the file, or, when the deadline has passed after a round
  -- that found no text, raises the timeout.
  pub receive-Ends :
      (n : ℕ)
      → deadline.expires_at ≤ from + n * poll_interval
      → Ends show_g file steps deadline
          (round_start show_g file steps deadline from)
          (receive show_g file steps deadline (suc n) from)
  unfolding receive start_of Finishes
  receive-Ends n h = poll-Ends n 0 h
