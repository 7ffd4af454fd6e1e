-- ===== src/Demo/Deadlock.antt =====
-- demo/app.py: once the deadlock is armed, the next request ends in it.
use mathlib.Core.Path.{subst}
use pidprobe.Base.{◌≡◌, refl, ◌⊎◌, inl, inr, ℕ, suc, ◌+◌, true, false, Option, none, some, arith}
use pidprobe.Base.Steps.{Run, stay, go, Run-keeps}
use pidprobe.Demo.{
  absent, ledger_taken, armed, wanting, idle, queried, inventory_taken, signalled, World,
  ledger_writer, read_report, arm_deadlock,
}

-- One of the two threads makes a step.
abbrev pub Step : World → World → Type 0
Step v w = (ledger_writer v ≡ some w) ⊎ (read_report v ≡ some w)

-- The world when `arm_deadlock` has returned `armed: True` and no request is under way.
abbrev pub armed_world : World
armed_world = record {
  writer = armed;
  reader = idle;
  ledger_free = false;
  inventory_free = true;
  ledger_armed = true;
  inventory_is_taken = false;
}

-- Each thread holds the lock that the other wants.
abbrev pub deadlock : World
deadlock = record {
  writer = wanting;
  reader = signalled;
  ledger_free = false;
  inventory_free = false;
  ledger_armed = true;
  inventory_is_taken = true;
}

-- The worlds on the way, by the steps that are left.
data Reached : ℕ → World → Type 0 where
  four_left : Reached 4 armed_world
  three_left : Reached 3 (record {
    writer = armed;
    reader = queried;
    ledger_free = false;
    inventory_free = true;
    ledger_armed = true;
    inventory_is_taken = false;
  })
  two_left : Reached 2 (record {
    writer = armed;
    reader = inventory_taken;
    ledger_free = false;
    inventory_free = false;
    ledger_armed = true;
    inventory_is_taken = false;
  })
  one_left : Reached 1 (record {
    writer = armed;
    reader = signalled;
    ledger_free = false;
    inventory_free = false;
    ledger_armed = true;
    inventory_is_taken = true;
  })
  none_left : Reached 0 deadlock

some-inj : {v w : World} → some v ≡ some w → v ≡ w
some-inj h = ground (arith, h)

none-some : {w : World} → ◌≡◌ {A = Option World} none (some w) → ⊥
none-some h = ground (arith, h)

Reached-step :
    {n : ℕ} {v : World} (w : World) → Reached n v → Step v w → (m : ℕ) × (n ≡ suc m) × Reached m w
unfolding ledger_writer read_report
Reached-step w four_left (inl h) = absurd (none-some h)
Reached-step w four_left (inr h) = (3, refl, subst (Reached 3) (some-inj h) three_left)
Reached-step w three_left (inl h) = absurd (none-some h)
Reached-step w three_left (inr h) = (2, refl, subst (Reached 2) (some-inj h) two_left)
Reached-step w two_left (inl h) = absurd (none-some h)
Reached-step w two_left (inr h) = (1, refl, subst (Reached 1) (some-inj h) one_left)
Reached-step w one_left (inl h) = (0, refl, subst (Reached 0) (some-inj h) none_left)
Reached-step w one_left (inr h) = absurd (none-some h)
Reached-step w none_left (inl h) = absurd (none-some h)
Reached-step w none_left (inr h) = absurd (none-some h)

Reached-run :
    {n k : ℕ} {v w : World} → Reached k v → Run Step n v w → (m : ℕ) × (n + m ≡ k) × Reached m w
Reached-run {k = k} reached (stay a) = (k, omega arith, reached)
Reached-run reached (go {b = b} s r) =
    let (m, e, next) = Reached-step b reached s in
    let (rest, f, last) = Reached-run next r in (rest, omega (arith, e, f), last)

Reached-deadlock : {n : ℕ} {w : World} → Reached n w → Run Step n w deadlock
unfolding ledger_writer read_report
Reached-deadlock none_left = stay deadlock
Reached-deadlock one_left = go (inl refl) (stay deadlock)
Reached-deadlock two_left = go (inr refl) (go (inl refl) (stay deadlock))
Reached-deadlock three_left = go (inr refl) (go (inr refl) (go (inl refl) (stay deadlock)))
Reached-deadlock four_left =
    go (inr refl) (go (inr refl) (go (inr refl) (go (inl refl) (stay deadlock))))

-- The world before the deadlock is armed: no thread holds a lock.
abbrev pub quiet_world : World
quiet_world = record {
  writer = absent;
  reader = idle;
  ledger_free = true;
  inventory_free = true;
  ledger_armed = false;
  inventory_is_taken = false;
}

abbrev pub WriterStep : World → World → Type 0
WriterStep v w = ledger_writer v ≡ some w

data Arming : World → Type 0 where
  is_started : Arming (arm_deadlock quiet_world)
  has_ledger : Arming (record {
    writer = ledger_taken;
    reader = idle;
    ledger_free = false;
    inventory_free = true;
    ledger_armed = false;
    inventory_is_taken = false;
  })
  is_armed : Arming armed_world

Arming-step : (v w : World) → WriterStep v w → Arming v → Arming w
unfolding ledger_writer arm_deadlock
Arming-step v w h is_started = subst Arming (some-inj h) has_ledger
Arming-step v w h has_ledger = subst Arming (some-inj h) is_armed
Arming-step v w h is_armed = absurd (none-some h)

Arming-armed : {w : World} → Arming w → w.ledger_armed ≡ true → w ≡ armed_world
unfolding arm_deadlock
Arming-armed is_started h = ground (arith, h)
Arming-armed has_ledger h = ground (arith, h)
Arming-armed is_armed h = refl

-- If the event says that the ledger is armed before a request comes, then from wherever the threads
-- have got to, they come to the deadlock, after four steps in all.
pub Run-deadlock :
    (m n : ℕ) (v w : World)
    → Run WriterStep m (arm_deadlock quiet_world) v
    → v.ledger_armed ≡ true
    → Run Step n v w
    → (k : ℕ) × Run Step k w deadlock × (n + k ≡ 4)
Run-deadlock m n v w arming set_ r =
    let same = Arming-armed (Run-keeps WriterStep Arming Arming-step arming is_started) set_ in
    let from : Run Step n armed_world w = subst (λ a. Run Step n a w) same r in
    let (k, total, reached) = Reached-run four_left from in (k, Reached-deadlock reached, total)

-- No thread leaves the deadlock.
pub deadlock-stuck : (w : World) → Step deadlock w → ⊥
unfolding ledger_writer read_report
deadlock-stuck w (inl h) = none-some h
deadlock-stuck w (inr h) = none-some h
