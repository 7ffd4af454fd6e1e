-- ===== src/Pools.antt =====
-- src/pidprobe/plugins/sqlalchemy_pool.py: what the snippet does in the target. SQLAlchemy is not imported:
-- its pools are the target's objects, and what their accessors answer is an argument.
pub mod Laws
use pidprobe.Base.{
  ◌≡◌, refl, sym, ap, ◌∙◌, ℕ, ◌≤◌, min, String, Bool, true, false, not, Option, none, some, List,
  [], ◌∷◌, take, length, leb, ltb, ◌=ₛ◌, if◌then◌else◌, arith,
}
use pidprobe.Base.Int.{ℤ, pos, ltb_ℤ, eqb_ℤ}
use pidprobe.Base.Sort.{sort, length-sort}
use pidprobe.Registry.Names.{at_most}
use pidprobe.SafeRepr.Process.{Exc, Attempt, done, raised, ◌>>=◌, for_each}
use pidprobe.SafeRepr.Render.{try_then}

abbrev pub max_pools : ℕ
max_pools = 50

-- What an accessor answers: an integer that is no Boolean, or another value.
pub data Metric : Type 0 where
  whole : ℤ → Metric
  other : Metric

-- What `getattr(pool, accessor, None)` comes to: no accessor, or one with what its call comes to.
abbrev pub Accessor : Type 0
Accessor = Attempt (Option (Attempt Metric))

-- A pool: `kind.__module__ + "." + kind.__qualname__`, and its accessors.
pub record Pool : Type 0 where
  pub type_name : Attempt String
  pub size : Accessor
  pub checked_out : Accessor
  pub checked_in : Accessor
  pub overflow : Accessor

pub record Entry : Type 0 where
  pub type_name : String
  pub size : Option ℤ
  pub checked_out : Option ℤ
  pub checked_in : Option ℤ
  pub overflow : Option ℤ

pub record Pools : Type 0 where
  pub available : Bool
  pub max_pools : ℕ
  pub pool_count : ℕ
  pub pools : List Entry

number : Metric → Option ℤ
number (whole n) = some n
number other = none

called : Option (Attempt Metric) → Attempt (Option ℤ)
unfolding number try_then
called none = done none
called (some answer) = try_then answer (λ e. done none) (λ value. done (number value))

-- Only the call is in the `try` statement.
unfoldable pub measure : Accessor → Attempt (Option ℤ)
unfolding called
measure accessor = do method ← accessor; called method

unfoldable pub describe : Pool → Attempt Entry
unfolding measure
describe pool = do
  type_name ← pool.type_name
  size ← measure pool.size
  checked_out ← measure pool.checked_out
  checked_in ← measure pool.checked_in
  overflow ← measure pool.overflow
  done (record {
    type_name = type_name;
    size = size;
    checked_out = checked_out;
    checked_in = checked_in;
    overflow = overflow;
  })

or_zero : Option ℤ → ℤ
or_zero none = pos 0
or_zero (some n) = n

-- `x <= y` in the order of the keys: `none` after a size, and the numbers with 0 for `none`.
goes_before : Entry → Entry → Bool
unfolding or_zero
goes_before x y =
    if not (x.type_name =ₛ y.type_name) then at_most x.type_name y.type_name else elim x.size [
      | none ↦ elim y.size [
        | none ↦ not (ltb_ℤ (or_zero y.checked_out) (or_zero x.checked_out))
        | some m ↦ false
      ]
      | some n ↦ elim y.size [
        | none ↦ true
        | some m ↦
            if eqb_ℤ n m
            then not (ltb_ℤ (or_zero y.checked_out) (or_zero x.checked_out))
            else ltb_ℤ n m
      ]
    ]

-- The whole snippet, for the pools among the tracked objects, `none` where SQLAlchemy is not loaded.
unfoldable pub collect_pools : Option (List Pool) → Attempt Pools
unfolding describe goes_before
collect_pools none =
    done (record { available = false; max_pools = max_pools; pool_count = 0; pools = [] })
collect_pools (some pools) = for_each describe pools >>= (λ entries. done (record {
  available = true;
  max_pools = max_pools;
  pool_count = length entries;
  pools = take max_pools (sort goes_before entries);
}))
