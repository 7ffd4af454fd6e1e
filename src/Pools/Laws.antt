-- ===== src/Pools/Laws.antt =====
-- src/pidprobe/plugins/sqlalchemy_pool.py: one unreadable metric does not cost the section.
use pidprobe.Base.{String, ◌≡◌, min, none, some, List, length}
use pidprobe.SafeRepr.Process.{Attempt, done, raised}
use pidprobe.SafeRepr.Ends.{Catchable, Ends}
use pidprobe.Pools.{max_pools, Accessor, Pool, Pools}

-- An accessor can be looked up, and its call raises nothing but `Exception`s.
abbrev pub Contained : Accessor → Type 0
Contained (done none) = Unit
Contained (done (some answer)) = Catchable answer
Contained (raised e) = ⊥

abbrev pub IsNamed : Attempt String → Type 0
IsNamed (done name) = Unit
IsNamed (raised e) = ⊥

-- The class of a pool has a name and its accessors are contained.
abbrev pub IsContained : Pool → Type 0
IsContained pool =
    IsNamed pool.type_name
    × Contained pool.size
    × Contained pool.checked_out
    × Contained pool.checked_in
    × Contained pool.overflow

-- All pools are counted, and at most 50 are described.
abbrev pub IsSection : List Pool → Pools → Type 0
IsSection pools section =
    (section.pool_count ≡ length pools) × (length section.pools ≡ min max_pools (length pools))
