-- ===== src/Collectors/Gc.antt =====
-- src/pidprobe/collectors/_gc.py: what the snippet does in the target, for the answers of the `gc` module.
use pidprobe.Base.{
  ◌≡◌, refl, ap, ◌∙◌, ℕ, suc, zero, ◌+◌, String, Bool, Option, none, some, List, [], ◌∷◌, get_elem?,
  if◌then◌else◌, ◌=ₛ◌, arith,
}
use pidprobe.Base.Int.{ℤ, pos}
use pidprobe.Base.Json.{Json, int, bool, arr, obj, Items, nil, cons, Fields, end, field, get}
use pidprobe.Base.Objects.{insert, update, get-insert}

-- `gc.get_stats()` and the other calls; the statistics of a generation are a dict.
pub record Gc (F : Type 0) : Type 0 where
  pub enabled : Bool
  pub counts : List ℤ
  pub thresholds : List ℤ
  pub stats : List (Fields F)
  pub garbage_count : ℕ
  pub freeze_count : ℤ

module _ {F : Type 0} where
  -- `if index < len(numbers): generation[key] = numbers[index]`
  put : String → Option ℤ → Fields F → Fields F
  put key none generation = generation
  put key (some n) generation = insert key (int n) generation

  unfoldable pub generation : (counts thresholds : List ℤ) → ℕ → Fields F → Fields F
  unfolding put
  generation counts thresholds index stats =
      let named = update stats (field "generation" (int (pos index)) end) in
      put "threshold" (get_elem? thresholds index) (put "count" (get_elem? counts index) named)

  -- The `for` statement, from an index on.
  unfoldable pub generations : (counts thresholds : List ℤ) → ℕ → List (Fields F) → List (Fields F)
  generations counts thresholds index [] = []
  generations counts thresholds index (stats ∷ rest) =
      generation counts thresholds index stats ∷ generations counts thresholds (suc index) rest

  numbers : List ℤ → Items F
  numbers [] = nil
  numbers (n ∷ ns) = cons (int n) (numbers ns)

  objects : List (Fields F) → Items F
  objects [] = nil
  objects (d ∷ ds) = cons (obj d) (objects ds)

  unfoldable pub collect_gc : Gc F → Fields F
  unfolding numbers objects generations
  collect_gc gc = field "enabled" (bool gc.enabled) (
      field "counts" (arr (numbers gc.counts)) (
        field "thresholds" (arr (numbers gc.thresholds)) (
          field "generations" (arr (objects (generations gc.counts gc.thresholds 0 gc.stats))) (
            field "garbage_count" (int (pos gc.garbage_count))
              (field "freeze_count" (int gc.freeze_count) end)))))

  -- A number where there is one, else what was there before.
  abbrev pub number_or : Option ℤ → Option (Json F) → Option (Json F)
  number_or none other = other
  number_or (some n) other = some (int n)

  get-put :
      (key j : String) (n : Option ℤ) (d : Fields F)
      → get j (put key n d) ≡ (if key =ₛ j then number_or n (get j d) else get j d)
  unfolding put
  get-put key j none d = ground arith
  get-put key j (some n) d = get-insert key j (int n) d

  abbrev each : (Fields F → Fields F) → Option (Fields F) → Option (Fields F)
  each f none = none
  each f (some d) = some (f d)

  get_elem?-generations :
      (counts thresholds : List ℤ) (all : List (Fields F)) (k index : ℕ)
      → get_elem? (generations counts thresholds index all) k
        ≡ each (generation counts thresholds (index + k)) (get_elem? all k)
  unfolding generations
  get_elem?-generations counts thresholds [] k index = refl
  get_elem?-generations counts thresholds (d ∷ all) zero index =
      let same : index ≡ index + 0 = omega arith in
      ap (λ i. some (generation counts thresholds i d)) same
  get_elem?-generations counts thresholds (d ∷ all) (suc k) index =
      let same : suc index + k ≡ index + suc k = omega arith in
      get_elem?-generations counts thresholds all k (suc index)
      ∙ ap (λ i. each (generation counts thresholds i) (get_elem? all k)) same

  get-generation :
      (counts thresholds : List ℤ) (index : ℕ) (stats : Fields F)
      → (get "count" (generation counts thresholds index stats)
          ≡ number_or
              (get_elem? counts index)
              (get "count" (update stats (field "generation" (int (pos index)) end))))
        × (get "threshold" (generation counts thresholds index stats)
            ≡ number_or
                (get_elem? thresholds index)
                (get "threshold" (update stats (field "generation" (int (pos index)) end))))
  unfolding generation
  get-generation counts thresholds index stats =
      let named = update stats (field "generation" (int (pos index)) end) in
      let counted = put "count" (get_elem? counts index) named in
      (
        get-put "threshold" "count" (get_elem? thresholds index) counted
            ∙ get-put "count" "count" (get_elem? counts index) named,
        get-put "threshold" "threshold" (get_elem? thresholds index) counted
            ∙ ap (number_or (get_elem? thresholds index))
                (get-put "count" "threshold" (get_elem? counts index) named),
      )
