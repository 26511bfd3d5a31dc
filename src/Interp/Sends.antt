-- ===== src/Interp/Sends.antt =====
-- vm/vm.c: calls of methods with their inline caches, and the making of objects.
use kek_on_rails.Base.{ℕ, Bool, Option, none, some, List, ◌==◌, if◌then◌else◌}
use kek_on_rails.Classes.Table.{Class, vm_find_method_in_class}
use kek_on_rails.Loader.Records.{Method}
use kek_on_rails.Outcome.{◌>>=◌, Outcome, vm_error, ok, stop}

-- A call without the number of arguments that the method expects is refused.
abbrev pub expecting : Method → ℕ → Outcome Method
expecting m argc = if m.args_cnt == argc then ok m else stop vm_error

abbrev pub found_method : Option Method → ℕ → Outcome Method
found_method none argc = stop vm_error
found_method (some m) argc = expecting m argc

-- A cache miss: the method is searched.
unfoldable pub look_up : ℕ → List Class → ℕ → List ℕ → Bool → ℕ → Outcome Method
look_up fuel cs k name static_call argc =
    vm_find_method_in_class fuel cs k name static_call >>= λ found. found_method found argc

-- A cache at the address of a call, written after a miss.
abbrev pub update_cache : (ℕ → Option (ℕ × Method)) → ℕ → ℕ × Method → ℕ → Option (ℕ × Method)
update_cache cache site entry at = if site == at then some entry else cache at

abbrev pub Caches : Type 0
Caches = ℕ → Option (ℕ × Method)

abbrev pub fill : Caches → ℕ → ℕ → Method → Method × Caches
fill cache site k m = (m, update_cache cache site (k, m))

-- A hit is for the class that the cache was written for.
abbrev pub hit : Option (ℕ × Method) → ℕ → Option Method
hit none k = none
hit (some (c, m)) k = if c == k then some m else none

abbrev pub hit_or : Option Method → Caches → Outcome (Method × Caches) → Outcome (Method × Caches)
hit_or (some m) cache miss = ok (m, cache)
hit_or none cache miss = miss

-- The method that a call at `site` runs.
unfoldable pub resolve :
    ℕ → List Class → Caches → ℕ → ℕ → List ℕ → Bool → ℕ → Outcome (Method × Caches)
resolve fuel cs cache site k name static_call argc =
    hit_or (hit (cache site) k) cache
      (look_up fuel cs k name static_call argc >>= λ m. ok (fill cache site k m))
