-- ===== src/Cache/Tests.antt =====
-- The cache on small histories.
use wb_tasks_l.Prelude.{
  ℕ, take, reverse, ◌≡◌, refl, ◌≢◌, inr, true, List, [], ◌∷◌, Option, none, some, pos, ◌+ℤ◌, ◌≤ℤ◌,
  arith, All,
}
use wb_tasks_l.Domain.{Order}
use wb_tasks_l.Ports.{Moment}
use wb_tasks_l.Container.{lookup, delete, insert, element_at, unlink, move_to_front}
use wb_tasks_l.Container.Laws.{find_value}
use wb_tasks_l.Samples.{order_of}
use wb_tasks_l.Cache.{
  Entry, clone_order, LruCacheTtl, new_lru_cache_ttl, get, set, set_order, warm_up, rounds,
  prune_expired_from_back, is_expired, expiry_from, publish_size, count_hit, count_miss,
  count_evicted, count_expired, remove_element, evict_lru, prune_element, prune_loop, refresh,
  get_element, find_element, update_element, new_entry, push_front, evict_over_capacity,
  insert_order,
}
use wb_tasks_l.Cache.Invariant.{IsValid, entry_id}
use wb_tasks_l.Cache.Spec.{view, limits, read, write, trim}
use wb_tasks_l.Cache.Warming.{entries, warm_up-entries}
use wb_tasks_l.Cache.Trim.{view-prune_expired_from_back}
use wb_tasks_l.Cache.Reads.{get-read}
use wb_tasks_l.Cache.Writes.{set_order-write}
use wb_tasks_l.Cache.History.{
  Call, gets, sets, run, run_abstract, new_lru_cache_ttl-IsValid, run-IsValid, run-run_abstract,
}
use wb_tasks_l.Cache.Promises.{get-set}
use wb_tasks_l.Cache.Clock.{Onward, set_order_leaves_live}

-- What it takes to run the cache.
program : Unit {0}
unfolding new_lru_cache_ttl clone_order is_expired expiry_from publish_size count_hit count_miss
    count_evicted count_expired remove_element evict_lru prune_element prune_loop
    prune_expired_from_back refresh get_element find_element get update_element new_entry push_front
    evict_over_capacity insert_order set_order set warm_up lookup delete insert element_at unlink
    move_to_front run find_value ◌+ℤ◌
program = tt

-- A cache of two orders with terms of 10, and a history that fills it and evicts "b".
abbrev empty : LruCacheTtl
empty = new_lru_cache_ttl (pos 2) (pos 10)

abbrev calls : List Call
calls =
    sets (pos 1) (some (order_of "a"))
    ∷ sets (pos 2) (some (order_of "b"))
    ∷ gets (pos 3) "a"
    ∷ sets (pos 4) (some (order_of "c"))
    ∷ gets (pos 5) "b"
    ∷ []

abbrev full : LruCacheTtl
full = (run calls empty).0

empty-IsValid : IsValid empty
empty-IsValid = (new_lru_cache_ttl-IsValid (pos 2) (pos 10)).0

full-IsValid : IsValid full
full-IsValid = run-IsValid calls empty empty-IsValid

a_named : (order_of "a").order_uid ≢ ""
a_named e = cc

a_full : (order_of "a").items ≢ some []
a_full e = ground arith

run-run_abstract_example :
    (view (run calls empty).0 ≡ (run_abstract (limits empty) calls (view empty)).0)
    × ((run calls empty).1 ≡ (run_abstract (limits empty) calls (view empty)).1)
run-run_abstract_example = run-run_abstract calls empty empty-IsValid

run-IsValid_example : IsValid (run calls empty).0
run-IsValid_example = run-IsValid calls empty empty-IsValid

abbrev two_rounds : List (Moment × Option Order)
two_rounds =
    (record { ctx_err = none; now = pos 7 }, some (order_of "d"))
    ∷ (record { ctx_err = none; now = pos 8 }, none)
    ∷ []

get-read_example :
    (view (get (pos 6) "a" full).0 ≡ (read full.ttl (pos 6) "a" (view full)).0)
    × ((get (pos 6) "a" full).1 ≡ (read full.ttl (pos 6) "a" (view full)).1)
    × ((get (pos 6) "a" full).2 ≡ (read full.ttl (pos 6) "a" (view full)).2)
get-read_example = get-read (pos 6) "a" full full-IsValid

d_named : (order_of "d").order_uid ≢ ""
d_named e = cc

set_order-write_example :
    view (set_order (pos 6) (order_of "d") full)
    ≡ write (limits full) (pos 6) (order_of "d") (view full)
set_order-write_example = set_order-write (pos 6) (order_of "d") full full-IsValid d_named

view-prune_expired_from_back_example :
    view (prune_expired_from_back (pos 14) full) ≡ trim full.ttl (pos 14) (view full)
view-prune_expired_from_back_example = view-prune_expired_from_back (pos 14) full full-IsValid

get-set_example :
    (let g = get (pos 12) "a" (set (pos 2) (some (order_of "a")) empty).0 in
      (g.1 ≡ some (order_of "a")) × (g.2 ≡ true))
get-set_example =
    get-set (pos 2) (order_of "a") empty empty-IsValid a_named (pos 12) a_full
      (inr (unfold program in omega arith))

-- "a" was used at 3, so its term ends at 13.
abbrev kept : Entry
kept = record { id = "a"; order = some (order_of "a"); expires_at = pos 13 }

a_late : find_value entry_id "a" (view full) ≡ some kept
unfolding program
a_late = refl

full-ttl : pos 1 ≤ℤ full.ttl
unfolding program
full-ttl = omega arith

full-Onward : Onward (pos 0) calls
full-Onward = ground arith

d_absent : find_value entry_id "d" (view full) ≡ none
unfolding program
d_absent = refl

set_order_leaves_live_example :
    All (λ e. pos 6 ≤ℤ e.expires_at) (view (set_order (pos 6) (order_of "d") full))
set_order_leaves_live_example =
    set_order_leaves_live (pos 2) (pos 10) (pos 0) (pos 6) calls (order_of "d") (omega arith)
      full-Onward (omega arith) d_named d_absent

-- A load of three orders into a cache for two.
abbrev at_once : ℕ → Moment
at_once i = record { ctx_err = none; now = pos 5 }

abbrev three : List Order
three = order_of "c" ∷ order_of "b" ∷ order_of "a" ∷ []

warm_up-entries_example :
    view (warm_up (rounds at_once 0 three) (new_lru_cache_ttl (pos 2) (pos 100))).0
    ≡ take 2 (reverse (entries at_once (limits (new_lru_cache_ttl (pos 2) (pos 100))) 0 three))
unfolding new_lru_cache_ttl ◌+ℤ◌
warm_up-entries_example =
    warm_up-entries at_once (pos 2) (pos 100) three (λ j. refl) (λ i j o. refl)
      (refl, (refl, (refl, tt)), (refl, (refl, tt), (refl, tt, tt)))
