-- ===== src/Cache/History.antt =====
-- A history of calls of the cache, in the order in which the mutex lets them through,
-- on the cache (order_cache.go) and on the abstract cache.
use wb_tasks_l.Prelude.{
  String, ◌≡◌, refl, ap, ◌∙◌, subst, Bool, List, [], ◌∷◌, Option, none, some, inl, inr, ℤ, pos,
  ltb_ℤ, arith, length, eq_iff, Bool-cases, ◌==◌, if◌then◌else◌,
}
use wb_tasks_l.Errors.{Error, sentinel, invalid_cache_order}
use wb_tasks_l.Domain.{Time, Order}
use wb_tasks_l.Ports.{Moment}
use wb_tasks_l.Container.Laws.{find_key}
use wb_tasks_l.Container.{lookup}
use wb_tasks_l.Cache.{
  Entry, LruCacheTtl, new_lru_cache_ttl, count_hit, count_miss, count_expired, publish_size,
  remove_element, get_element, get, update_element, push_front, prune_element,
  prune_expired_from_back, evict_lru, evict_over_capacity, insert_order, set_order, set, warm_up,
}
use wb_tasks_l.Cache.Invariant.{IsValid, prune_loop_keeps}
use wb_tasks_l.Cache.Spec.{view, Limits, limits, read, write}
use wb_tasks_l.Cache.Reads.{get-read, get-IsValid}
use wb_tasks_l.Cache.Writes.{set_order-write, set_order-IsValid}

-- The constructor builds a valid, empty cache whatever its arguments: a capacity that is not
-- positive becomes 1.
pub new_lru_cache_ttl-IsValid :
    (capacity ttl : ℤ)
    → IsValid (new_lru_cache_ttl capacity ttl) × (view (new_lru_cache_ttl capacity ttl) ≡ [])
unfolding new_lru_cache_ttl find_key lookup
new_lru_cache_ttl-IsValid capacity ttl = (
  record {
    positive = ground arith;
    bounded = ground arith;
    linked = record { allocated = tt; distinct = tt; holds = tt; agrees = λ k. refl };
    gauge = refl;
  },
  refl,
)

pub limits-get : (now : Time) (k : String) (c : LruCacheTtl) → limits (get now k c).0 ≡ limits c
unfolding get get_element count_hit count_miss count_expired publish_size remove_element
limits-get now k c = ground arith

limits-prune : (now : Time) (c : LruCacheTtl) → limits (prune_expired_from_back now c) ≡ limits c
unfolding prune_expired_from_back prune_element
limits-prune now c = elim (Bool-cases (ltb_ℤ (pos 0) c.ttl)) [
  | inl q ↦
      rw q (prune_loop_keeps (λ d. limits d ≡ limits c) (λ e d last p. p) (length c.ll) now c refl)
  | inr q ↦ rw q
]

limits-evict_over_capacity : (c : LruCacheTtl) → limits (evict_over_capacity c) ≡ limits c
unfolding evict_over_capacity evict_lru
limits-evict_over_capacity c = ground arith

limits-insert_order :
    (now : Time) (o : Order) (c : LruCacheTtl) → limits (insert_order now o c) ≡ limits c
unfolding insert_order push_front publish_size
limits-insert_order now o c = limits-evict_over_capacity _ ∙ limits-prune now c

pub limits-set :
    (now : Time) (order : Option Order) (c : LruCacheTtl) → limits (set now order c).0 ≡ limits c
unfolding set set_order update_element
limits-set now none c = refl
limits-set now (some o) c = ground (arith, limits-insert_order now o c)

pub set-IsValid :
    (now : Time) (order : Option Order) (c : LruCacheTtl) → IsValid c → IsValid (set now order c).0
unfolding set
set-IsValid now none c v = v
set-IsValid now (some o) c v = elim (Bool-cases (o.order_uid == "")) [
  | inl q ↦ rw q v
  | inr q ↦ rw q (set_order-IsValid now o c v (λ e. cc ((eq_iff o.order_uid "").1 e)))
]

-- The load at the start keeps the invariant, for every list of orders, nil ones and ones without an
-- identifier included, and wherever the context or an error stops it.
pub warm_up-IsValid :
    (orders : List (Moment × Option Order)) (c : LruCacheTtl)
    → IsValid c
    → IsValid (warm_up orders c).0
unfolding warm_up
warm_up-IsValid [] c v = v
warm_up-IsValid ((m, order) ∷ rest) c v =
    let stored = set-IsValid m.now order c v in
    ground (arith, stored, warm_up-IsValid rest (set m.now order c).0 stored)

pub limits-warm_up :
    (orders : List (Moment × Option Order)) (c : LruCacheTtl)
    → limits (warm_up orders c).0 ≡ limits c
unfolding warm_up
limits-warm_up [] c = refl
limits-warm_up ((m, order) ∷ rest) c =
    ground (arith, limits-set m.now order c, limits-warm_up rest (set m.now order c).0)

pub data Call : Type 0 where
  gets : Time → String → Call
  sets : Time → Option Order → Call

pub data Reply : Type 0 where
  answer : Option Order → Bool → Reply
  stored : Option Error → Reply

-- The cache, and the abstract one, through a history.
unfoldable pub run : List Call → LruCacheTtl → LruCacheTtl × List Reply
run [] c = (c, [])
run (gets now k ∷ calls) c =
    let (c', order, found) = get now k c in
    let (last, replies) = run calls c' in (last, answer order found ∷ replies)
run (sets now order ∷ calls) c =
    let (c', failed) = set now order c in
    let (last, replies) = run calls c' in (last, stored failed ∷ replies)

-- An order that may be nil is written if it has an identifier, and refused if not.
unfoldable pub store : Limits → Time → Option Order → List Entry → List Entry × Option Error
store l now none s = (s, some (sentinel invalid_cache_order))
store l now (some o) s =
    if o.order_uid == "" then (s, some (sentinel invalid_cache_order)) else (write l now o s, none)

unfoldable pub run_abstract : Limits → List Call → List Entry → List Entry × List Reply
run_abstract l [] s = (s, [])
run_abstract l (gets now k ∷ calls) s =
    let (s', order, found) = read l.ttl now k s in
    let (last, replies) = run_abstract l calls s' in (last, answer order found ∷ replies)
run_abstract l (sets now order ∷ calls) s =
    let (s', failed) = store l now order s in
    let (last, replies) = run_abstract l calls s' in (last, stored failed ∷ replies)

pub set-store :
    (now : Time) (order : Option Order) (c : LruCacheTtl)
    → IsValid c
    → (view (set now order c).0 ≡ (store (limits c) now order (view c)).0)
      × ((set now order c).1 ≡ (store (limits c) now order (view c)).1)
unfolding set store
set-store now none c v = (refl, refl)
set-store now (some o) c v = elim (Bool-cases (o.order_uid == "")) [
  | inl q ↦ rw q (refl, refl)
  | inr q ↦ rw q (set_order-write now o c v (λ e. cc ((eq_iff o.order_uid "").1 e)), refl)
]

-- The invariant holds after every history of calls from a valid cache: the index and the list name
-- the same orders, each under its own identifier and once; there are no more of them than the
-- capacity, and the size that the metrics publish is their number.
pub run-IsValid : (calls : List Call) (c : LruCacheTtl) → IsValid c → IsValid (run calls c).0
unfolding run
run-IsValid [] c v = v
run-IsValid (gets now k ∷ calls) c v = run-IsValid calls (get now k c).0 (get-IsValid now k c v)
run-IsValid (sets now order ∷ calls) c v =
    run-IsValid calls (set now order c).0 (set-IsValid now order c v)

pub limits-run : (calls : List Call) (c : LruCacheTtl) → limits (run calls c).0 ≡ limits c
unfolding run
limits-run [] c = refl
limits-run (gets now k ∷ calls) c = limits-run calls (get now k c).0 ∙ limits-get now k c
limits-run (sets now order ∷ calls) c =
    limits-run calls (set now order c).0 ∙ limits-set now order c

abbrev Agrees : Limits → List Call → LruCacheTtl → Type 0
Agrees l calls c =
    (view (run calls c).0 ≡ (run_abstract l calls (view c)).0)
    × ((run calls c).1 ≡ (run_abstract l calls (view c)).1)

-- From a valid cache, every history of calls gives the replies that the abstract cache gives, and
-- ends in the entries in which the abstract cache ends.
pub run-run_abstract :
    (calls : List Call) (c : LruCacheTtl)
    → IsValid c
    → (view (run calls c).0 ≡ (run_abstract (limits c) calls (view c)).0)
      × ((run calls c).1 ≡ (run_abstract (limits c) calls (view c)).1)
unfolding run run_abstract
run-run_abstract [] c v = (refl, refl)
run-run_abstract (gets now k ∷ calls) c v =
    let c' = (get now k c).0 in
    let (entries, order, found) = get-read now k c v in
    let ih =
      subst (λ l. Agrees l calls c') (limits-get now k c)
        (run-run_abstract calls c' (get-IsValid now k c v)) in
    rw (← entries, ← order, ← found) (ih.0, ap (◌∷◌ (answer (get now k c).1 (get now k c).2)) ih.1)
run-run_abstract (sets now order ∷ calls) c v =
    let c' = (set now order c).0 in
    let (entries, failed) = set-store now order c v in
    let ih =
      subst (λ l. Agrees l calls c') (limits-set now order c)
        (run-run_abstract calls c' (set-IsValid now order c v)) in
    rw (← entries, ← failed) (ih.0, ap (◌∷◌ (stored (set now order c).1)) ih.1)
