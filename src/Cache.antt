-- ===== src/Cache.antt =====
-- internal/cache/memory: the LRU cache with a time to live (order_cache.go,
-- order_cache_helpers.go), and the two metrics of pkg/metrics that it writes. Each method takes the
-- value of `time.Now()` as an argument and returns the new state beside its results; the mutex
-- makes each one atomic. The list holds `*entry` values only, so the type assertions on them
-- succeed and are not modelled.
pub mod Invariant
pub mod Spec
pub mod Trim
pub mod Reads
pub mod Writes
pub mod History
pub mod Warming
pub mod Promises
pub mod Clock
pub mod Port
pub mod Only
mod Tests
use wb_tasks_l.Prelude.{
  ℕ, suc, ◌+◌, String, Bool, true, false, List, [], ◌∷◌, Option, none, some, ℤ, pos, ◌+ℤ◌, ltb_ℤ,
  leb_ℤ, length, get_last?, ◌==◌, if◌then◌else◌,
}
use wb_tasks_l.Errors.{Error, sentinel, invalid_cache_order}
use wb_tasks_l.Domain.{Time, Order}
use wb_tasks_l.Ports.{Moment, OrderCache}
use wb_tasks_l.Container.{Element, lookup, delete, insert, element_at, unlink, move_to_front}

-- `order` is a pointer.
pub record Entry : Type 0 where
  pub id : String
  pub order : Option Order
  pub expires_at : Time

-- metrics.CacheOps by label, and the gauge metrics.CacheSize.
pub record CacheMetrics : Type 0 where
  pub hit : ℕ
  pub miss : ℕ
  pub evicted : ℕ
  pub expired : ℕ
  pub cache_size : ℕ

-- `index` is the field `cache` of the source; `next` is the next address to be allocated.
pub record LruCacheTtl : Type 0 where
  pub capacity : ℤ
  pub ttl : ℤ
  pub ll : List (Element Entry)
  pub index : List (String × ℕ)
  pub next : ℕ
  pub metrics : CacheMetrics

abbrev no_metrics : CacheMetrics
no_metrics = record { hit = 0; miss = 0; evicted = 0; expired = 0; cache_size = 0 }

unfoldable pub new_lru_cache_ttl : ℤ → ℤ → LruCacheTtl
new_lru_cache_ttl capacity ttl = record {
  capacity = if leb_ℤ capacity (pos 0) then pos 1 else capacity;
  ttl = ttl;
  ll = [];
  index = [];
  next = 0;
  metrics = no_metrics;
}

-- `append([]domain.Item(nil), items...)`: the copy of a slice with no elements is nil.
abbrev pub clone_items {ℓ} : {A : Type ℓ} → Option (List A) → Option (List A)
clone_items none = none
clone_items (some []) = none
clone_items (some (x ∷ xs)) = some (x ∷ xs)

unfoldable pub clone_order : Option Order → Option Order
clone_order none = none
clone_order (some o) = some (record o { items = clone_items o.items })

-- now.After(t)
abbrev pub is_after : Time → Time → Bool
is_after now t = ltb_ℤ t now

pub is_expired : LruCacheTtl → Entry → Time → Bool
is_expired c ent now = if leb_ℤ c.ttl (pos 0) then false else is_after now ent.expires_at

-- time.Time{} is the zero time.
pub expiry_from : LruCacheTtl → Time → Time
expiry_from c now = if leb_ℤ c.ttl (pos 0) then pos 0 else now +ℤ c.ttl

-- metrics.CacheSize.Set(float64(c.ll.Len()))
pub publish_size : LruCacheTtl → LruCacheTtl
publish_size c = record c { metrics = record c.metrics { cache_size = length c.ll } }

pub count_hit : LruCacheTtl → LruCacheTtl
count_hit c = record c { metrics = record c.metrics { hit = c.metrics.hit + 1 } }

pub count_miss : LruCacheTtl → LruCacheTtl
count_miss c = record c { metrics = record c.metrics { miss = c.metrics.miss + 1 } }

pub count_evicted : LruCacheTtl → LruCacheTtl
count_evicted c = record c { metrics = record c.metrics { evicted = c.metrics.evicted + 1 } }

pub count_expired : LruCacheTtl → LruCacheTtl
count_expired c = record c { metrics = record c.metrics { expired = c.metrics.expired + 1 } }

pub remove_element : Element Entry → LruCacheTtl → LruCacheTtl
remove_element elem c = record c {
  index = delete elem.value.id c.index;
  ll = unlink elem.address c.ll;
}

pub evict_lru : LruCacheTtl → LruCacheTtl
unfolding remove_element count_evicted publish_size
evict_lru c = elim (get_last? c.ll) [
  | none ↦ c
  | some back ↦ publish_size (count_evicted (remove_element back c))
]

-- The body of the loop at an expired element.
pub prune_element : Element Entry → LruCacheTtl → LruCacheTtl
unfolding remove_element count_expired publish_size
prune_element back c = publish_size (count_expired (remove_element back c))

-- The loop removes an element each time round, so as many rounds as there are elements are enough.
pub prune_loop : ℕ → Time → LruCacheTtl → LruCacheTtl
prune_loop ℕ.zero now c = c
prune_loop (suc rounds) now c = elim (get_last? c.ll) [
  | none ↦ c
  | some back ↦
      let rest = prune_loop rounds now (prune_element back c) in
      if is_after now back.value.expires_at then rest else c
]

pub prune_expired_from_back : Time → LruCacheTtl → LruCacheTtl
prune_expired_from_back now c = if leb_ℤ c.ttl (pos 0) then c else prune_loop (length c.ll) now c

-- The new term of an entry that is hit.
pub refresh : LruCacheTtl → Time → Entry → Entry
refresh c now ent =
    if leb_ℤ c.ttl (pos 0) then ent else record ent { expires_at = expiry_from c now }

-- The rest of Get, once the element is found.
pub get_element : Time → Element Entry → LruCacheTtl → LruCacheTtl × Option Order × Bool
get_element now elem c =
    if is_expired c elem.value now
    then (publish_size (remove_element elem (count_expired c)), none, false)
    else (
      count_hit (record c { ll = move_to_front moved c.ll }),
      clone_order elem.value.order,
      true,
    )
  where
    moved : Element Entry
    moved = record elem { value = refresh c now elem.value }

-- The element that the index points at. An address that is not in the list counts as absent.
pub find_element : String → LruCacheTtl → Option (Element Entry)
find_element id c = elim (lookup id c.index) [ none ↦ none | some p ↦ element_at p c.ll ]

pub get : Time → String → LruCacheTtl → LruCacheTtl × Option Order × Bool
get now id c = if id == "" then (count_miss c, none, false) else (elim (find_element id c) [
  | none ↦ (count_miss c, none, false)
  | some elem ↦ get_element now elem c
])

-- Set, where the key is present.
pub update_element : Time → Order → Element Entry → LruCacheTtl → LruCacheTtl
update_element now o elem c = record c {
  ll =
      move_to_front
        (record elem {
          value = record elem.value {
            order = clone_order (some o);
            expires_at = expiry_from c now;
          };
        })
        c.ll;
}

-- &entry{…}
pub new_entry : LruCacheTtl → Time → Order → Entry
new_entry c now o = record {
  id = o.order_uid;
  order = clone_order (some o);
  expires_at = expiry_from c now;
}

-- c.ll.PushFront(&entry{…}), and the index.
pub push_front : Time → Order → LruCacheTtl → LruCacheTtl
push_front now o c = record c {
  ll = record { address = c.next; value = new_entry c now o } ∷ c.ll;
  index = insert o.order_uid c.next c.index;
  next = suc c.next;
}

-- if c.ll.Len() > c.capacity { c.evictLRU() }
pub evict_over_capacity : LruCacheTtl → LruCacheTtl
evict_over_capacity c = if ltb_ℤ c.capacity (pos (length c.ll)) then evict_lru c else c

-- Set, where the key is new.
pub insert_order : Time → Order → LruCacheTtl → LruCacheTtl
insert_order now o c =
    evict_over_capacity (publish_size (push_front now o (prune_expired_from_back now c)))

pub set_order : Time → Order → LruCacheTtl → LruCacheTtl
set_order now o c = elim (find_element o.order_uid c) [
  | none ↦ insert_order now o c
  | some elem ↦ update_element now o elem c
]

-- The error is `none` where Set returns nil.
pub set : Time → Option Order → LruCacheTtl → LruCacheTtl × Option Error
set now none c = (c, some (sentinel invalid_cache_order))
set now (some o) c =
    if o.order_uid == ""
    then (c, some (sentinel invalid_cache_order))
    else (set_order now o c, none)

-- The loop of WarmUp, with the moment of each round.
pub warm_up : List (Moment × Option Order) → LruCacheTtl → LruCacheTtl × Option Error
warm_up [] c = (c, none)
warm_up ((m, order) ∷ rest) c = elim m.ctx_err [
  | some e ↦ (c, some e)
  | none ↦
      let (c', failed) = set m.now order c in
      let next = warm_up rest c' in (elim failed [ some e ↦ (c', some e) | none ↦ next ])
]

-- The rounds over a list of orders, none of which is nil, from the i-th moment on.
abbrev pub rounds : (ℕ → Moment) → ℕ → List Order → List (Moment × Option Order)
rounds moments i [] = []
rounds moments i (o ∷ orders) = (moments i, some o) ∷ rounds moments (suc i) orders

-- The cache as the port that the service depends on.
abbrev pub memory_cache : OrderCache LruCacheTtl
memory_cache = record {
  get = get;
  set = set;
  warm_up = λ moments orders c. warm_up (rounds moments 0 orders) c;
}
