-- ===== src/Cache/Invariant.antt =====
-- The invariant of the cache: the index and the list agree.
use wb_tasks_l.Prelude.{
  ℕ, zero, suc, ◌<◌, String, ◌≡◌, refl, ◌∙◌, ◌≢◌, List, ◌∷◌, Option, none, some, inl, inr, pos,
  ◌≤ℤ◌, arith, length, All, All-both, All-map_of, get_last?, eq_iff, Option-cases, Bool-cases,
}
use wb_tasks_l.Domain.{Time, Order}
use wb_tasks_l.Container.{Element, lookup, delete, insert, element_at, unlink, move_to_front}
use wb_tasks_l.Container.Laws.{
  lookup-delete, lookup-insert, find_key, IsDistinct, key-find_key, element_at-find_key,
  find_key-unlink, length-unlink, All-unlink, IsDistinct-unlink, find_key-get_last?,
  All-of_find_key-none, All-IsApart-unlink, All-find_key,
}
use wb_tasks_l.Cache.{
  Entry, LruCacheTtl, remove_element, prune_element, prune_loop, prune_expired_from_back,
  find_element, is_after,
}

abbrev pub entry_id : Entry → String
entry_id v = v.id

abbrev pub address_of : Option (Element Entry) → Option ℕ
address_of none = none
address_of (some e) = some e.address

-- An entry holds an order under the order's own identifier, which is not empty.
pub record Holds (v : Entry) : Type 0 where
  pub stored : Order
  pub points : v.order ≡ some stored
  pub own : stored.order_uid ≡ v.id
  pub named : v.id ≢ ""

-- Addresses and identifiers are distinct, addresses were allocated, and the index maps exactly the
-- identifiers in the list to the addresses of their elements.
pub record IsLinked (ll : List (Element Entry)) (index : List (String × ℕ)) (next : ℕ)
    : Type 0 where
  pub allocated : All (λ e. e.address < next) ll
  pub distinct : IsDistinct entry_id ll
  pub holds : All (λ e. Holds e.value) ll
  pub agrees : (k : String) → lookup k index ≡ address_of (find_key entry_id k ll)

module _ (ll : List (Element Entry)) (index : List (String × ℕ)) (next : ℕ) where
  pub unlink-IsLinked :
      (k : String) (e : Element Entry)
      → find_key entry_id k ll ≡ some e
      → IsLinked ll index next
      → IsLinked (unlink e.address ll) (delete e.value.id index) next
  unlink-IsLinked k e found v = record {
    allocated = All-unlink entry_id _ e.address ll v.allocated;
    distinct = IsDistinct-unlink entry_id e.address ll v.distinct;
    holds = All-unlink entry_id _ e.address ll v.holds;
    agrees = λ j. ground (
      arith,
      lookup-delete e.value.id j index,
      v.agrees j,
      key-find_key entry_id k ll e found,
      find_key-unlink entry_id k j ll e v.distinct found,
    );
  }

  pub push-IsLinked :
      (v : Entry)
      → find_key entry_id v.id ll ≡ none
      → Holds v
      → IsLinked ll index next
      → IsLinked (record { address = next; value = v } ∷ ll) (insert v.id next index) (suc next)
  unfolding find_key
  push-IsLinked v fresh h l = record {
    allocated = (omega arith, All-map_of (λ e p. omega arith) ll l.allocated);
    distinct = (
      All-map_of (λ e p. (omega arith, p.1)) ll
          (All-both _ _ ll l.allocated (All-of_find_key-none entry_id v.id ll fresh)),
      l.distinct,
    );
    holds = (h, l.holds);
    agrees = λ j. ground (arith, lookup-insert v.id j next index, l.agrees j);
  }

  pub move_to_front-IsLinked :
      (k : String) (e : Element Entry) (v : Entry)
      → find_key entry_id k ll ≡ some e
      → v.id ≡ e.value.id
      → Holds v
      → IsLinked ll index next
      → IsLinked (move_to_front (record e { value = v }) ll) index next
  unfolding move_to_front find_key
  move_to_front-IsLinked k e v found same h l = record {
    allocated = (
      All-find_key entry_id _ k ll e l.allocated found,
      All-unlink entry_id _ e.address ll l.allocated,
    );
    distinct = (
      All-map_of (λ f p. (p.0, λ q. p.1 (q ∙ same))) (unlink e.address ll)
          (All-IsApart-unlink entry_id k ll e l.distinct found),
      IsDistinct-unlink entry_id e.address ll l.distinct,
    );
    holds = (h, All-unlink entry_id _ e.address ll l.holds);
    agrees = λ j. ground (
      arith,
      l.agrees j,
      key-find_key entry_id k ll e found,
      eq_iff v.id j,
      eq_iff k j,
      find_key-unlink entry_id k j ll e l.distinct found,
    );
  }

  pub element_at-IsLinked :
      (k : String)
      → IsLinked ll index next
      → (elim (lookup k index) [ none ↦ none | some p ↦ element_at p ll ]) ≡ find_key entry_id k ll
  element_at-IsLinked k l = elim (Option-cases (find_key entry_id k ll)) [
    | inl e ↦ ground (arith, l.agrees k)
    | inr (x, e) ↦ ground (arith, l.agrees k, element_at-find_key entry_id k ll x l.distinct e)
  ]

-- A list within the capacity, linked to the index, and a gauge that shows its length.
pub record IsValid (c : LruCacheTtl) : Type 0 where
  pub positive : pos 1 ≤ℤ c.capacity
  pub bounded : pos (length c.ll) ≤ℤ c.capacity
  pub linked : IsLinked c.ll c.index c.next
  pub gauge : c.metrics.cache_size ≡ length c.ll

-- Where the invariant holds, the index finds the first element with an identifier.
pub find_element-find_key :
    (k : String) (c : LruCacheTtl)
    → IsLinked c.ll c.index c.next
    → find_element k c ≡ find_key entry_id k c.ll
unfolding find_element
find_element-find_key k c l = element_at-IsLinked c.ll c.index c.next k l

module _ (c : LruCacheTtl) where
  pub remove_element-IsLinked :
      (k : String) (e : Element Entry)
      → find_key entry_id k c.ll ≡ some e
      → IsLinked c.ll c.index c.next
      → (let c' = remove_element e c in IsLinked c'.ll c'.index c'.next)
  unfolding remove_element
  remove_element-IsLinked k e found l = unlink-IsLinked c.ll c.index c.next k e found l

  pub get_last?-find_key :
      (e : Element Entry)
      → IsLinked c.ll c.index c.next
      → get_last? c.ll ≡ some e
      → find_key entry_id e.value.id c.ll ≡ some e
  get_last?-find_key e l last = find_key-get_last? entry_id c.ll e l.distinct last

  pub prune_element-IsValid :
      (e : Element Entry) → get_last? c.ll ≡ some e → IsValid c → IsValid (prune_element e c)
  unfolding prune_element
  prune_element-IsValid e last v =
      let found = get_last?-find_key e v.linked last in
      record {
        positive = v.positive;
        bounded = ground (arith, length-unlink entry_id e.value.id c.ll e v.linked.distinct found);
        linked = unlink-IsLinked c.ll c.index c.next e.value.id e found v.linked;
        gauge = refl;
      }

  pub length-prune_element :
      (e : Element Entry)
      → IsLinked c.ll c.index c.next
      → get_last? c.ll ≡ some e
      → suc (length (prune_element e c).ll) ≡ length c.ll
  unfolding prune_element
  length-prune_element e l last =
      length-unlink entry_id e.value.id c.ll e l.distinct (get_last?-find_key e l last)

-- What every removal from the back keeps, the loop keeps.
pub prune_loop_keeps {ℓ} :
    (P : LruCacheTtl → Type ℓ)
    → ((e : Element Entry) (c : LruCacheTtl)
        → get_last? c.ll ≡ some e
        → P c
        → P (prune_element e c))
    → (rounds : ℕ) (now : Time) (c : LruCacheTtl) → P c
    → P (prune_loop rounds now c)
unfolding prune_loop
prune_loop_keeps P keep zero now c p = p
prune_loop_keeps P keep (suc rounds) now c p = elim (Option-cases (get_last? c.ll)) [
  | inl e ↦ rw (e, prune_loop) p
  | inr (back, e) ↦ elim (Bool-cases (is_after now back.value.expires_at)) [
    | inl late ↦
        rw (e, prune_loop, late)
          (prune_loop_keeps P keep rounds now (prune_element back c) (keep back c e p))
    | inr fresh ↦ rw (e, prune_loop, fresh) p
  ]
]

pub prune_expired_from_back-IsValid :
    (now : Time) (c : LruCacheTtl) → IsValid c → IsValid (prune_expired_from_back now c)
unfolding prune_expired_from_back
prune_expired_from_back-IsValid now c v = ground (
  arith,
  prune_loop_keeps IsValid (λ (e : Element Entry) (d : LruCacheTtl). prune_element-IsValid d e)
      (length c.ll) now c v,
)
