-- ===== src/Cache/Writes.antt =====
-- `LRUCacheTTL.Set` and the writes of the abstract cache.
use mathlib.Core.Option
use wb_tasks_l.Prelude.{
  ℕ, suc, ◌≤◌, String, ◌≡◌, refl, sym, ap, ap₂, ◌∙◌, subst, ◌≢◌, List, ◌∷◌, map, none, some, inl,
  inr, ℤ, pos, pos_part, ltb_ℤ, ◌≤ℤ◌, arith, length, length-map, take, take_of_length-le, get_last?,
  eq-nil_of_get_last?, Option-cases, Bool-cases,
}
use wb_tasks_l.Domain.{Time, Order}
use wb_tasks_l.Container.{Element, unlink, move_to_front}
use wb_tasks_l.Container.Laws.{
  find_key, remove_key, find_value-map, map-unlink, key-find_key, length-unlink, find_key-unlink,
}
use wb_tasks_l.Cache.{
  Entry, LruCacheTtl, clone_order, expiry_from, remove_element, publish_size, prune_element,
  prune_expired_from_back, new_entry, push_front, evict_lru, evict_over_capacity, update_element,
  insert_order, set_order, count_evicted,
}
use wb_tasks_l.Cache.Invariant.{
  entry_id, Holds, IsLinked, IsValid, find_element-find_key, unlink-IsLinked, push-IsLinked,
  move_to_front-IsLinked, prune_loop_keeps, prune_element-IsValid, get_last?-find_key,
}
use wb_tasks_l.Cache.Spec.{view, limits, trim, fresh_entry, make_room, write}
use wb_tasks_l.Cache.Trim.{view-prune_expired_from_back, view-evict_over_capacity}

new_entry-fresh_entry :
    (c : LruCacheTtl) (now : Time) (o : Order) → new_entry c now o ≡ fresh_entry c.ttl now o
unfolding new_entry expiry_from
new_entry-fresh_entry c now o = elim (Bool-cases (ltb_ℤ (pos 0) c.ttl)) [
  | inl q ↦ rw q
  | inr q ↦ rw q
]

-- What pruning leaves alone: the limits, and that an identifier is absent.
record Spares (k : String) (c d : LruCacheTtl) : Type 0 where
  valid : IsValid d
  same_capacity : d.capacity ≡ c.capacity
  same_ttl : d.ttl ≡ c.ttl
  absent : find_key entry_id k d.ll ≡ none

prune_element-Spares :
    (k : String) (c : LruCacheTtl) (e : Element Entry) (d : LruCacheTtl)
    → get_last? d.ll ≡ some e
    → Spares k c d
    → Spares k c (prune_element e d)
unfolding prune_element
prune_element-Spares k c e d last s = record {
  valid = prune_element-IsValid d e last s.valid;
  same_capacity = s.same_capacity;
  same_ttl = s.same_ttl;
  absent = ground (
    arith,
    s.absent,
    find_key-unlink entry_id e.value.id k d.ll e s.valid.linked.distinct
        (get_last?-find_key d e s.valid.linked last),
  );
}

prune-Spares :
    (now : Time) (k : String) (c : LruCacheTtl)
    → IsValid c
    → find_key entry_id k c.ll ≡ none
    → Spares k c (prune_expired_from_back now c)
unfolding prune_expired_from_back
prune-Spares now k c v e = elim (Bool-cases (ltb_ℤ (pos 0) c.ttl)) [
  | inl q ↦
      rw q (prune_loop_keeps (Spares k c) (prune_element-Spares k c) (length c.ll) now c start)
  | inr q ↦ rw q start
]
  where
    start : Spares k c c
    start = record { valid = v; same_capacity = refl; same_ttl = refl; absent = e }

evict_over_capacity-IsValid :
    (c : LruCacheTtl)
    → IsLinked c.ll c.index c.next
    → pos 1 ≤ℤ c.capacity
    → length c.ll ≤ suc (pos_part c.capacity)
    → c.metrics.cache_size ≡ length c.ll
    → IsValid (evict_over_capacity c)
unfolding evict_over_capacity evict_lru publish_size count_evicted remove_element
evict_over_capacity-IsValid c l p h g = elim (Bool-cases (ltb_ℤ c.capacity (pos (length c.ll)))) [
  | inl over ↦ elim (Option-cases (get_last? c.ll)) [
    | inl e ↦
        let empty : length c.ll ≡ 0 = ap length (eq-nil_of_get_last? c.ll e) in
        absurd (ground arith)
    | inr (back, e) ↦
        let found = get_last?-find_key c back l e in
        let shorter = length-unlink entry_id back.value.id c.ll back l.distinct found in
        rw (over, e, evict_lru)
          (record {
            positive = p;
            bounded = ground arith;
            linked = unlink-IsLinked c.ll c.index c.next back.value.id back found l;
            gauge = refl;
          })
  ]
  | inr fits ↦ rw fits (record { positive = p; bounded = ground arith; linked = l; gauge = g })
]

clone_order-Holds :
    (c : LruCacheTtl) (now : Time) (o : Order) → o.order_uid ≢ "" → Holds (new_entry c now o)
unfolding new_entry clone_order
clone_order-Holds c now o h = record { stored = _; points = refl; own = refl; named = h }

module _ (now : Time) (o : Order) (c : LruCacheTtl) (v : IsValid c) (h : o.order_uid ≢ "") where
  -- Where the identifier is present, the element is overwritten and moved to the front.
  module _ (x : Element Entry) (e : find_key entry_id o.order_uid c.ll ≡ some x) where
    overwritten : Entry
    overwritten = record x.value { order = clone_order (some o); expires_at = expiry_from c now }

    overwritten-new_entry : overwritten ≡ new_entry c now o
    unfolding overwritten new_entry
    overwritten-new_entry =
        ap
          (λ (i : String).
            let r : Entry = record {
              id = i;
              order = clone_order (some o);
              expires_at = expiry_from c now;
            } in
            r)
          (key-find_key entry_id o.order_uid c.ll x e)

    one_less : suc (length (unlink x.address c.ll)) ≡ length c.ll
    one_less = length-unlink entry_id o.order_uid c.ll x v.linked.distinct e

    view-update_element :
        view (update_element now o x c)
        ≡ new_entry c now o ∷ remove_key entry_id o.order_uid (view c)
    unfolding update_element move_to_front overwritten
    view-update_element =
        ap (λ (r : Entry). r ∷ map (λ f. f.value) (unlink x.address c.ll)) overwritten-new_entry
        ∙ ap (◌∷◌ (new_entry c now o)) (map-unlink entry_id o.order_uid c.ll x v.linked.distinct e)

    rest-fits : length (remove_key entry_id o.order_uid (view c)) ≡ length (unlink x.address c.ll)
    rest-fits =
        ap length (sym (map-unlink entry_id o.order_uid c.ll x v.linked.distinct e))
        ∙ length-map (λ (f : Element Entry). f.value) (unlink x.address c.ll)

    update_element-write :
        view (update_element now o x c)
        ≡ take
            (pos_part c.capacity)
            (fresh_entry c.ttl now o ∷ remove_key entry_id o.order_uid (view c))
    update_element-write =
        view-update_element
        ∙ ap (λ (r : Entry). r ∷ remove_key entry_id o.order_uid (view c))
            (new_entry-fresh_entry c now o)
        ∙ sym (take_of_length-le (pos_part c.capacity) _ (ground (arith, rest-fits, one_less)))

    update_element-IsValid : IsValid (update_element now o x c)
    unfolding update_element move_to_front overwritten
    update_element-IsValid = record {
      positive = v.positive;
      bounded = ground (arith, one_less);
      linked =
          move_to_front-IsLinked c.ll c.index c.next o.order_uid x overwritten e refl
            (subst Holds (sym overwritten-new_entry) (clone_order-Holds c now o h)) v.linked;
      gauge = v.gauge ∙ sym one_less;
    }

  module _ (e : find_key entry_id o.order_uid c.ll ≡ none) where
    pruned : LruCacheTtl
    pruned = prune_expired_from_back now c

    spared : Spares o.order_uid c pruned
    unfolding pruned
    spared = prune-Spares now o.order_uid c v e

    pushed : LruCacheTtl
    unfolding pruned publish_size push_front
    pushed = publish_size (push_front now o pruned)

    pushed-IsLinked : IsLinked pushed.ll pushed.index pushed.next
    unfolding pushed new_entry
    pushed-IsLinked =
        push-IsLinked pruned.ll pruned.index pruned.next (new_entry pruned now o) spared.absent
          (clone_order-Holds pruned now o h) spared.valid.linked

    pushed-length : length pushed.ll ≤ suc (pos_part pushed.capacity)
    unfolding pushed
    pushed-length = ground (arith, spared.valid.bounded)

    insert_order-IsValid : IsValid (insert_order now o c)
    unfolding insert_order pushed
    insert_order-IsValid =
        evict_over_capacity-IsValid pushed pushed-IsLinked spared.valid.positive pushed-length refl

    view-pushed : view pushed ≡ fresh_entry c.ttl now o ∷ trim c.ttl now (view c)
    unfolding pushed
    view-pushed =
        ap₂ ◌∷◌
          (new_entry-fresh_entry pruned now o ∙ ap (λ (t : ℤ). fresh_entry t now o) spared.same_ttl)
          (view-prune_expired_from_back now c v)

    view-insert_order :
        view (insert_order now o c)
        ≡ take (pos_part c.capacity) (fresh_entry c.ttl now o ∷ trim c.ttl now (view c))
    unfolding insert_order pushed
    view-insert_order =
        view-evict_over_capacity pushed pushed-IsLinked (ground (arith, spared.valid.positive))
          pushed-length
        ∙ ap₂ (λ (n : ℕ) (s : List Entry). take n s) (ap pos_part spared.same_capacity) view-pushed

  -- On a valid cache `Set` of an order with an identifier does what a write of the abstract cache
  -- does: the order is in front, with a new term, under an identifier that no other entry has;
  -- where the identifier was absent the dead end of the list goes first; and the list is cut to the
  -- capacity.
  pub set_order-write : view (set_order now o c) ≡ write (limits c) now o (view c)
  unfolding set_order write make_room
  set_order-write = elim (Option-cases (find_key entry_id o.order_uid c.ll)) [
    | inl e ↦
        let searched = find_element-find_key o.order_uid c v.linked ∙ e in
        let unseen = find_value-map entry_id o.order_uid c.ll ∙ ap (Option.map (λ f. f.value)) e in
        rw (searched, set_order, unseen, make_room) (view-insert_order e)
    | inr (x, e) ↦
        let searched = find_element-find_key o.order_uid c v.linked ∙ e in
        let seen = find_value-map entry_id o.order_uid c.ll ∙ ap (Option.map (λ f. f.value)) e in
        rw (searched, set_order, seen, make_room) (update_element-write x e)
  ]

  pub set_order-IsValid : IsValid (set_order now o c)
  unfolding set_order
  set_order-IsValid = elim (Option-cases (find_key entry_id o.order_uid c.ll)) [
    | inl e ↦
        rw (find_element-find_key o.order_uid c v.linked ∙ e, set_order) (insert_order-IsValid e)
    | inr (x, e) ↦
        rw (find_element-find_key o.order_uid c v.linked ∙ e, set_order)
          (update_element-IsValid x e)
  ]
