-- ===== src/Cache/Promises.antt =====
-- What a client of the cache may rely on: reads after writes, expiry, and the frame of a call.
use wb_tasks_l.Prelude.{
  suc, ◌<◌, ◌-◌, String, ◌≡◌, refl, sym, ap, ◌∙◌, ◌≢◌, ◌⊎◌, true, false, List, [], ◌∷◌, Option,
  none, some, inl, inr, ℤ, pos, ◌+ℤ◌, ◌≤ℤ◌, ◌<ℤ◌, arith, eq_iff, eq_refl, Bool-cases, Option-cases,
  ◌==◌,
}
use wb_tasks_l.Domain.{Time, Item, Order}
use wb_tasks_l.Container.Laws.{find_value, remove_key}
use wb_tasks_l.Cache.{Entry, LruCacheTtl, clone_items, clone_order, get, set_order, set}
use wb_tasks_l.Cache.Invariant.{entry_id, IsValid}
use wb_tasks_l.Cache.Spec.{view, Limits, limits, is_dead, renew, read, fresh_entry, write}
use wb_tasks_l.Cache.Reads.{get-read, get-IsValid}
use wb_tasks_l.Cache.History.{limits-get, limits-set}
use wb_tasks_l.Cache.Writes.{set_order-write, set_order-IsValid}

-- A write puts its entry in front, where a cache holds at least one.
find_value-write :
    (l : Limits) (now : Time) (o : Order) (s : List Entry)
    → 0 < l.capacity
    → find_value entry_id o.order_uid (write l now o s) ≡ some (fresh_entry l.ttl now o)
unfolding find_value write
find_value-write l now o s h =
    let n : l.capacity ≡ suc (l.capacity - 1) = omega arith in rw (n, eq_refl o.order_uid)

-- A read of a live entry, and of a dead one.
read_live :
    (ttl : ℤ) (now : Time) (k : String) (s : List Entry) (v : Entry)
    → find_value entry_id k s ≡ some v
    → is_dead ttl now v ≡ false
    → ((read ttl now k s).1 ≡ clone_order v.order) × ((read ttl now k s).2 ≡ true)
unfolding read
read_live ttl now k s v e live = rw (e, read, live) (refl, refl)

find_value-remove_key :
    (k : String) (s : List Entry) → find_value entry_id k (remove_key entry_id k s) ≡ none
unfolding find_value remove_key
find_value-remove_key k [] = refl
find_value-remove_key k (v ∷ s) = ground (arith, find_value-remove_key k s)

read_dead :
    (ttl : ℤ) (now : Time) (k : String) (s : List Entry) (v : Entry)
    → find_value entry_id k s ≡ some v
    → is_dead ttl now v ≡ true
    → ((read ttl now k s).1 ≡ none)
      × ((read ttl now k s).2 ≡ false)
      × (find_value entry_id k (read ttl now k s).0 ≡ none)
unfolding read
read_dead ttl now k s v e dead = rw (e, read, dead) (refl, refl, find_value-remove_key k s)

-- A copy differs from its original only where the slice of items is empty and not nil.
pub clone_order_same : (o : Order) → o.items ≢ some [] → clone_order (some o) ≡ some o
unfolding clone_order
clone_order_same o h = ap (λ items. some (record o { items = items })) (same o.items h)
  where
    same : (xs : Option (List Item)) → xs ≢ some [] → clone_items xs ≡ xs
    same none h = refl
    same (some []) h = absurd (h refl)
    same (some (x ∷ xs)) h = refl

fresh_entry_live :
    (ttl : ℤ) (now later : Time) (o : Order)
    → (ttl ≤ℤ pos 0) ⊎ (later ≤ℤ now +ℤ ttl)
    → is_dead ttl later (fresh_entry ttl now o) ≡ false
fresh_entry_live ttl now later o h = ground arith

module _ (now : Time) (o : Order) (c : LruCacheTtl) (v : IsValid c) (h : o.order_uid ≢ "") where
  set_named : set now (some o) c ≡ (set_order now o c, none)
  unfolding set
  set_named = elim (Bool-cases (o.order_uid == "")) [
    | inl q ↦ absurd (h ((eq_iff o.order_uid "").0 q))
    | inr q ↦ rw q
  ]

  -- What `Set` stores, `Get` returns: on a valid cache, for an order with an identifier whose slice
  -- of items is not empty without being nil, a read at any time up to the end of the term (at any
  -- time, if the cache has no TTL) is a hit and returns the order itself.
  pub get-set :
      (later : Time)
      → o.items ≢ some []
      → (c.ttl ≤ℤ pos 0) ⊎ (later ≤ℤ now +ℤ c.ttl)
      → (let g = get later o.order_uid (set now (some o) c).0 in (g.1 ≡ some o) × (g.2 ≡ true))
  get-set later full term_runs = rw set_named ((got.1 ∙ hit.0 ∙ copy), (got.2 ∙ hit.1))
    where
      c' : LruCacheTtl
      c' = set_order now o c

      same_ttl : c'.ttl ≡ c.ttl
      same_ttl =
          ap (λ l. l.ttl) (ap limits (ap (λ r. r.0) (sym set_named)) ∙ limits-set now (some o) c)

      got :
          (view (get later o.order_uid c').0 ≡ (read c'.ttl later o.order_uid (view c')).0)
          × ((get later o.order_uid c').1 ≡ (read c'.ttl later o.order_uid (view c')).1)
          × ((get later o.order_uid c').2 ≡ (read c'.ttl later o.order_uid (view c')).2)
      got = get-read later o.order_uid c' (set_order-IsValid now o c v h)

      found : find_value entry_id o.order_uid (view c') ≡ some (fresh_entry c.ttl now o)
      found =
          ap (find_value entry_id o.order_uid) (set_order-write now o c v h)
          ∙ find_value-write (limits c) now o (view c) (ground (arith, v.positive))

      live : is_dead c'.ttl later (fresh_entry c.ttl now o) ≡ false
      live =
          ap (λ t. is_dead t later (fresh_entry c.ttl now o)) same_ttl
          ∙ fresh_entry_live c.ttl now later o term_runs

      hit :
          ((read c'.ttl later o.order_uid (view c')).1 ≡ clone_order (clone_order (some o)))
          × ((read c'.ttl later o.order_uid (view c')).2 ≡ true)
      hit = read_live c'.ttl later o.order_uid (view c') (fresh_entry c.ttl now o) found live

      copy : clone_order (clone_order (some o)) ≡ some o
      copy = ap clone_order (clone_order_same o full) ∙ clone_order_same o full

-- `Get` changes nothing that a read of another identifier can see.
find_value-remove_key_ne :
    (k j : String) (s : List Entry)
    → j ≢ k
    → find_value entry_id j (remove_key entry_id k s) ≡ find_value entry_id j s
unfolding find_value remove_key
find_value-remove_key_ne k j [] h = refl
find_value-remove_key_ne k j (v ∷ s) h =
    ground (arith, eq_iff v.id k, eq_iff v.id j, find_value-remove_key_ne k j s h)

find_value-skip :
    (j : String) (v : Entry) (s : List Entry)
    → v.id ≢ j
    → find_value entry_id j (v ∷ s) ≡ find_value entry_id j s
unfolding find_value
find_value-skip j v s h = ground (arith, eq_iff v.id j)

id-find_value :
    (k : String) (s : List Entry) (v : Entry) → find_value entry_id k s ≡ some v → v.id ≡ k
unfolding find_value
id-find_value k [] v e = cc
id-find_value k (w ∷ s) v e = ground (arith, eq_iff w.id k, id-find_value k s v)

renew-id : (ttl : ℤ) (now : Time) (v : Entry) → (renew ttl now v).id ≡ v.id
renew-id ttl now v = ground arith

read_absent :
    (ttl : ℤ) (now : Time) (k : String) (s : List Entry)
    → find_value entry_id k s ≡ none
    → ((read ttl now k s).1 ≡ none) × ((read ttl now k s).2 ≡ false)
unfolding read
read_absent ttl now k s e = rw (e, read) (refl, refl)

find_value-read_ne :
    (ttl : ℤ) (now : Time) (k j : String) (s : List Entry)
    → j ≢ k
    → find_value entry_id j (read ttl now k s).0 ≡ find_value entry_id j s
unfolding read
find_value-read_ne ttl now k j s h = elim (Option-cases (find_value entry_id k s)) [
  | inl e ↦ rw (e, read)
  | inr (v, e) ↦ elim (Bool-cases (is_dead ttl now v)) [
    | inl dead ↦ rw (e, read, dead) (find_value-remove_key_ne k j s h)
    | inr live ↦
        rw (e, read, live)
          (find_value-skip j (renew ttl now v) (remove_key entry_id k s)
              (λ q. h (sym q ∙ renew-id ttl now v ∙ id-find_value k s v e))
            ∙ find_value-remove_key_ne k j s h)
  ]
]

-- The results of a read depend on the entry under the identifier alone.
read_of_find_value :
    (ttl : ℤ) (now : Time) (k : String) (s s' : List Entry)
    → find_value entry_id k s ≡ find_value entry_id k s'
    → ((read ttl now k s).1 ≡ (read ttl now k s').1)
      × ((read ttl now k s).2 ≡ (read ttl now k s').2)
unfolding read
read_of_find_value ttl now k s s' h = elim (Option-cases (find_value entry_id k s')) [
  | inl e ↦ rw (h ∙ e, e, read) (refl, refl)
  | inr (v, e) ↦ elim (Bool-cases (is_dead ttl now v)) [
    | inl dead ↦ rw (h ∙ e, e, read, dead) (refl, refl)
    | inr live ↦ rw (h ∙ e, e, read, live) (refl, refl)
  ]
]

-- A dead entry is never returned: on a valid cache with a TTL, if the entry under `k` has its end
-- before `now`, then `Get` returns no order, and so does a `Get` of `k` that follows it, at any
-- time.
pub get_expired :
    (now later : Time) (k : String) (c : LruCacheTtl) (e : Entry)
    → IsValid c
    → pos 1 ≤ℤ c.ttl
    → find_value entry_id k (view c) ≡ some e
    → e.expires_at <ℤ now
    → (let (c', order, found) = get now k c in
        (order ≡ none)
        × (found ≡ false)
        × ((get later k c').1 ≡ none)
        × ((get later k c').2 ≡ false))
get_expired now later k c e v t found late =
    let (entries, order, answered) = get-read now k c v in
    let dead : is_dead c.ttl now e ≡ true = ground arith in
    let (no_order, no_answer, gone) = read_dead c.ttl now k (view c) e found dead in
    let c' = (get now k c).0 in
    let absent = ap (find_value entry_id k) entries ∙ gone in
    let (entries', order', answered') = get-read later k c' (get-IsValid now k c v) in
    let (none', false') = read_absent c'.ttl later k (view c') absent in
    (order ∙ no_order, answered ∙ no_answer, order' ∙ none', answered' ∙ false')

-- A read of one identifier does not change what a read of another returns, at any times, although
-- it changes the order of the entries and may drop a dead one.
pub get-get_ne :
    (now later : Time) (k j : String) (c : LruCacheTtl)
    → IsValid c
    → j ≢ k
    → (let c' = (get now k c).0 in
        ((get later j c').1 ≡ (get later j c).1) × ((get later j c').2 ≡ (get later j c).2))
get-get_ne now later k j c v h =
    let c' = (get now k c).0 in
    let (entries, _, _) = get-read now k c v in
    let (_, order, found) = get-read later j c v in
    let (_, order', found') = get-read later j c' (get-IsValid now k c v) in
    let same = ap (find_value entry_id j) entries ∙ find_value-read_ne c.ttl now k j (view c) h in
    let ttl : c'.ttl ≡ c.ttl = ap (λ l. l.ttl) (limits-get now k c) in
    let (same_order, same_found) = read_of_find_value c'.ttl later j (view c') (view c) same in
    (
      order' ∙ same_order ∙ ap (λ t. (read t later j (view c)).1) ttl ∙ sym order,
      found' ∙ same_found ∙ ap (λ t. (read t later j (view c)).2) ttl ∙ sym found,
    )
