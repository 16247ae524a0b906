-- ===== src/Cache/Reads.antt =====
-- `LRUCacheTTL.Get` and the reads of the abstract cache.
use mathlib.Core.Option
use wb_tasks_l.Prelude.{
  String, ◌≡◌, refl, sym, ap, ◌∙◌, ◌≢◌, Bool, false, ◌∷◌, Option, none, some, inl, inr, pos, ltb_ℤ,
  arith, eq_iff, Option-cases, Bool-cases, ◌==◌,
}
use wb_tasks_l.Domain.{Time, Order}
use wb_tasks_l.Container.{Element, move_to_front}
use wb_tasks_l.Container.Laws.{
  find_key, find_value, remove_key, find_value-map, map-unlink, key-find_key, All-find_key,
  length-unlink,
}
use wb_tasks_l.Cache.{
  Entry, LruCacheTtl, is_expired, refresh, expiry_from, remove_element, find_element, publish_size,
  count_hit, count_miss, count_expired, get_element, get,
}
use wb_tasks_l.Cache.Invariant.{
  entry_id, Holds, IsValid, find_element-find_key, unlink-IsLinked, move_to_front-IsLinked,
}
use wb_tasks_l.Cache.Spec.{view, is_dead, renew, read}

abbrev Reply : Type 0
Reply = LruCacheTtl × Option Order × Bool

is_expired-is_dead :
    (c : LruCacheTtl) (now : Time) (v : Entry) → is_expired c v now ≡ is_dead c.ttl now v
unfolding is_expired
is_expired-is_dead c now v = elim (Bool-cases (ltb_ℤ (pos 0) c.ttl)) [ inl q ↦ rw q | inr q ↦ rw q ]

refresh-renew : (c : LruCacheTtl) (now : Time) (v : Entry) → refresh c now v ≡ renew c.ttl now v
unfolding refresh expiry_from
refresh-renew c now v = elim (Bool-cases (ltb_ℤ (pos 0) c.ttl)) [ inl q ↦ rw q | inr q ↦ rw q ]

refresh-id : (c : LruCacheTtl) (now : Time) (v : Entry) → (refresh c now v).id ≡ v.id
unfolding refresh
refresh-id c now v = ground arith

-- The two outcomes of the search.
get_miss :
    (now : Time) (k : String) (c : LruCacheTtl)
    → find_element k c ≡ none
    → get now k c ≡ (count_miss c, none, false)
unfolding get
get_miss now k c e = elim (Bool-cases (k == "")) [ inl q ↦ rw q | inr q ↦ rw (q, e) ]

get_hit :
    (now : Time) (k : String) (c : LruCacheTtl) (x : Element Entry)
    → k ≢ ""
    → find_element k c ≡ some x
    → get now k c ≡ get_element now x c
unfolding get
get_hit now k c x h e = elim (Bool-cases (k == "")) [
  | inl q ↦ absurd (h ((eq_iff k "").0 q))
  | inr q ↦ rw (q, e)
]

module _ (now : Time) (k : String) (c : LruCacheTtl) (x : Element Entry) (v : IsValid c)
    (e : find_key entry_id k c.ll ≡ some x) where
  same_id : x.value.id ≡ k
  same_id = key-find_key entry_id k c.ll x e

  held : Holds x.value
  held = All-find_key entry_id (λ f. Holds f.value) k c.ll x v.linked.holds e

  key-ne-empty : k ≢ ""
  key-ne-empty q = held.named (same_id ∙ q)

  seen : find_value entry_id k (view c) ≡ some x.value
  seen = find_value-map entry_id k c.ll ∙ ap (Option.map (λ f. f.value)) e

  rest_seen : view (remove_element x c) ≡ remove_key entry_id k (view c)
  unfolding remove_element
  rest_seen = map-unlink entry_id k c.ll x v.linked.distinct e

  get_element-read :
      (let g = get_element now x c in
        let r = read c.ttl now k (view c) in (view g.0 ≡ r.0) × (g.1 ≡ r.1) × (g.2 ≡ r.2))
  unfolding get_element read move_to_front count_hit publish_size count_expired remove_element
  get_element-read = elim (Bool-cases (is_dead c.ttl now x.value)) [
    | inl dead ↦
        rw (is_expired-is_dead c now x.value, dead, seen, read, dead) (rest_seen, refl, refl)
    | inr live ↦
        rw (is_expired-is_dead c now x.value, live, seen, read, live, refresh-renew c now x.value)
          (ap (◌∷◌ (renew c.ttl now x.value)) rest_seen, refl, refl)
  ]

  refreshed-Holds : Holds (refresh c now x.value)
  unfolding refresh
  refreshed-Holds = elim (Bool-cases (ltb_ℤ (pos 0) c.ttl)) [
    | inl q ↦
        rw q (record {
          stored = held.stored;
          points = held.points;
          own = held.own;
          named = held.named;
        })
    | inr q ↦ rw q held
  ]

  get_element-IsValid : IsValid (get_element now x c).0
  unfolding get_element move_to_front count_hit publish_size count_expired remove_element
  get_element-IsValid = elim (Bool-cases (is_expired c x.value now)) [
    | inl dead ↦
        let shorter = length-unlink entry_id k c.ll x v.linked.distinct e in
        rw dead (record {
          positive = v.positive;
          bounded = ground arith;
          linked = unlink-IsLinked c.ll c.index c.next k x e v.linked;
          gauge = refl;
        })
    | inr live ↦
        let same = length-unlink entry_id k c.ll x v.linked.distinct e in
        rw live (record {
          positive = v.positive;
          bounded = ground arith;
          linked =
              move_to_front-IsLinked c.ll c.index c.next k x (refresh c now x.value) e
                (refresh-id c now x.value) refreshed-Holds v.linked;
          gauge = v.gauge ∙ sym same;
        })
  ]

module _ (now : Time) (k : String) (c : LruCacheTtl) (v : IsValid c) where
  get_absent : find_key entry_id k c.ll ≡ none → get now k c ≡ (count_miss c, none, false)
  get_absent e = get_miss now k c (find_element-find_key k c v.linked ∙ e)

  get_present :
      (x : Element Entry) → find_key entry_id k c.ll ≡ some x → get now k c ≡ get_element now x c
  get_present x e =
      get_hit now k c x (key-ne-empty now k c x v e) (find_element-find_key k c v.linked ∙ e)

  -- On a valid cache `Get` does what a read of the abstract cache does: the entries are left as it
  -- leaves them, in its order and with its terms, and the order and the Boolean that `Get` returns
  -- are its results.
  pub get-read :
      (view (get now k c).0 ≡ (read c.ttl now k (view c)).0)
      × ((get now k c).1 ≡ (read c.ttl now k (view c)).1)
      × ((get now k c).2 ≡ (read c.ttl now k (view c)).2)
  unfolding read count_miss
  get-read = elim (Option-cases (find_key entry_id k c.ll)) [
    | inl e ↦
        let unseen : find_value entry_id k (view c) ≡ none =
          find_value-map entry_id k c.ll ∙ ap (Option.map (λ f. f.value)) e in
        rw (get_absent e, unseen, read) (refl, refl, refl)
    | inr (x, e) ↦ rw (get_present x e) (get_element-read now k c x v e)
  ]

  -- `Get` keeps the invariant.
  pub get-IsValid : IsValid (get now k c).0
  unfolding count_miss
  get-IsValid = elim (Option-cases (find_key entry_id k c.ll)) [
    | inl e ↦
        rw (get_absent e) (record {
          positive = v.positive;
          bounded = v.bounded;
          linked = v.linked;
          gauge = v.gauge;
        })
    | inr (x, e) ↦ rw (get_present x e) (get_element-IsValid now k c x v e)
  ]
