-- ===== src/Cache/Warming.antt =====
-- What `LRUCacheTTL.WarmUp` leaves in a new cache.
use mathlib.Core.List.{append-nil, reverse-cons, reverse-reverse, append_assoc}
use wb_tasks_l.Prelude.{
  take-nil, ℕ, zero, suc, String, ◌≡◌, refl, sym, ap, ◌∙◌, Bool, false, List, [], ◌∷◌, ◌++◌,
  reverse, none, some, ℤ, arith, take, All, All-map_of, All-both, All-reverse, All-take, take-take,
  take-append_take, ◌==◌,
}
use wb_tasks_l.Domain.{Time, Order}
use wb_tasks_l.Ports.{Moment}
use wb_tasks_l.Container.Laws.{find_value}
use wb_tasks_l.Cache.{Entry, LruCacheTtl, new_lru_cache_ttl, set, warm_up, rounds}
use wb_tasks_l.Cache.Invariant.{entry_id, IsValid}
use wb_tasks_l.Cache.Spec.{
  view, Limits, limits, is_dead, drop_while, drop_back, trim, fresh_entry, make_room, write,
}
use wb_tasks_l.Cache.History.{new_lru_cache_ttl-IsValid, limits-set, set-IsValid, set-store, store}

-- Orders that each have an identifier of their own.
abbrev pub IsDistinct : List Order → Type 0
IsDistinct [] = Unit
IsDistinct (o ∷ orders) =
    ((o.order_uid == "") ≡ false)
    × All (λ p. (o.order_uid == p.order_uid) ≡ false) orders
    × IsDistinct orders

module _ (moments : ℕ → Moment) (l : Limits) where
  -- The entries of the orders, from the i-th moment on.
  abbrev pub entries : ℕ → List Order → List Entry
  entries i [] = []
  entries i (o ∷ orders) = fresh_entry l.ttl (moments i).now o ∷ entries (suc i) orders

  -- The writes of the load, on the abstract cache.
  load : ℕ → List Order → List Entry → List Entry
  load i [] s = s
  load i (o ∷ orders) s = load (suc i) orders (write l (moments i).now o s)

  -- Entries whose term lasts through the load.
  abbrev IsAlive : Entry → Type 0
  IsAlive v = (j : ℕ) → is_dead l.ttl (moments j).now v ≡ false

  drop_while-none {ℓ} :
      {A : Type ℓ} (p : A → Bool) (xs : List A) → All (λ x. p x ≡ false) xs → drop_while p xs ≡ xs
  unfolding drop_while
  drop_while-none p [] h = refl
  drop_while-none p (x ∷ xs) h = rw h.0

  trim-alive : (j : ℕ) (s : List Entry) → All IsAlive s → trim l.ttl (moments j).now s ≡ s
  unfolding drop_back
  trim-alive j s h =
      ap reverse (
        drop_while-none (is_dead l.ttl (moments j).now) (reverse s)
          (All-reverse _ s (All-map_of (λ v a. a j) s h)))
      ∙ reverse-reverse s

  find_value-take :
      (k : String) (n : ℕ) (s : List Entry)
      → find_value entry_id k s ≡ none
      → find_value entry_id k (take n s) ≡ none
  unfolding find_value
  find_value-take k zero s h = refl
  find_value-take k (suc n) [] h = refl
  find_value-take k (suc n) (v ∷ s) h = ground (arith, h, find_value-take k n s)

  find_value-other :
      (o p : Order) (now : Time) (s : List Entry)
      → (o.order_uid == p.order_uid) ≡ false
      → find_value entry_id p.order_uid s ≡ none
      → find_value entry_id p.order_uid (fresh_entry l.ttl now o ∷ s) ≡ none
  unfolding find_value
  find_value-other o p now s ne h = ground (arith, ne, h)

  -- A write of an order that is not there.
  write-new :
      (i : ℕ) (o : Order) (s : List Entry)
      → find_value entry_id o.order_uid s ≡ none
      → All IsAlive s
      → write l (moments i).now o s ≡ take l.capacity (fresh_entry l.ttl (moments i).now o ∷ s)
  unfolding write
  write-new i o s new alive = rw (write, make_room, new, trim-alive i s alive)

  load-entries :
      (i : ℕ) (orders : List Order) (s : List Entry)
      → ((i j : ℕ) (o : Order)
          → is_dead l.ttl (moments j).now (fresh_entry l.ttl (moments i).now o) ≡ false)
      → IsDistinct orders
      → All (λ o. find_value entry_id o.order_uid s ≡ none) orders
      → All IsAlive s
      → take l.capacity s ≡ s
      → load i orders s ≡ take l.capacity (reverse (entries i orders) ++ s)
  unfolding load
  load-entries i [] s lasts distinct new alive fits = sym fits
  load-entries i (o ∷ orders) s lasts distinct new alive fits =
      let v = fresh_entry l.ttl (moments i).now o in
      let s' = take l.capacity (v ∷ s) in
      let (_, others, rest) = distinct in
      let unseen : All (λ p. find_value entry_id p.order_uid s' ≡ none) orders =
        All-map_of
          (λ p h.
            find_value-take p.order_uid l.capacity (v ∷ s)
              (find_value-other o p (moments i).now s h.0 h.1))
          orders (All-both _ _ orders others new.1) in
      ap (load (suc i) orders) (write-new i o s new.0 alive)
      ∙ load-entries (suc i) orders s' lasts rest unseen
          (All-take _ l.capacity (v ∷ s) ((λ j. lasts i j o), alive))
          (take-take l.capacity l.capacity (v ∷ s) (omega arith))
      ∙ take-append_take l.capacity l.capacity (reverse (entries (suc i) orders)) (v ∷ s)
          (omega arith)
      ∙ ap (take l.capacity) (
          sym (append_assoc (reverse (entries (suc i) orders)) (v ∷ []) s)
          ∙ ap (λ xs. xs ++ s) (sym (reverse-cons v (entries (suc i) orders))))

  warm_up-load :
      (i : ℕ) (orders : List Order) (c : LruCacheTtl)
      → ((j : ℕ) → (moments j).ctx_err ≡ none)
      → IsDistinct orders
      → IsValid c
      → limits c ≡ l
      → view (warm_up (rounds moments i orders) c).0 ≡ load i orders (view c)
  unfolding warm_up load store
  warm_up-load i [] c running distinct v e = refl
  warm_up-load i (o ∷ orders) c running distinct v e =
      let now = (moments i).now in
      let (same, stored) = set-store now (some o) c v in
      let accepted : (set now (some o) c).1 ≡ none = stored ∙ rw distinct.0 in
      let written : view (set now (some o) c).0 ≡ write l now o (view c) =
        same ∙ rw (distinct.0, e) in
      rw (running i, accepted)
        (warm_up-load (suc i) orders (set now (some o) c).0 running distinct.2
            (set-IsValid now (some o) c v) (limits-set now (some o) c ∙ e)
          ∙ ap (load (suc i) orders) written)

absent : (orders : List Order) → All (λ o. find_value entry_id o.order_uid [] ≡ none) orders
unfolding find_value
absent [] = tt
absent (o ∷ orders) = (refl, absent orders)

-- A load into a new cache that neither an error nor the end of a term interrupts: of orders that
-- each have an identifier of their own, the cache holds the last ones that fit, and the later in
-- the list, the more recently used. So the load of a list that is longer than the capacity keeps
-- its end, not its start.
pub warm_up-entries :
    (moments : ℕ → Moment) (capacity ttl : ℤ) (orders : List Order)
    → (let l = limits (new_lru_cache_ttl capacity ttl) in
        ((j : ℕ) → (moments j).ctx_err ≡ none)
        → ((i j : ℕ) (o : Order)
            → is_dead l.ttl (moments j).now (fresh_entry l.ttl (moments i).now o) ≡ false)
        → IsDistinct orders
        → view (warm_up (rounds moments 0 orders) (new_lru_cache_ttl capacity ttl)).0
          ≡ take l.capacity (reverse (entries moments l 0 orders)))
warm_up-entries moments capacity ttl orders running lasts distinct =
    let c = new_lru_cache_ttl capacity ttl in
    let (v, empty) = new_lru_cache_ttl-IsValid capacity ttl in
    warm_up-load moments (limits c) 0 orders c running distinct v refl
    ∙ ap (load moments (limits c) 0 orders) empty
    ∙ load-entries moments (limits c) 0 orders [] lasts distinct (absent orders) tt
        (take-nil (limits c).capacity)
    ∙ ap (take (limits c).capacity) (append-nil (reverse (entries moments (limits c) 0 orders)))
