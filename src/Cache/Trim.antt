-- ===== src/Cache/Trim.antt =====
-- What leaves the cache from the back: the dead entries of `pruneExpiredFromBack`, and `evictLRU`.
use mathlib.Core.List.{reverse-append, reverse-reverse, map-append}
use wb_tasks_l.Prelude.{
  ℕ, zero, suc, ◌≤◌, ◌≡◌, refl, sym, ap, ◌∙◌, fun_ext, Bool, false, List, [], ◌∷◌, ◌++◌, map,
  reverse, some, inl, inr, pos, pos_part, ltb_ℤ, ◌≤ℤ◌, arith, length, get_last?, take, take-concat,
  take_of_length-le, length-map, eq-nil_of_length, eq-nil_of_get_last?, Option-cases, Bool-cases,
  if◌then◌else◌,
}
use wb_tasks_l.Domain.{Time}
use wb_tasks_l.Container.{Element, unlink}
use wb_tasks_l.Container.Laws.{length-unlink, unlink-get_last?}
use wb_tasks_l.Cache.{
  Entry, LruCacheTtl, is_after, evict_lru, prune_element, prune_loop, prune_expired_from_back,
  evict_over_capacity,
}
use wb_tasks_l.Cache.Invariant.{
  entry_id, IsLinked, IsValid, get_last?-find_key, prune_element-IsValid, length-prune_element,
}
use wb_tasks_l.Cache.Spec.{view, is_dead, drop_while, drop_back, trim}

-- The last entry is split off.
view-unlink :
    (c : LruCacheTtl) (e : Element Entry)
    → IsLinked c.ll c.index c.next
    → get_last? c.ll ≡ some e
    → view c ≡ map (λ f. f.value) (unlink e.address c.ll) ++ e.value ∷ []
view-unlink c e l last =
    ap (map (λ f. f.value)) (unlink-get_last? entry_id c.ll e l.distinct last)
    ∙ map-append (λ (f : Element Entry). f.value) (unlink e.address c.ll) (e ∷ [])

module _ {ℓ} {A : Type ℓ} (p : A → Bool) where
  pub drop_back-nil : (xs : List A) → xs ≡ [] → drop_back p xs ≡ xs
  unfolding drop_back
  drop_back-nil xs e = rw e

  pub drop_back-concat :
      (xs : List A) (y : A)
      → drop_back p (xs ++ y ∷ []) ≡ (if p y then drop_back p xs else xs ++ y ∷ [])
  unfolding drop_back
  drop_back-concat xs y = rw (reverse-append xs (y ∷ [])) (elim (Bool-cases (p y)) [
    | inl drop ↦ rw drop
    | inr keep ↦
        rw keep (reverse-append (y ∷ []) (reverse xs) ∙ ap (λ l. l ++ y ∷ []) (reverse-reverse xs))
  ])

drop_back-false {ℓ} : {A : Type ℓ} (xs : List A) → drop_back (λ x. false) xs ≡ xs
unfolding drop_back drop_while
drop_back-false {A} xs = kept (reverse xs) ∙ reverse-reverse xs
  where
    kept : (ys : List A) → reverse (drop_while (λ x. false) ys) ≡ reverse ys
    kept [] = refl
    kept (y ∷ ys) = refl

abbrev is_late : Time → Entry → Bool
is_late now v = is_after now v.expires_at

view-prune_loop :
    (rounds : ℕ) (now : Time) (c : LruCacheTtl)
    → IsValid c
    → length c.ll ≤ rounds
    → view (prune_loop rounds now c) ≡ drop_back (is_late now) (view c)
unfolding prune_loop prune_element
view-prune_loop zero now c v h =
    sym (drop_back-nil _ (view c) (ap (map (λ f. f.value)) (eq-nil_of_length c.ll h)))
view-prune_loop (suc rounds) now c v h = elim (Option-cases (get_last? c.ll)) [
  | inl e ↦
      rw (e, prune_loop)
        (sym (drop_back-nil _ (view c) (ap (map (λ f. f.value)) (eq-nil_of_get_last? c.ll e))))
  | inr (back, e) ↦
      let split = view-unlink c back v.linked e in
      let shorter = map (λ f. f.value) (unlink back.address c.ll) in
      let cut =
        ap (drop_back (is_late now)) split ∙ drop_back-concat (is_late now) shorter back.value in
      elim (Bool-cases (is_late now back.value)) [
        | inl late ↦
            let c' = prune_element back c in
            let fits : length c'.ll ≤ rounds =
              omega (arith, length-prune_element c back v.linked e) in
            let ih = view-prune_loop rounds now c' (prune_element-IsValid c back e v) fits in
            rw (e, prune_loop, late) (ih ∙ sym (cut ∙ (rw late)))
        | inr fresh ↦ rw (e, prune_loop, fresh) (sym (cut ∙ (rw fresh (sym split))))
      ]
]

-- On a valid cache pruning takes exactly the longest end of expired entries off the list, and
-- leaves the rest as it is: the loop has rounds enough. Without a TTL nothing is taken off.
pub view-prune_expired_from_back :
    (now : Time) (c : LruCacheTtl)
    → IsValid c
    → view (prune_expired_from_back now c) ≡ trim c.ttl now (view c)
unfolding prune_expired_from_back
view-prune_expired_from_back now c v = elim (Bool-cases (ltb_ℤ (pos 0) c.ttl)) [
  | inl mortal ↦
      let late : is_dead c.ttl now ≡ is_late now = fun_ext λ e. rw mortal in
      rw mortal (
        view-prune_loop (length c.ll) now c v (omega arith)
        ∙ sym (ap (λ p. drop_back p (view c)) late))
  | inr immortal ↦
      let never : is_dead c.ttl now ≡ (λ e. false) = fun_ext λ e. rw immortal in
      rw immortal (sym (drop_back-false (view c)) ∙ sym (ap (λ p. drop_back p (view c)) never))
]

-- One entry too many is the last one.
pub view-evict_over_capacity :
    (c : LruCacheTtl)
    → IsLinked c.ll c.index c.next
    → pos 0 ≤ℤ c.capacity
    → length c.ll ≤ suc (pos_part c.capacity)
    → view (evict_over_capacity c) ≡ take (pos_part c.capacity) (view c)
unfolding evict_over_capacity evict_lru
view-evict_over_capacity c l h k = elim (Bool-cases (ltb_ℤ c.capacity (pos (length c.ll)))) [
  | inl over ↦ elim (Option-cases (get_last? c.ll)) [
    | inl e ↦
        let empty : length c.ll ≡ 0 = ap length (eq-nil_of_get_last? c.ll e) in
        absurd (ground arith)
    | inr (back, e) ↦
        let split = view-unlink c back l e in
        let shorter = map (λ f. f.value) (unlink back.address c.ll) in
        let exact : pos_part c.capacity ≡ length shorter = ground (
          arith,
          length-map (λ (f : Element Entry). f.value) (unlink back.address c.ll),
          length-unlink entry_id back.value.id c.ll back l.distinct (get_last?-find_key c back l e),
        ) in
        rw (over, e, evict_lru)
          (sym
            (ap (take (pos_part c.capacity)) split ∙ (rw exact (take-concat shorter back.value))))
  ]
  | inr fits ↦ rw fits (
      sym (
        take_of_length-le _ (view c)
          (ground (arith, length-map (λ (e : Element Entry). e.value) c.ll))))
]
