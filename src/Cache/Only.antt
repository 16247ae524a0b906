-- ===== src/Cache/Only.antt =====
-- The identifiers of the entries that the cache (order_cache.go) holds.
use wb_tasks_l.Prelude.{
  String, ◌≡◌, ◌≢◌, sym, ap, subst, ◌∙◌, Bool, true, List, [], ◌∷◌, reverse, none, some, inl, inr,
  ℤ, pos, ◌+ℤ◌, ltb_ℤ, arith, All, All-map_of, All-map, All-both, All-reverse, All-take, eq_iff,
  Option-cases, Bool-cases, ◌==◌,
}
use wb_tasks_l.Domain.{Time, Order}
use wb_tasks_l.Container.Laws.{find_value, remove_key}
use wb_tasks_l.Cache.{Entry, LruCacheTtl, clone_items, clone_order, get, set}
use wb_tasks_l.Cache.Invariant.{entry_id, Holds, IsValid}
use wb_tasks_l.Cache.Spec.{
  view, limits, is_dead, fresh_entry, drop_while, drop_back, trim, make_room, write, read,
}
use wb_tasks_l.Cache.Reads.{get-read, get-IsValid}
use wb_tasks_l.Cache.History.{set-IsValid, set-store, store}

All-drop_while {ℓ κ} :
    {A : Type ℓ} (P : A → Type κ) (p : A → Bool) (xs : List A) → All P xs → All P (drop_while p xs)
unfolding drop_while
All-drop_while P p [] h = tt
All-drop_while P p (x ∷ xs) h = elim (Bool-cases (p x)) [
  | inl q ↦ rw q (All-drop_while P p xs h.1)
  | inr q ↦ rw q h
]

module _ {κ} (P : Entry → Type κ) where
  All-trim : (ttl : ℤ) (now : Time) (s : List Entry) → All P s → All P (trim ttl now s)
  unfolding drop_back
  All-trim ttl now s h =
      All-reverse P (drop_while (is_dead ttl now) (reverse s))
        (All-drop_while P (is_dead ttl now) (reverse s) (All-reverse P s h))

  All-remove_key : (k : String) (s : List Entry) → All P s → All P (remove_key entry_id k s)
  unfolding remove_key
  All-remove_key k [] h = tt
  All-remove_key k (v ∷ s) h = elim (Bool-cases (v.id == k)) [
    | inl q ↦ rw q (All-remove_key k s h.1)
    | inr q ↦ rw q (h.0, All-remove_key k s h.1)
  ]

  All-find_value :
      (k : String) (s : List Entry) (v : Entry)
      → find_value entry_id k s ≡ some v
      → All P s
      → P v × (v.id ≡ k)
  unfolding find_value
  All-find_value k [] v e h = cc
  All-find_value k (x ∷ s) v e h = elim (Bool-cases (x.id == k)) [
    | inl q ↦
        let same : x ≡ v = ground (arith, e, q) in
        subst (λ y. P y × (y.id ≡ k)) same (h.0, (eq_iff x.id k).0 q)
    | inr q ↦ All-find_value k s v (ground (arith, e, q)) h.1
  ]

  All-make_room :
      (ttl : ℤ) (now : Time) (k : String) (s : List Entry) → All P s → All P (make_room ttl now k s)
  unfolding make_room
  All-make_room ttl now k s h = elim (Option-cases (find_value entry_id k s)) [
    | inl e ↦ rw (e, make_room) (All-trim ttl now s h)
    | inr (v, e) ↦ rw (e, make_room) (All-remove_key k s h)
  ]

ne-remove_key : (k : String) (s : List Entry) → All (λ v. v.id ≢ k) (remove_key entry_id k s)
unfolding remove_key
ne-remove_key k [] = tt
ne-remove_key k (v ∷ s) = elim (Bool-cases (v.id == k)) [
  | inl q ↦ rw q (ne-remove_key k s)
  | inr q ↦ rw q ((λ e. ground (arith, q, e, eq_iff v.id k)), ne-remove_key k s)
]

ne_of_find_value :
    (k : String) (s : List Entry) → find_value entry_id k s ≡ none → All (λ v. v.id ≢ k) s
unfolding find_value
ne_of_find_value k [] e = tt
ne_of_find_value k (v ∷ s) e = elim (Bool-cases (v.id == k)) [
  | inl q ↦ absurd (ground (arith, e, q))
  | inr q ↦ (
    (λ same. ground (arith, q, same, eq_iff v.id k)),
    ne_of_find_value k s (ground (arith, e, q)),
  )
]

ne-make_room :
    (ttl : ℤ) (now : Time) (k : String) (s : List Entry)
    → All (λ v. v.id ≢ k) (make_room ttl now k s)
unfolding make_room
ne-make_room ttl now k s = elim (Option-cases (find_value entry_id k s)) [
  | inl e ↦ rw (e, make_room) (All-trim (λ v. v.id ≢ k) ttl now s (ne_of_find_value k s e))
  | inr (v, e) ↦ rw (e, make_room) (ne-remove_key k s)
]

module _ (now : Time) (c : LruCacheTtl) (valid : IsValid c) where
  module _ (P : Entry → Type 0)
      (kept : (v : Entry) (term : Time) → P v → P (record v { expires_at = term }))
      (all : All P (view c)) (k : String) where
    All-read : All P (read c.ttl now k (view c)).0
    unfolding read
    All-read = elim (Option-cases (find_value entry_id k (view c))) [
      | inl e ↦ rw (e, read) all
      | inr (v, e) ↦
          let rest = All-remove_key P k (view c) all in
          let held = All-find_value P k (view c) v e all in
          elim (Bool-cases (is_dead c.ttl now v)) [
            | inl dead ↦ rw (e, read, dead) rest
            | inr live ↦ elim (Bool-cases (ltb_ℤ (pos 0) c.ttl)) [
              | inl q ↦ rw (e, read, live, q) (kept v (now +ℤ c.ttl) held.0, rest)
              | inr q ↦ rw (e, read, live, q) (held.0, rest)
            ]
          ]
    ]

    -- What holds of every entry, whatever its term, holds of those that `Get` leaves.
    pub get-All : All P (view (get now k c).0)
    get-All = subst (All P) (sym (get-read now k c valid).0) All-read

    -- A hit answers a copy of the order of an entry with the identifier.
    pub get-held :
        (get now k c).2 ≡ true
        → (v : Entry) × P v × Holds v × (v.id ≡ k) × ((get now k c).1 ≡ clone_order v.order)
    unfolding read
    get-held hit =
        let seen = get-read now k c valid in
        let held =
          All-both P Holds (view c) all (All-map Holds (λ e. e.value) c.ll valid.linked.holds) in
        elim (Option-cases (find_value entry_id k (view c))) [
          | inl e ↦ absurd (ground (arith, hit, seen.2, e))
          | inr (v, e) ↦
              let (both, same) = All-find_value (λ x. P x × Holds x) k (view c) v e held in
              elim (Bool-cases (is_dead c.ttl now v)) [
                | inl dead ↦ absurd (ground (arith, hit, seen.2, e, dead))
                | inr live ↦ (v, both.0, both.1, same, ground (arith, seen.1, e, live))
              ]
        ]

  -- What holds of the entry that `Set` writes, and of every other entry, holds of those that it
  -- leaves.
  pub set-All :
      (Q : Entry → Type 0) (o : Order)
      → (o.order_uid ≢ "" → Q (fresh_entry c.ttl now o))
      → All (λ v. v.id ≢ o.order_uid → Q v) (view c)
      → All Q (view (set now (some o) c).0)
  unfolding store write
  set-All Q o new all =
      let others = λ (v : Entry). (v.id ≢ o.order_uid → Q v) in
      elim (Bool-cases (o.order_uid == "")) [
        | inl q ↦
            let unnamed = (eq_iff o.order_uid "").0 q in
            let same : All Q (view c) =
              All-map_of {P = λ v. (v.id ≢ o.order_uid → Q v) × Holds v}
                (λ v h. h.0 (λ e. h.1.named (e ∙ unnamed))) (view c)
                (All-both _ Holds (view c) all
                  (All-map Holds (λ e. e.value) c.ll valid.linked.holds)) in
            subst (All Q) (sym (set-store now (some o) c valid).0) (rw q same)
        | inr q ↦
            let room =
              All-map_of {P = λ v. (v.id ≢ o.order_uid → Q v) × (v.id ≢ o.order_uid)}
                (λ v h. h.0 h.1) (make_room c.ttl now o.order_uid (view c))
                (All-both _ _ (make_room c.ttl now o.order_uid (view c))
                  (All-make_room _ c.ttl now o.order_uid (view c) all)
                  (ne-make_room c.ttl now o.order_uid (view c))) in
            let named : o.order_uid ≢ "" = λ e. ground (arith, q, e, eq_iff o.order_uid "") in
            subst (All Q) (sym (set-store now (some o) c valid).0)
              (rw q (All-take Q (limits c).capacity _ (new named, room)))
      ]

-- A valid cache, all of whose identifiers are of one kind.
abbrev pub HasOnly : (String → Type 0) → LruCacheTtl → Type 0
HasOnly P c = IsValid c × All (λ v. P v.id) (view c)

module _ (P : String → Type 0) (now : Time) (c : LruCacheTtl) (only : HasOnly P c) where
  pub get-HasOnly : (k : String) → HasOnly P (get now k c).0
  get-HasOnly k =
      (get-IsValid now k c only.0, get-All now c only.0 (λ v. P v.id) (λ v term h. h) only.1 k)

  pub get-own :
      (k : String)
      → (get now k c).2 ≡ true
      → (o : Order) × ((get now k c).1 ≡ some o) × (o.order_uid ≡ k) × P k
  unfolding clone_order
  get-own k hit =
      let (v, known, held, same, copy) =
        get-held now c only.0 (λ v. P v.id) (λ v term h. h) only.1 k hit in
      (
        record held.stored { items = clone_items held.stored.items },
        copy ∙ ap clone_order held.points,
        held.own ∙ same,
        subst P same known,
      )

  pub set-HasOnly : (o : Order) → P o.order_uid → HasOnly P (set now (some o) c).0
  set-HasOnly o allowed = (
    set-IsValid now (some o) c only.0,
    set-All now c only.0 (λ v. P v.id) o (λ named. allowed)
        (All-map_of (λ v known other. known) (view c) only.1),
  )
