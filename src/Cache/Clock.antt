-- ===== src/Cache/Clock.antt =====
-- The terms of the entries of the cache (order_cache.go) where the clock does not run backwards
-- between the calls.
use mathlib.Core.List.{reverse-cons, reverse-reverse}
use wb_tasks_l.Prelude.{
  ℕ, zero, suc, String, ◌≡◌, refl, sym, ap, subst, ◌≢◌, true, false, List, [], ◌∷◌, ◌++◌, reverse,
  Option, none, some, inl, inr, ℤ, pos, pos_part, ltb_ℤ, ◌+ℤ◌, +ℤ_parts, int_laws, ◌≤ℤ◌, arith, All,
  All-map_of, All-append, take, Bool-cases, Option-cases, ◌==◌,
}
use wb_tasks_l.Domain.{Time, Order}
use wb_tasks_l.Container.Laws.{find_value, remove_key}
use wb_tasks_l.Cache.{Entry, LruCacheTtl, set_order, new_lru_cache_ttl}
use wb_tasks_l.Cache.Invariant.{entry_id, IsValid}
use wb_tasks_l.Cache.Spec.{view, Limits, limits, is_dead, trim, read, fresh_entry, make_room, write}
use wb_tasks_l.Cache.Trim.{drop_back-nil, drop_back-concat}
use wb_tasks_l.Cache.Writes.{set_order-write}
use wb_tasks_l.Cache.History.{
  Call, gets, sets, run, run_abstract, store, run-run_abstract, limits-run, run-IsValid,
  new_lru_cache_ttl-IsValid,
}

-- The terms fall along the list, from a bound on.
abbrev pub Falls : ℤ → List Entry → Type 0
Falls bound [] = Unit {0}
Falls bound (v ∷ s) = (v.expires_at ≤ℤ bound) × Falls v.expires_at s

Falls-mono : (a b : ℤ) (s : List Entry) → a ≤ℤ b → Falls a s → Falls b s
Falls-mono a b [] h f = tt
Falls-mono a b (v ∷ s) h f = (omega arith, f.1)

Falls-remove_key :
    (k : String) (b : ℤ) (s : List Entry) → Falls b s → Falls b (remove_key entry_id k s)
unfolding remove_key
Falls-remove_key k b [] f = tt
Falls-remove_key k b (v ∷ s) f =
    let rest = Falls-remove_key k v.expires_at s f.1 in
    ground (arith, rest, Falls-mono v.expires_at b (remove_key entry_id k s))

Falls-take : (n : ℕ) (b : ℤ) (s : List Entry) → Falls b s → Falls b (take n s)
Falls-take zero b s f = tt
Falls-take (suc n) b [] f = tt
Falls-take (suc n) b (v ∷ s) f = (f.0, Falls-take n v.expires_at s f.1)

-- Before the last entry, every term is at least its term.
Falls-concat :
    (b : ℤ) (s : List Entry) (v : Entry)
    → Falls b (s ++ v ∷ [])
    → Falls b s × (v.expires_at ≤ℤ b) × All (λ w. v.expires_at ≤ℤ w.expires_at) s
Falls-concat b [] v f = (tt, f.0, tt)
Falls-concat b (w ∷ s) v f =
    let (rest, last, all) = Falls-concat w.expires_at s v f.1 in
    ((f.0, rest), omega arith, (last, all))

module _ (ttl : ℤ) (now : Time) where
  abbrev IsLive : Entry → Type 0
  IsLive v = is_dead ttl now v ≡ false

  later-IsLive : (v w : Entry) → IsLive v → v.expires_at ≤ℤ w.expires_at → IsLive w
  later-IsLive v w l h = ground arith

  -- Of a list with falling terms, what is left when the dead end is dropped is live.
  trim-reverse :
      (b : ℤ) (r : List Entry)
      → Falls b (reverse r)
      → Falls b (trim ttl now (reverse r)) × All IsLive (trim ttl now (reverse r))
  trim-reverse b [] f = rw (drop_back-nil (is_dead ttl now) [] refl) (tt, tt)
  trim-reverse b (v ∷ r) f =
      let e = reverse-cons v r in
      let (front, last, all) = Falls-concat b (reverse r) v (subst (Falls b) e f) in
      rw (e, drop_back-concat (is_dead ttl now) (reverse r) v)
        (elim (Bool-cases (is_dead ttl now v)) [
          | inl dead ↦ rw dead (trim-reverse b r front)
          | inr live ↦ rw live (
            subst (Falls b) e f,
            All-append IsLive (reverse r) (v ∷ [])
                (All-map_of (λ w h. later-IsLive v w live h) (reverse r) all) (live, tt),
          )
        ])

  trim-All :
      (b : ℤ) (s : List Entry) → Falls b s → Falls b (trim ttl now s) × All IsLive (trim ttl now s)
  trim-All b s f =
      subst (λ s. Falls b (trim ttl now s) × All IsLive (trim ttl now s)) (reverse-reverse s)
        (trim-reverse b (reverse s) (subst (Falls b) (sym (reverse-reverse s)) f))

-- Terms after a read and after a write at a time that is not before the last one.
module _ (last now : Time) (onward : last ≤ℤ now) (ttl : ℤ) (t : pos 1 ≤ℤ ttl) where
  mortal : ltb_ℤ (pos 0) ttl ≡ true
  mortal = ground arith

  Falls-now : (s : List Entry) → Falls (last +ℤ ttl) s → Falls (now +ℤ ttl) s
  Falls-now s f = Falls-mono (last +ℤ ttl) (now +ℤ ttl) s (omega int_laws) f

  Falls-read :
      (k : String) (s : List Entry)
      → Falls (last +ℤ ttl) s
      → Falls (now +ℤ ttl) (read ttl now k s).0
  unfolding read
  Falls-read k s f =
      let rest = Falls-remove_key k (now +ℤ ttl) s (Falls-now s f) in
      elim (Option-cases (find_value entry_id k s)) [
        | inl e ↦ rw (e, read) (Falls-now s f)
        | inr (v, e) ↦ elim (Bool-cases (is_dead ttl now v)) [
          | inl dead ↦ rw (e, read, dead) rest
          | inr live ↦ rw (e, read, live, mortal) (omega arith, rest)
        ]
      ]

  Falls-make_room :
      (k : String) (s : List Entry)
      → Falls (last +ℤ ttl) s
      → Falls (now +ℤ ttl) (make_room ttl now k s)
  unfolding make_room
  Falls-make_room k s f = elim (Option-cases (find_value entry_id k s)) [
    | inl e ↦ rw (e, make_room) (trim-All ttl now (now +ℤ ttl) s (Falls-now s f)).0
    | inr (v, e) ↦ rw (e, make_room) (Falls-remove_key k (now +ℤ ttl) s (Falls-now s f))
  ]

  Falls-write :
      (capacity : ℕ) (o : Order) (s : List Entry)
      → Falls (last +ℤ ttl) s
      → Falls (now +ℤ ttl) (write (record { capacity = capacity; ttl = ttl }) now o s)
  unfolding write
  Falls-write capacity o s f =
      Falls-take capacity (now +ℤ ttl) _ (rw mortal (omega arith, Falls-make_room o.order_uid s f))

  Falls-store :
      (capacity : ℕ) (order : Option Order) (s : List Entry)
      → Falls (last +ℤ ttl) s
      → Falls (now +ℤ ttl) (store (record { capacity = capacity; ttl = ttl }) now order s).0
  unfolding store
  Falls-store capacity none s f = Falls-now s f
  Falls-store capacity (some o) s f = elim (Bool-cases (o.order_uid == "")) [
    | inl q ↦ rw q (Falls-now s f)
    | inr q ↦ rw q (Falls-write capacity o s f)
  ]

  All-take : (n : ℕ) (s : List Entry) → All (IsLive ttl now) s → All (IsLive ttl now) (take n s)
  All-take zero s a = tt
  All-take (suc n) [] a = tt
  All-take (suc n) (v ∷ s) a = (a.0, All-take n s a.1)

  -- A write of a new identifier leaves only live entries.
  All-write :
      (capacity : ℕ) (o : Order) (s : List Entry)
      → find_value entry_id o.order_uid s ≡ none
      → Falls (last +ℤ ttl) s
      → All (IsLive ttl now) (write (record { capacity = capacity; ttl = ttl }) now o s)
  unfolding write make_room
  All-write capacity o s e f =
      All-take capacity _
        (new_live, rw (e, make_room) (trim-All ttl now (now +ℤ ttl) s (Falls-now s f)).1)
    where
      new_live : IsLive ttl now (fresh_entry ttl now o)
      new_live = rw mortal (ground (arith, +ℤ_parts now ttl))

-- The time of the last call, and calls whose times do not fall.
abbrev pub time_of : Call → Time
time_of (gets now k) = now
time_of (sets now order) = now

abbrev pub end_of : Time → List Call → Time
end_of t [] = t
end_of t (call ∷ calls) = end_of (time_of call) calls

abbrev pub Onward : Time → List Call → Type 0
Onward t [] = Unit {0}
Onward t (call ∷ calls) = (t ≤ℤ time_of call) × Onward (time_of call) calls

run_abstract-Falls :
    (l : Limits) (last : Time) (calls : List Call) (s : List Entry)
    → pos 1 ≤ℤ l.ttl
    → Onward last calls
    → Falls (last +ℤ l.ttl) s
    → Falls (end_of last calls +ℤ l.ttl) (run_abstract l calls s).0
unfolding run_abstract
run_abstract-Falls l last [] s t h f = f
run_abstract-Falls l last (gets now k ∷ calls) s t h f =
    run_abstract-Falls l now calls _ t h.1 (Falls-read last now h.0 l.ttl t k s f)
run_abstract-Falls l last (sets now order ∷ calls) s t h f =
    run_abstract-Falls l now calls _ t h.1 (Falls-store last now h.0 l.ttl t l.capacity order s f)

IsLive-le :
    (ttl : ℤ) (now : Time) (e : Entry) → pos 1 ≤ℤ ttl → IsLive ttl now e → now ≤ℤ e.expires_at
IsLive-le ttl now e t live = ground arith

-- A cache built with a TTL, after a history of calls.
module _ (capacity ttl : ℤ) (calls : List Call) where
  used : LruCacheTtl
  used = (run calls (new_lru_cache_ttl capacity ttl)).0

  used-IsValid : IsValid used
  unfolding used
  used-IsValid = run-IsValid calls _ (new_lru_cache_ttl-IsValid capacity ttl).0

  used-ttl : used.ttl ≡ ttl
  unfolding used new_lru_cache_ttl
  used-ttl = ap (λ l. l.ttl) (limits-run calls (new_lru_cache_ttl capacity ttl))

  used-Falls :
      (start : Time)
      → pos 1 ≤ℤ ttl
      → Onward start calls
      → Falls (end_of start calls +ℤ ttl) (view used)
  unfolding used
  used-Falls start t h =
      let new = new_lru_cache_ttl capacity ttl in
      let (valid, empty) = new_lru_cache_ttl-IsValid capacity ttl in
      let kept : (limits new).ttl ≡ ttl = unfold new_lru_cache_ttl in refl in
      rw ((run-run_abstract calls new valid).0, empty)
        (subst (λ x. Falls (end_of start calls +ℤ x) (run_abstract (limits new) calls []).0) kept
          (run_abstract-Falls (limits new) start calls [] (subst (λ x. pos 1 ≤ℤ x) (sym kept) t) h
            tt))

-- Where the clock does not run backwards, no dead entry stays beside a new one: after a history of
-- calls with times that do not fall, on a cache built with a TTL, a `Set` of an order with an
-- identifier that is not in the cache, at a time that is not before the last call, leaves only
-- entries whose end is not past.
pub set_order_leaves_live :
    (capacity ttl : ℤ) (start now : Time) (calls : List Call) (o : Order)
    → pos 1 ≤ℤ ttl
    → Onward start calls
    → end_of start calls ≤ℤ now
    → o.order_uid ≢ ""
    → find_value entry_id o.order_uid (view (run calls (new_lru_cache_ttl capacity ttl)).0) ≡ none
    → All
        (λ e. now ≤ℤ e.expires_at)
        (view (set_order now o (run calls (new_lru_cache_ttl capacity ttl)).0))
unfolding used
set_order_leaves_live capacity ttl start now calls o t h onward named absent =
    let c = used capacity ttl calls in
    let same = used-ttl capacity ttl calls in
    let mortal' = subst (λ x. pos 1 ≤ℤ x) (sym same) t in
    let falls =
      subst (λ x. Falls (end_of start calls +ℤ x) (view c)) (sym same)
        (used-Falls capacity ttl calls start t h) in
    let live =
      All-write (end_of start calls) now onward c.ttl mortal' (pos_part c.capacity) o (view c)
        absent falls in
    rw (set_order-write now o c (used-IsValid capacity ttl calls) named)
      (All-map_of (λ e. IsLive-le c.ttl now e mortal') _ live)
