-- ===== src/Cache/Spec.antt =====
-- The cache as its clients see it: a list of entries, most recently used first. There are no
-- addresses and no index, and the whole of `Set` is one line.
use wb_tasks_l.Prelude.{
  ℕ, String, Bool, true, false, List, [], ◌∷◌, map, reverse, Option, none, some, ℤ, pos, pos_part,
  ◌+ℤ◌, ltb_ℤ, take, if◌then◌else◌,
}
use wb_tasks_l.Domain.{Time, Order}
use wb_tasks_l.Container.Laws.{find_value, remove_key}
use wb_tasks_l.Cache.{Entry, LruCacheTtl, clone_order}
use wb_tasks_l.Cache.Invariant.{entry_id}

abbrev pub view : LruCacheTtl → List Entry
view c = map (λ e. e.value) c.ll

-- The parameters of a cache.
pub record Limits : Type 0 where
  pub capacity : ℕ
  pub ttl : ℤ

abbrev pub limits : LruCacheTtl → Limits
limits c = record { capacity = pos_part c.capacity; ttl = c.ttl }

-- An entry is dead from the instant after its term, if entries have terms at all.
abbrev pub is_dead : ℤ → Time → Entry → Bool
is_dead ttl now v = if ltb_ℤ (pos 0) ttl then ltb_ℤ v.expires_at now else false

abbrev pub term : ℤ → Time → Time
term ttl now = if ltb_ℤ (pos 0) ttl then now +ℤ ttl else pos 0

unfoldable pub drop_while {ℓ} : {A : Type ℓ} → (A → Bool) → List A → List A
drop_while p [] = []
drop_while p (x ∷ xs) = let rest = drop_while p xs in if p x then rest else x ∷ xs

-- The list without the longest end that meets a test.
unfoldable pub drop_back {ℓ} : {A : Type ℓ} → (A → Bool) → List A → List A
unfolding drop_while
drop_back p xs = reverse (drop_while p (reverse xs))

-- The dead entries at the end of the list are dropped.
abbrev pub trim : ℤ → Time → List Entry → List Entry
trim ttl now s = drop_back (is_dead ttl now) s

-- What a read does: a hit moves to the front, with a new term if entries have terms.
abbrev pub renew : ℤ → Time → Entry → Entry
renew ttl now v = if ltb_ℤ (pos 0) ttl then record v { expires_at = now +ℤ ttl } else v

unfoldable pub read : ℤ → Time → String → List Entry → List Entry × Option Order × Bool
read ttl now k s = elim (find_value entry_id k s) [
  | none ↦ (s, none, false)
  | some v ↦
      if is_dead ttl now v
      then (remove_key entry_id k s, none, false)
      else (renew ttl now v ∷ remove_key entry_id k s, clone_order v.order, true)
]

abbrev pub fresh_entry : ℤ → Time → Order → Entry
fresh_entry ttl now o = record {
  id = o.order_uid;
  order = clone_order (some o);
  expires_at = term ttl now;
}

-- What makes room for an order: its old entry goes, or else the dead end of the list.
unfoldable pub make_room : ℤ → Time → String → List Entry → List Entry
unfolding drop_back
make_room ttl now k s = elim (find_value entry_id k s) [
  | none ↦ trim ttl now s
  | some _ ↦ remove_key entry_id k s
]

-- What a write does: the order is in front, and only as many entries as fit are kept.
unfoldable pub write : Limits → Time → Order → List Entry → List Entry
unfolding make_room
write l now o s = take l.capacity (fresh_entry l.ttl now o ∷ make_room l.ttl now o.order_uid s)
