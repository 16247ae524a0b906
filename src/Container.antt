-- ===== src/Container.antt =====
-- Go's containers as the cache uses them: a map with text keys, and the doubly linked list of
-- container/list. An element of the list has an address, by which the map points at it; the list
-- is the sequence of its elements from front to back.
pub mod Laws
use wb_tasks_l.Prelude.{
  ℕ, String, Bool, List, [], ◌∷◌, Option, none, some, eqb, ◌==◌, if◌then◌else◌,
}

-- map[string]V
module _ {ℓ} {V : Type ℓ} where
  -- v, ok := m[key]
  unfoldable pub lookup : String → List (String × V) → Option V
  lookup key [] = none
  lookup key ((other, value) ∷ rest) = if other == key then some value else lookup key rest

  -- delete(m, key)
  unfoldable pub delete : String → List (String × V) → List (String × V)
  delete key [] = []
  delete key ((other, value) ∷ rest) =
      let kept = delete key rest in if other == key then kept else (other, value) ∷ kept

  -- m[key] = v
  unfoldable pub insert : String → V → List (String × V) → List (String × V)
  unfolding delete
  insert key value table = (key, value) ∷ delete key table

-- *list.Element
pub record Element {ℓ} (V : Type ℓ) : Type ℓ where
  pub address : ℕ
  pub value : V

module _ {ℓ} {V : Type ℓ} where
  -- The element at an address.
  unfoldable pub element_at : ℕ → List (Element V) → Option (Element V)
  element_at p [] = none
  element_at p (e ∷ es) = if eqb e.address p then some e else element_at p es

  -- l.Remove(e)
  unfoldable pub unlink : ℕ → List (Element V) → List (Element V)
  unlink p [] = []
  unlink p (e ∷ es) = let rest = unlink p es in if eqb e.address p then rest else e ∷ rest

  -- l.MoveToFront(e), where `e` is the element as it now is.
  unfoldable pub move_to_front : Element V → List (Element V) → List (Element V)
  unfolding unlink
  move_to_front e es = e ∷ unlink e.address es
