-- ===== src/Container/Laws.antt =====
-- Laws of the map, and of a list whose elements have addresses and keys of their own.
use mathlib.Core.Option
use wb_tasks_l.Prelude.{
  ℕ, suc, All-map_of, String, ◌≡◌, refl, sym, ap, ◌≢◌, List, [], ◌∷◌, ◌++◌, map, Option, none, some,
  ◌⊎◌, inl, inr, arith, eq_iff, eq_refl, length, All, get_last?, Bool-cases, subst, ◌∙◌, ◌==◌,
  if◌then◌else◌,
}
use wb_tasks_l.Container.{Element, lookup, delete, insert, element_at, unlink}

module _ {ℓ} {V : Type ℓ} where
  pub lookup-delete :
      (gone key : String) (table : List (String × V))
      → lookup key (delete gone table) ≡ (if gone == key then none else lookup key table)
  unfolding lookup delete
  lookup-delete gone key [] = ground arith
  lookup-delete gone key ((other, value) ∷ rest) =
      ground
        (arith, eq_iff gone key, eq_iff other gone, eq_iff other key, lookup-delete gone key rest)

  pub lookup-insert :
      (new key : String) (value : V) (table : List (String × V))
      → lookup key (insert new value table) ≡ (if new == key then some value else lookup key table)
  unfolding insert lookup
  lookup-insert new key value table = ground (arith, lookup-delete new key table)

module _ {ℓ} {V : Type ℓ} (key : V → String) where
  -- The first element with a key, and the same on the values alone.
  unfoldable pub find_key : String → List (Element V) → Option (Element V)
  find_key k [] = none
  find_key k (e ∷ es) = if key e.value == k then some e else find_key k es

  unfoldable pub find_value : String → List V → Option V
  find_value k [] = none
  find_value k (v ∷ vs) = if key v == k then some v else find_value k vs

  -- The list without the values of a key.
  unfoldable pub remove_key : String → List V → List V
  remove_key k [] = []
  remove_key k (v ∷ vs) = if key v == k then remove_key k vs else v ∷ remove_key k vs

  abbrev pub IsApart : Element V → Element V → Type 0
  IsApart e f = (f.address ≢ e.address) × (key f.value ≢ key e.value)

  -- No two elements share an address or a key.
  abbrev pub IsDistinct : List (Element V) → Type 0
  IsDistinct [] = Unit
  IsDistinct (e ∷ es) = All (IsApart e) es × IsDistinct es

  pub key-find_key :
      (k : String) (es : List (Element V)) (e : Element V)
      → find_key k es ≡ some e
      → key e.value ≡ k
  unfolding find_key
  key-find_key k [] e h = cc
  key-find_key k (x ∷ es) e h = ground (arith, eq_iff (key x.value) k, key-find_key k es e)

  pub All-find_key {κ} :
      (P : Element V → Type κ) (k : String) (es : List (Element V)) (e : Element V)
      → All P es
      → find_key k es ≡ some e
      → P e
  unfolding find_key
  All-find_key P k [] e a h = cc
  All-find_key P k (x ∷ es) e a h = elim (Bool-cases (key x.value == k)) [
    | inl here ↦ let same : x ≡ e = ground arith in subst P same a.0
    | inr there ↦ All-find_key P k es e a.1 (ground arith)
  ]

  unlink-absent : (p : ℕ) (es : List (Element V)) → All (λ f. f.address ≢ p) es → unlink p es ≡ es
  unfolding unlink
  unlink-absent p [] h = refl
  unlink-absent p (x ∷ es) h = ground (arith, unlink-absent p es)

  find_key-absent :
      (k : String) (es : List (Element V)) → All (λ f. key f.value ≢ k) es → find_key k es ≡ none
  unfolding find_key
  find_key-absent k [] h = refl
  find_key-absent k (x ∷ es) h = ground (arith, eq_iff (key x.value) k, find_key-absent k es)

  remove_key-absent :
      (k : String) (es : List (Element V))
      → All (λ f. key f.value ≢ k) es
      → remove_key k (map (λ f. f.value) es) ≡ map (λ f. f.value) es
  unfolding remove_key
  remove_key-absent k [] h = refl
  remove_key-absent k (x ∷ es) h = ground (arith, eq_iff (key x.value) k, remove_key-absent k es)

  All-get_last? {κ} :
      (P : Element V → Type κ) (es : List (Element V)) (e : Element V)
      → All P es
      → get_last? es ≡ some e
      → P e
  All-get_last? P [] e a h = cc
  All-get_last? P (x ∷ []) e a h = let same : x ≡ e = ground arith in subst P same a.0
  All-get_last? P (x ∷ y ∷ es) e a h = All-get_last? P (y ∷ es) e a.1 h

  All-address :
      (x : Element V) (es : List (Element V))
      → All (IsApart x) es
      → All (λ f. f.address ≢ x.address) es
  All-address x es = All-map_of (λ f h. h.0) es

  All-key :
      (x : Element V) (es : List (Element V))
      → All (IsApart x) es
      → All (λ f. key f.value ≢ key x.value) es
  All-key x es = All-map_of (λ f h. h.1) es

  abbrev Splits : String → Element V → List (Element V) → Element V → Type ℓ
  Splits k x es e =
      ((key x.value ≡ k)
        × (x ≡ e)
        × All (λ f. f.address ≢ e.address) es
        × All (λ f. key f.value ≢ k) es)
      ⊎ ((key x.value ≢ k) × (find_key k es ≡ some e) × IsApart x e)

  -- An element found is the first one, and nothing behind it shares its address or key; or it is
  -- found behind the first one, and apart from it.
  find_key-Splits :
      (k : String) (x : Element V) (es : List (Element V)) (e : Element V)
      → IsDistinct (x ∷ es)
      → find_key k (x ∷ es) ≡ some e
      → Splits k x es e
  unfolding find_key
  find_key-Splits k x es e d h = elim (Bool-cases (key x.value == k)) [
    | inl here ↦
        let same : x ≡ e = ground arith in
        let hit = (eq_iff (key x.value) k).0 here in
        inl (
          hit,
          same,
          subst (λ f. All (λ g. g.address ≢ f.address) es) same (All-address x es d.0),
          subst (λ j. All (λ g. key g.value ≢ j) es) hit (All-key x es d.0),
        )
    | inr there ↦
        let found : find_key k es ≡ some e = ground arith in
        inr (
          (λ q. cc ((eq_iff (key x.value) k).1 q)),
          found,
          All-find_key (IsApart x) k es e d.0 found,
        )
  ]

  -- The address of an element leads back to it.
  pub element_at-find_key :
      (k : String) (es : List (Element V)) (e : Element V)
      → IsDistinct es
      → find_key k es ≡ some e
      → element_at e.address es ≡ some e
  unfolding find_key element_at
  element_at-find_key k [] e d h = cc
  element_at-find_key k (x ∷ es) e d h = elim (find_key-Splits k x es e d h) [
    | inl (_, same, _, _) ↦ ground arith
    | inr (_, found, apart) ↦ ground (arith, element_at-find_key k es e d.1 found)
  ]

  module _ (k : String) where
    -- Without an element, its key is not found, and every other key is found as before.
    pub find_key-unlink :
        (j : String) (es : List (Element V)) (e : Element V)
        → IsDistinct es
        → find_key k es ≡ some e
        → find_key j (unlink e.address es) ≡ (if k == j then none else find_key j es)
    unfolding find_key unlink
    find_key-unlink j [] e d h = cc
    find_key-unlink j (x ∷ es) e d h = elim (find_key-Splits k x es e d h) [
      | inl (hit, same, addresses, keys) ↦ ground (
        arith,
        unlink-absent e.address es addresses,
        find_key-absent k es keys,
        eq_iff k j,
        eq_iff (key x.value) j,
      )
      | inr (miss, found, apart) ↦
          ground (arith, find_key-unlink j es e d.1 found, eq_iff k j, eq_iff (key x.value) j)
    ]

    pub length-unlink :
        (es : List (Element V)) (e : Element V)
        → IsDistinct es
        → find_key k es ≡ some e
        → suc (length (unlink e.address es)) ≡ length es
    unfolding find_key unlink
    length-unlink [] e d h = cc
    length-unlink (x ∷ es) e d h = elim (find_key-Splits k x es e d h) [
      | inl (_, same, addresses, _) ↦ ground (arith, unlink-absent e.address es addresses)
      | inr (_, found, apart) ↦ ground (arith, length-unlink es e d.1 found)
    ]

    -- On the values alone, an element is removed by its key.
    pub map-unlink :
        (es : List (Element V)) (e : Element V)
        → IsDistinct es
        → find_key k es ≡ some e
        → map (λ f. f.value) (unlink e.address es) ≡ remove_key k (map (λ f. f.value) es)
    unfolding find_key unlink remove_key
    map-unlink [] e d h = cc
    map-unlink (x ∷ es) e d h = elim (find_key-Splits k x es e d h) [
      | inl (hit, same, addresses, keys) ↦ ground (
        arith,
        eq_iff (key x.value) k,
        unlink-absent e.address es addresses,
        remove_key-absent k es keys,
      )
      | inr (miss, found, apart) ↦ ground (arith, map-unlink es e d.1 found, eq_iff (key x.value) k)
    ]

  pub All-unlink {κ} :
      (P : Element V → Type κ) (p : ℕ) (es : List (Element V)) → All P es → All P (unlink p es)
  unfolding unlink
  All-unlink P p [] a = tt
  All-unlink P p (x ∷ es) a = ground (arith, All-unlink P p es a.1)

  pub IsDistinct-unlink : (p : ℕ) (es : List (Element V)) → IsDistinct es → IsDistinct (unlink p es)
  unfolding unlink
  IsDistinct-unlink p [] d = tt
  IsDistinct-unlink p (x ∷ es) d =
      ground (arith, IsDistinct-unlink p es d.1, All-unlink (IsApart x) p es d.0)

  pub find_value-map :
      (k : String) (es : List (Element V))
      → find_value k (map (λ e. e.value) es) ≡ Option.map (λ e. e.value) (find_key k es)
  unfolding find_key find_value
  find_value-map k [] = refl
  find_value-map k (x ∷ es) = ground (arith, find_value-map k es)

  -- The last element of a list is found under its key.
  pub find_key-get_last? :
      (es : List (Element V)) (e : Element V)
      → IsDistinct es
      → get_last? es ≡ some e
      → find_key (key e.value) es ≡ some e
  unfolding find_key
  find_key-get_last? [] e d h = cc
  find_key-get_last? (x ∷ []) e d h = ground (arith, eq_refl (key x.value))
  find_key-get_last? (x ∷ y ∷ es) e d h =
      let apart = All-get_last? (IsApart x) (y ∷ es) e d.0 h in
      ground (arith, find_key-get_last? (y ∷ es) e d.1 h, eq_iff (key x.value) (key e.value))

  pub All-of_find_key-none :
      (k : String) (es : List (Element V)) → find_key k es ≡ none → All (λ f. key f.value ≢ k) es
  unfolding find_key
  All-of_find_key-none k [] h = tt
  All-of_find_key-none k (x ∷ es) h =
      ground (arith, eq_iff (key x.value) k, All-of_find_key-none k es)

  -- What is left of the list stands apart from an element that is taken out.
  pub All-IsApart-unlink :
      (k : String) (es : List (Element V)) (e : Element V)
      → IsDistinct es
      → find_key k es ≡ some e
      → All (IsApart e) (unlink e.address es)
  unfolding unlink
  All-IsApart-unlink k [] e d h = tt
  All-IsApart-unlink k (x ∷ es) e d h = elim (find_key-Splits k x es e d h) [
    | inl (hit, same, addresses, keys) ↦
        let rest = subst (λ f. All (IsApart f) es) same d.0 in
        ground (arith, unlink-absent e.address es addresses)
    | inr (miss, found, apart) ↦ ground (arith, All-IsApart-unlink k es e d.1 found)
  ]

  -- To take the last element out is to drop the end of the list.
  pub unlink-get_last? :
      (es : List (Element V)) (e : Element V)
      → IsDistinct es
      → get_last? es ≡ some e
      → es ≡ unlink e.address es ++ e ∷ []
  unfolding unlink
  unlink-get_last? [] e d h = cc
  unlink-get_last? (x ∷ []) e d h = ground arith
  unlink-get_last? (x ∷ y ∷ es) e d h =
      let apart = All-get_last? (IsApart x) (y ∷ es) e d.0 h in
      let ih = unlink-get_last? (y ∷ es) e d.1 h in
      let stays : unlink e.address (x ∷ y ∷ es) ≡ x ∷ unlink e.address (y ∷ es) = ground arith in
      ap (◌∷◌ x) ih ∙ sym (ap (λ l. l ++ e ∷ []) stays)
