-- ===== src/Repo/Reading/Listing/Pages.antt =====
-- The rows that ORDER BY, LIMIT and OFFSET select for ListByCustomer and LastN.
use wb_tasks_l.Prelude.{
  take-nil, All-take, length-take_le, ℕ, zero, suc, ◌+◌, ◌≤◌, String, ◌≡◌, refl, ap, sym, ◌∙◌, Bool,
  List, [], ◌∷◌, ◌++◌, ℤ, pos, pos_part, ◌≤ℤ◌, arith, eq_iff, take, length, All, All-map_of,
  Bool-cases, inl, inr, ◌==◌,
}
use wb_tasks_l.Repo.{OrderRow, Tables, Server}
use wb_tasks_l.Repo.Reading.Listing.{place, order_by, drop, newer, rows_of_customer, page_of}

module _ {ℓ κ} {A : Type ℓ} (P : A → Type κ) where
  All-drop : (n : ℕ) (xs : List A) → All P xs → All P (drop n xs)
  unfolding drop
  All-drop zero xs h = h
  All-drop (suc n) [] h = tt
  All-drop (suc n) (x ∷ xs) h = All-drop n xs h.1

  module _ (first : A → A → Bool) where
    All-place : (x : A) (xs : List A) → P x → All P xs → All P (place first x xs)
    unfolding place
    All-place x [] p h = (p, tt)
    All-place x (y ∷ ys) p h = elim (Bool-cases (first x y)) [
      | inl q ↦ rw q (p, h)
      | inr q ↦ rw q (h.0, All-place x ys p h.1)
    ]

    pub All-order_by : (xs : List A) → All P xs → All P (order_by first xs)
    unfolding order_by
    All-order_by [] h = tt
    All-order_by (x ∷ xs) h = All-place x (order_by first xs) h.0 (All-order_by xs h.1)

module _ {ℓ} {A : Type ℓ} where
  abbrev nothing : List A
  nothing = []

  drop-nil : (n : ℕ) → drop n nothing ≡ nothing
  unfolding drop
  drop-nil zero = refl
  drop-nil (suc n) = refl

  drop-drop : (k n : ℕ) (xs : List A) → drop (k + n) xs ≡ drop n (drop k xs)
  unfolding drop
  drop-drop zero n xs = ap (λ i. drop i xs) (omega arith)
  drop-drop (suc k) n [] = let e : suc k + n ≡ suc (k + n) = omega arith in rw e (sym (drop-nil n))
  drop-drop (suc k) n (x ∷ xs) =
      let e : suc k + n ≡ suc (k + n) = omega arith in rw e (drop-drop k n xs)

  take-append : (n m : ℕ) (xs : List A) → take n xs ++ take m (drop n xs) ≡ take (n + m) xs
  unfolding drop
  take-append zero m xs = ap (λ i. take i xs) (omega arith)
  take-append (suc n) m [] = let e : suc n + m ≡ suc (n + m) = omega arith in rw e (take-nil m)
  take-append (suc n) m (x ∷ xs) =
      let e : suc n + m ≡ suc (n + m) = omega arith in rw e (ap (◌∷◌ x) (take-append n m xs))

-- Dates that do not rise from the front to the back.
abbrev pub IsNewestFirst : List (String × OrderRow) → Type 0
IsNewestFirst [] = Unit
IsNewestFirst (r ∷ rows) = All (λ s. s.1.date_created ≤ℤ r.1.date_created) rows × IsNewestFirst rows

module _ (tie : String → String → Bool) where
  place-IsNewestFirst :
      (r : String × OrderRow) (rows : List (String × OrderRow))
      → IsNewestFirst rows
      → IsNewestFirst (place (newer tie) r rows)
  unfolding place
  place-IsNewestFirst r [] h = (tt, tt)
  place-IsNewestFirst r (s ∷ rows) h = elim (Bool-cases (newer tie r s)) [
    | inl q ↦
        let after : s.1.date_created ≤ℤ r.1.date_created = ground (arith, q) in
        rw q ((after, All-map_of (λ x p. omega (arith, p, after)) rows h.0), h)
    | inr q ↦
        let before : r.1.date_created ≤ℤ s.1.date_created = ground (arith, q) in
        rw q (All-place _ (newer tie) r rows before h.0, place-IsNewestFirst r rows h.1)
  ]

  pub order_by-IsNewestFirst :
      (rows : List (String × OrderRow)) → IsNewestFirst (order_by (newer tie) rows)
  unfolding order_by
  order_by-IsNewestFirst [] = tt
  order_by-IsNewestFirst (r ∷ rows) =
      place-IsNewestFirst r (order_by (newer tie) rows) (order_by-IsNewestFirst rows)

pub take-IsNewestFirst :
    (n : ℕ) (rows : List (String × OrderRow)) → IsNewestFirst rows → IsNewestFirst (take n rows)
take-IsNewestFirst zero rows h = tt
take-IsNewestFirst (suc n) [] h = tt
take-IsNewestFirst (suc n) (r ∷ rows) h = (All-take _ n rows h.0, take-IsNewestFirst n rows h.1)

drop-IsNewestFirst :
    (n : ℕ) (rows : List (String × OrderRow)) → IsNewestFirst rows → IsNewestFirst (drop n rows)
unfolding drop
drop-IsNewestFirst zero rows h = h
drop-IsNewestFirst (suc n) [] h = tt
drop-IsNewestFirst (suc n) (r ∷ rows) h = drop-IsNewestFirst n rows h.1

rows_of_customer-customer_id :
    (customer : String) (rows : List (String × OrderRow))
    → All (λ r. r.1.customer_id ≡ customer) (rows_of_customer customer rows)
unfolding rows_of_customer
rows_of_customer-customer_id customer [] = tt
rows_of_customer-customer_id customer ((uid, row) ∷ rows) =
    elim (Bool-cases (row.customer_id == customer)) [
      | inl q ↦
          rw q ((eq_iff row.customer_id customer).0 q, rows_of_customer-customer_id customer rows)
      | inr q ↦ rw q (rows_of_customer-customer_id customer rows)
    ]

All-rows_of_customer {κ} :
    (P : String × OrderRow → Type κ) (customer : String) (rows : List (String × OrderRow))
    → All P rows
    → All P (rows_of_customer customer rows)
unfolding rows_of_customer
All-rows_of_customer P customer [] h = tt
All-rows_of_customer P customer ((uid, row) ∷ rows) h =
    elim (Bool-cases (row.customer_id == customer)) [
      | inl q ↦ rw q (h.0, All-rows_of_customer P customer rows h.1)
      | inr q ↦ rw q (All-rows_of_customer P customer rows h.1)
    ]

module _ (server : Server) (customer : String) (t : Tables) where
  -- What holds of every row of `orders` holds of every row of a page.
  pub All-page_of {κ} :
      (P : String × OrderRow → Type κ) (limit offset : ℤ)
      → All P t.orders
      → All P (page_of server customer limit offset t)
  unfolding page_of
  All-page_of P limit offset h = All-take _ (pos_part limit) _ (
      All-drop P (pos_part offset) _
        (All-order_by P (newer server.uid_first) _ (All-rows_of_customer P customer t.orders h)))

  -- A page has no more rows than the limit, all of them of the customer, newest first.
  pub page_of-IsNewestFirst :
      (limit offset : ℤ)
      → (let page = page_of server customer limit offset t in
          (length page ≤ pos_part limit)
          × All (λ r. r.1.customer_id ≡ customer) page
          × IsNewestFirst page)
  unfolding page_of
  page_of-IsNewestFirst limit offset = (
    length-take_le (pos_part limit) _,
    All-take _ (pos_part limit) _ (
        All-drop _ (pos_part offset) _ (
          All-order_by _ (newer server.uid_first) _
            (rows_of_customer-customer_id customer t.orders))),
    take-IsNewestFirst (pos_part limit) _ (
        drop-IsNewestFirst (pos_part offset) _
          (order_by-IsNewestFirst server.uid_first (rows_of_customer customer t.orders))),
  )

-- A page is continued by the page that starts where it ends: the two together are the page with
-- both limits, so that no order is shown twice and none is passed over.
pub page_of-append :
    (server : Server) (customer : String) (t : Tables) (limit more offset : ℕ)
    → page_of server customer (pos limit) (pos offset) t
        ++ page_of server customer (pos more) (pos (offset + limit)) t
      ≡ page_of server customer (pos (limit + more)) (pos offset) t
unfolding page_of
page_of-append server customer t limit more offset =
    let rows = order_by (newer server.uid_first) (rows_of_customer customer t.orders) in
    ap (λ rest. take limit (drop offset rows) ++ take more rest) (drop-drop offset limit rows)
    ∙ take-append limit more (drop offset rows)
