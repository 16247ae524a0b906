-- ===== src/Repo.antt =====
-- internal/repo/postgres/order_repository.go over the tables of migrations/: the tables, the
-- statements and the constraints that the files of migrations/ declare. A table is keyed by
-- `order_uid`. What the server and the driver do beyond that is the argument `Server`: whether a
-- statement fails, whether a Commit that fails has committed, the error of a constraint, and the
-- order in which rows come that no ORDER BY determines.
pub mod Saving
pub mod Reading
pub mod Port
pub mod Samples
mod Tests
use wb_tasks_l.Prelude.{
  ℕ, ◌≡◌, arith, String, Bool, true, false, ◌&&◌, ◌*◌, ◌/◌, ◌+◌, List, [], ◌∷◌, Option, none, some,
  ℤ, pos, negsuc, leb_ℤ, if◌then◌else◌,
}
use wb_tasks_l.Errors.{Error, plain, wrap, Result, ok, err, ◌>>◌}
use wb_tasks_l.Domain.{Time, Delivery, Payment, Item}

-- The columns of `orders`, but for the key.
pub record OrderRow : Type 0 where
  pub track_number : String
  pub entry : String
  pub locale : String
  pub internal_signature : String
  pub customer_id : String
  pub delivery_service : String
  pub shard_key : String
  pub sm_id : ℤ
  pub date_created : Time
  pub oof_shard : String

-- The customers' `created_at` is never read.
pub record Tables : Type 0 where
  pub customers : List (String × Unit {0})
  pub orders : List (String × OrderRow)
  pub deliveries : List (String × Delivery)
  pub payments : List (String × Payment)
  pub items : List (String × Item)

-- The calls of the driver.
pub data Statement : Type 0 where
  begin_tx insert_customer upsert_order upsert_delivery upsert_payment delete_items copy_rows
        commit_tx :
      Statement
  select_order select_delivery select_payment select_items : Statement
  select_page select_payments select_deliveries select_page_items select_last : Statement

pub record Server : Type 0 where
  pub fails : Statement → Option Error
  -- Whether the server has committed where Commit returns an error, as after a lost connection.
  pub keeps_commit : Bool
  -- The error of a constraint that a statement violates.
  pub violation : Statement → Error
  -- The rows of `items` of one order, without an ORDER BY.
  pub arrange : List Item → List Item
  -- ORDER BY order_uid, chrt_id
  pub sort_items : List (String × Item) → List (String × Item)
  -- Which of two identifiers comes first in the collation of the server, in ORDER BY … DESC.
  pub uid_first : String → String → Bool
  -- Which of two orders with one date comes first, where the ORDER BY does not say.
  pub tie : String → String → Bool

-- A server that is up, and takes every text (one with a NUL byte fails its statement), so that only
-- constraints refuse a statement.
pub record IsUp (server : Server) : Type 0 where
  pub answers : (s : Statement) → server.fails s ≡ none

-- TIMESTAMPTZ keeps whole microseconds.
unfoldable pub to_micros : Time → Time
to_micros (pos n) = pos (n / 1000 * 1000)
to_micros (negsuc n) = negsuc (n / 1000 * 1000 + 999)

-- INTEGER
abbrev pub fits_integer : ℤ → Bool
fits_integer v = leb_ℤ (negsuc 2147483647) v && leb_ℤ v (pos 2147483647)

-- INTEGER … CHECK (… >= 0)
abbrev pub fits_amount : ℤ → Bool
fits_amount v = leb_ℤ (pos 0) v && leb_ℤ v (pos 2147483647)

-- TIMESTAMPTZ: from 4713 BC to 294276 AD, in nanoseconds since Go's zero time. The dates that JSON
-- can hold, of the years 0 to 9999, are among them.
unfoldable pub fits_timestamp : Time → Bool
fits_timestamp t = leb_ℤ (negsuc 148731206399999999999) t && leb_ℤ t (pos 9286453612799999999999)

-- A statement in a transaction: it fails, or it violates a constraint, or it changes the tables.
unfoldable pub exec : Server → Statement → Bool → Tables → Result Tables
exec server s allowed t = elim (server.fails s) [
  | some e ↦ err e
  | none ↦ if allowed then ok t else err (server.violation s)
]

-- `if err != nil { return fmt.Errorf("…: %w", err) }`
unfoldable pub explained {ℓ} : {A : Type ℓ} → String → Result A → Result A
explained reason (ok a) = ok a
explained reason (err e) = err (wrap (plain reason) e)

-- A query that answers, or not.
unfoldable pub query : Server → Statement → Result (Unit {0})
query server s = elim (server.fails s) [ some e ↦ err e | none ↦ ok tt ]

-- A server that is up answers a query, and the rest of the chain runs.
pub query-up {ℓ} :
    {Y : Type ℓ} (server : Server) (reason : String) (s : Statement) (next : Result Y)
    → IsUp server
    → (explained reason (query server s) >> next) ≡ next
unfolding query explained
query-up server reason s next up = ground (arith, up.answers s)
