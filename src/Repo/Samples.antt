-- ===== src/Repo/Samples.antt =====
-- A server for the tests.
use wb_tasks_l.Prelude.{String, refl, Bool, true, false, ◌&&◌, List, [], none, ltb_ℤ, ◌==◌}
use wb_tasks_l.Errors.{Error, plain, new}
use wb_tasks_l.Domain.{Item}
use wb_tasks_l.Repo.{Tables, Server, IsUp}
use wb_tasks_l.Repo.Reading.Listing.{order_by}

abbrev pub refusal : Error
refusal = new (plain "constraint")

-- The items of one order by `chrt_id`; those of different orders keep their places.
abbrev pub before : String × Item → String × Item → Bool
before (u, i) (v, j) = (u == v) && ltb_ℤ i.chrt_id j.chrt_id

abbrev pub by_chrt : List Item → List Item
by_chrt items = order_by (λ i j. ltb_ℤ i.chrt_id j.chrt_id) items

abbrev pub server : Server
server = record {
  fails = λ s. none;
  keeps_commit = false;
  violation = λ s. refusal;
  arrange = λ items. items;
  sort_items = order_by before;
  uid_first = λ u v. false;
  tie = λ u v. true;
}

pub server-IsUp : IsUp server
server-IsUp = record { answers = λ s. refl }

abbrev pub vacant : Tables
vacant = record { customers = []; orders = []; deliveries = []; payments = []; items = [] }
