-- ===== src/Repo/Port.antt =====
-- The repository of internal/repo/postgres as the port that the service depends on.
use wb_tasks_l.Prelude.{ℕ, suc}
use wb_tasks_l.Ports.{OrderRepository}
use wb_tasks_l.Repo.{Tables, Server}
use wb_tasks_l.Repo.Saving.{save}
use wb_tasks_l.Repo.Reading.{get_by_uid}
use wb_tasks_l.Repo.Reading.Listing.{list_by_customer, last_n}

-- Queries leave the tables alone.
abbrev pub postgres_repository : Server → OrderRepository Tables
postgres_repository server = record {
  save = save server;
  get_by_uid = λ uid t. (t, get_by_uid server uid t);
  list_by_customer =
      λ customer limit offset t. (t, list_by_customer server customer limit offset t);
  last_n = λ n t. (t, last_n server n t);
}

-- The same, over a server that may answer each call differently: the state counts the calls.
abbrev pub unsteady_repository : (ℕ → Server) → OrderRepository (ℕ × Tables)
unsteady_repository servers = record {
  save = λ order db. (let (t, failed) = save (servers db.0) order db.1 in ((suc db.0, t), failed));
  get_by_uid = λ uid db. ((suc db.0, db.1), get_by_uid (servers db.0) uid db.1);
  list_by_customer = λ customer limit offset db.
      ((suc db.0, db.1), list_by_customer (servers db.0) customer limit offset db.1);
  last_n = λ n db. ((suc db.0, db.1), last_n (servers db.0) n db.1);
}
