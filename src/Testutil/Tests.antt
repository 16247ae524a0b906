-- ===== src/Testutil/Tests.antt =====
-- A topic that appears in the fourth round, and an order of the factory.
use wb_tasks_l.Prelude.{
  ℕ, ltb, ◌+◌, ◌*◌, ◌≡◌, ◌≢◌, ◌⊎◌, refl, [], ◌∷◌, Option, none, some, arith, if◌then◌else◌,
}
use wb_tasks_l.Errors.{Error, ok}
use wb_tasks_l.Testutil.Orders.{with_items, with_order_uid, make_order}
use wb_tasks_l.Testutil.Topics.{Round, IsReady, wait_topic_ready, wait_topic_ready-ends}

abbrev observed : ℕ → Round
observed i = record {
  ctx_err = none;
  dial = none;
  partitions = ok (if ltb i 3 then 0 else 1);
  now = 7 + i * 200000000;
}

wait_topic_ready-ends_example :
    (result : Option Error) × (wait_topic_ready 27 observed 7 ≡ some result)
    × ((result ≢ none) ⊎ ((j : ℕ) × IsReady (observed j)))
wait_topic_ready-ends_example = wait_topic_ready-ends observed 7 (λ i. omega arith)

made_uid : (make_order (λ i. "00") (with_items 2 ∷ with_order_uid "u" ∷ []) 0).order_uid ≡ "u"
unfolding make_order
made_uid = refl
