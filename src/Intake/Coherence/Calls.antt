-- ===== src/Intake/Coherence/Calls.antt =====
-- The calls of the API and of the consumer, one after the other.
use wb_tasks_l.Prelude.{
  ℕ, String, ◌≡◌, refl, sym, ap, ◌∙◌, inl, inr, true, List, [], ◌∷◌, some, Bool-cases, Option-cases,
}
use wb_tasks_l.Errors.{ok, Result-cases}
use wb_tasks_l.Domain.{Time, Order}
use wb_tasks_l.Cache.{LruCacheTtl, clone_order, get, memory_cache}
use wb_tasks_l.Cache.Promises.{clone_order_same}
use wb_tasks_l.Cache.Only.{get-held}
use wb_tasks_l.Repo.{Tables, Server, IsUp}
use wb_tasks_l.Repo.Saving.Constraints.{save_refused}
use wb_tasks_l.Repo.Reading.{get_by_uid}
use wb_tasks_l.Repo.Port.{postgres_repository}
use wb_tasks_l.Ports.{OrderValidator, JsonDecoder}
use wb_tasks_l.Service.{World, cache_result, get_order, save_from_message}
use wb_tasks_l.Service.Saves.{save_from_message-Outcome, unreadable, refused, unsaved, saved}
use wb_tasks_l.Intake.Coherence.{
  Reflects, Agrees, Coherent, Reflects-term, get-Coherent, fill-Coherent, save-Coherent,
}
use wb_tasks_l.Service.Gets.{get_order_hit}

-- The calls that the API and the consumer make, each with the times at which it reads the clock.
pub data Call : Type 0 where
  asks : Time → Time → String → Call
  takes : Time → List ℕ → Call

module _ (server : Server) where
  module _ (validator : OrderValidator) (json : JsonDecoder) where
    unfoldable pub play : List Call → World LruCacheTtl Tables → World LruCacheTtl Tables
    play [] w = w
    play (asks now later uid ∷ calls) w =
        play calls (get_order (postgres_repository server) memory_cache now later uid w).0
    play (takes now raw ∷ calls) w =
        play calls
          (save_from_message (postgres_repository server) memory_cache validator json now raw w).0

  module _ (now later : Time) (uid : String) (w : World LruCacheTtl Tables)
      (h : Coherent server w) where
    hit-Agrees :
        (get now uid w.cache).2 ≡ true
        → Agrees server (ok (get now uid w.cache).1) (get_by_uid server uid w.db)
    hit-Agrees hit =
        let (v, held, _, same, copy) =
          get-held now w.cache h.valid (Reflects server w.db) (Reflects-term server w.db) h.reflects
            uid hit in
        let answer : (get now uid w.cache).1 ≡ some held.cached =
          copy ∙ ap clone_order held.points ∙ clone_order_same held.cached held.full in
        let stored : get_by_uid server uid w.db ≡ ok (some held.found) =
          ap (λ id. get_by_uid server id w.db) (sym same) ∙ held.stored in
        elim held.version [
          | inl exact ↦ inl (ap ok (answer ∙ ap some (sym exact)) ∙ sym stored)
          | inr (transaction, e) ↦
              inr
                (held.cached, transaction, ap ok answer, stored ∙ ap (λ (o : Order). ok (some o)) e)
        ]

    get_order-Coherent :
        Coherent server (get_order (postgres_repository server) memory_cache now later uid w).0
        × Agrees server
            (get_order (postgres_repository server) memory_cache now later uid w).1
            (get_by_uid server uid w.db)
        × ((get_order (postgres_repository server) memory_cache now later uid w).0.db ≡ w.db)
    unfolding get_order cache_result
    get_order-Coherent =
        let seen = get-Coherent server now uid w h in
        let c = (get now uid w.cache).0 in
        elim (Bool-cases (get now uid w.cache).2) [
          | inl hit ↦
              rw (get_order_hit (postgres_repository server) memory_cache now later uid w hit)
                (seen, hit-Agrees hit, refl)
          | inr miss ↦ elim (Result-cases (get_by_uid server uid w.db)) [
            | inr (e, failed) ↦ rw (get_order, miss, failed, cache_result) (seen, inl refl, refl)
            | inl (order, read) ↦ elim (Option-cases order) [
              | inl nil ↦ rw (get_order, miss, read, nil, cache_result) (seen, inl refl, refl)
              | inr (o, there) ↦
                  let filled =
                    fill-Coherent server later uid o (record w { cache = c }) (read ∙ ap ok there)
                      seen in
                  rw (get_order, miss, read, there, cache_result) (filled, inl refl, refl)
            ]
          ]
        ]

  module _ (up : IsUp server) (validator : OrderValidator) (json : JsonDecoder) where
    save_from_message-Coherent :
        (now : Time) (raw : List ℕ) (w : World LruCacheTtl Tables)
        → Coherent server w
        → Coherent server
            (save_from_message (postgres_repository server) memory_cache validator json now raw w).0
    save_from_message-Coherent now raw w h =
        elim (save_from_message-Outcome (postgres_repository server) memory_cache validator json now
          raw w) [
            | unreadable e p same f ↦ rw same h
            | refused o e p v same f ↦ rw same h
            | unsaved o e p v failed same f ↦ rw (same, save_refused server o w.db up e failed) h
            | saved o p v done same f ↦ rw same (save-Coherent server up now o w done h)
          ]

    play-Coherent :
        (calls : List Call) (w : World LruCacheTtl Tables)
        → Coherent server w
        → Coherent server (play validator json calls w)
    unfolding play
    play-Coherent [] w h = h
    play-Coherent (asks now later uid ∷ calls) w h =
        play-Coherent calls (get_order (postgres_repository server) memory_cache now later uid w).0
          (get_order-Coherent now later uid w h).0
    play-Coherent (takes now raw ∷ calls) w h =
        play-Coherent calls
          (save_from_message (postgres_repository server) memory_cache validator json now raw w).0
          (save_from_message-Coherent now raw w h)

    -- While calls follow one another, the cache never shows: after every history of `GetOrder` and
    -- `SaveFromMessage` from a coherent state, on a server that is up, `GetOrder` answers what
    -- `GetByUID` answers from the tables, or the version of that order that was saved, from which
    -- what is read back differs in three fields at most: the payment has the transaction that is
    -- stored, the items come as the server arranges their rows, and the date is cut to whole
    -- microseconds.
    pub play-Agrees :
        (calls : List Call) (now later : Time) (uid : String) (w : World LruCacheTtl Tables)
        → Coherent server w
        → (let w' = play validator json calls w in
            Agrees server
              (get_order (postgres_repository server) memory_cache now later uid w').1
              (get_by_uid server uid w'.db))
    play-Agrees calls now later uid w h =
        (get_order-Coherent now later uid (play validator json calls w) (play-Coherent calls w h)).1
