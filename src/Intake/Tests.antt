-- ===== src/Intake/Tests.antt =====
-- The whole intake on small messages: the memory cache, a repository that is a list, and a decoder
-- of three messages.
use wb_tasks_l.Prelude.{
  ℕ, subst, ◌≡◌, ◌≢◌, ◌↔◌, refl, sym, inl, true, false, List, [], ◌∷◌, Option, none, some, pos,
  ◌≤ℤ◌, arith,
}
use wb_tasks_l.Errors.{Error, ok}
use wb_tasks_l.Domain.{Time, Order}
use wb_tasks_l.Ports.{OrderValidator}
use wb_tasks_l.Http.{one, get_order_by_id}
use wb_tasks_l.Http.Pages.{read_service, get_order_by_id-save_from_message}
use wb_tasks_l.Samples.{order_of, any_address, sample_json, sample_repo}
use wb_tasks_l.Cache.{LruCacheTtl, get, new_lru_cache_ttl, memory_cache}
use wb_tasks_l.Container.Laws.{find_value}
use wb_tasks_l.Cache.Spec.{read}
use wb_tasks_l.Cache.Reads.{get-read}
use wb_tasks_l.Cache.History.{limits-get, new_lru_cache_ttl-IsValid}
use wb_tasks_l.Cache.Port.{memory_cache_laws}
use wb_tasks_l.Service.{World, parse_message, save_order, accept_order, save_from_message}
use wb_tasks_l.Kafka.{should_commit}
use wb_tasks_l.Intake.{intake, Settles, IsForeignDecoder, IsForeignRepository, should_commit_iff}

abbrev start : World LruCacheTtl (List Order)
start = record { cache = new_lru_cache_ttl (pos 2) (pos 0); db = [] }

abbrev clock : ℕ → Time
clock n = pos n

sample_json-IsForeignDecoder : IsForeignDecoder sample_json
sample_json-IsForeignDecoder = record { foreign = λ raw e h. ground arith }

sample_repo-IsForeignRepository : IsForeignRepository sample_repo
sample_repo-IsForeignRepository = record { foreign = λ o db e h. ground arith }

should_commit_iff_example :
    (should_commit
        (intake sample_repo memory_cache any_address sample_json clock (1 ∷ []) (0, start)).1
      ≡ true)
    ↔ Settles sample_repo any_address sample_json (1 ∷ []) []
should_commit_iff_example =
    should_commit_iff sample_repo memory_cache any_address sample_json clock (1 ∷ []) 0 start
      sample_json-IsForeignDecoder sample_repo-IsForeignRepository

abbrev message_a : List ℕ
message_a = 1 ∷ []

-- A validator that refuses nothing.
abbrev lenient : OrderValidator
lenient = record { validate = λ order. ok tt }

abbrev after_a : World LruCacheTtl (List Order) × Option Error
after_a = save_from_message sample_repo memory_cache lenient sample_json (pos 1) message_a start

parse_a : parse_message sample_json message_a ≡ ok (order_of "a")
unfolding parse_message
parse_a = refl

saved_a : after_a.1 ≡ none
unfolding save_from_message accept_order save_order parse_message
saved_a = refl

start-IsSound : memory_cache_laws.IsSound start.cache
start-IsSound = (new_lru_cache_ttl-IsValid (pos 2) (pos 0)).0

start_fresh : start.cache.ttl ≤ℤ pos 0
unfolding new_lru_cache_ttl
start_fresh = omega arith

a_named : (order_of "a").order_uid ≢ ""
a_named e = cc

a_full : (order_of "a").items ≢ some []
a_full e = ground arith

-- A world whose repository has the order, and whose cache is empty.
abbrev cold : World LruCacheTtl (List Order)
cold = record start { db = order_of "a" ∷ [] }

cold_miss : (get (pos 1) "a" cold.cache).2 ≡ false
unfolding read find_value new_lru_cache_ttl
cold_miss = (get-read (pos 1) "a" cold.cache start-IsSound).2

cold_fresh : (get (pos 1) "a" cold.cache).0.ttl ≤ℤ pos 0
unfolding new_lru_cache_ttl
cold_fresh = subst (λ l. l.ttl ≤ℤ pos 0) (sym (limits-get (pos 1) "a" cold.cache)) (omega arith)

get_order_by_id-save_from_message_example :
    (let (w'', response) =
        get_order_by_id (read_service sample_repo memory_cache (pos 5) (pos 6)) "a" after_a.0 in
      (response ≡ record { status = 200; body = one (order_of "a") }) × (w''.db ≡ after_a.0.db))
get_order_by_id-save_from_message_example =
    get_order_by_id-save_from_message sample_repo memory_cache memory_cache_laws lenient sample_json
      (pos 1) (pos 5) (pos 6) message_a (order_of "a") start start-IsSound (inl start_fresh) a_named
      a_full parse_a saved_a
