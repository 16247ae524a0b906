-- ===== src/Intake/Coherence.antt =====
-- The cache and the repository under calls of the service that follow one another, as
-- internal/app/bootstrap.go wires them: the memory cache over the repository of
-- internal/repo/postgres.
pub mod Calls
mod Tests
use wb_tasks_l.Prelude.{
  ℕ, String, ◌≡◌, ◌≢◌, ◌⊎◌, refl, sym, ap, ◌∙◌, subst, inl, inr, true, false, List, [], ◌∷◌, Option,
  none, some, arith, All, All-map_of, Bool-cases, Option-cases,
}
use wb_tasks_l.Errors.{Result, ok, err, Result-cases}
use wb_tasks_l.Domain.{Time, Item, Payment, Order}
use wb_tasks_l.Validate.{elements}
use wb_tasks_l.Container.{lookup}
use wb_tasks_l.Cache.{Entry, LruCacheTtl, clone_items, clone_order, get, set, memory_cache}
use wb_tasks_l.Cache.Invariant.{Holds, IsValid}
use wb_tasks_l.Cache.Spec.{view, fresh_entry}
use wb_tasks_l.Cache.Reads.{get-IsValid}
use wb_tasks_l.Cache.History.{set-IsValid}
use wb_tasks_l.Cache.Promises.{clone_order_same}
use wb_tasks_l.Cache.Only.{get-All, get-held, set-All}
use wb_tasks_l.Repo.{Tables, Server, IsUp, to_micros}
use wb_tasks_l.Repo.Saving.{upserted_payment, save}
use wb_tasks_l.Repo.Saving.Constraints.{save_atomic}
use wb_tasks_l.Repo.Reading.{appended, get_by_uid}
use wb_tasks_l.Repo.Reading.RoundTrip.{get_by_uid-save}
use wb_tasks_l.Repo.Reading.Frame.{get_by_uid-save_ne}
use wb_tasks_l.Repo.Port.{postgres_repository}
use wb_tasks_l.Ports.{OrderValidator, JsonDecoder}
use wb_tasks_l.Service.{World, cache_result, get_order, save_from_message}
use wb_tasks_l.Service.Saves.{save_from_message-Outcome, unreadable, refused, unsaved, saved}
use wb_tasks_l.Intake.Races.{get_by_uid-own, get_by_uid-full}

module _ (server : Server) where
  -- What the repository reads of an order that was saved as `p`, with the transaction that its
  -- payment has.
  abbrev pub normal : Order → String → Order
  normal p transaction = record p {
    payment = record p.payment { transaction = transaction };
    items = appended (server.arrange (elements p.items));
    date_created = to_micros p.date_created;
  }

  abbrev pub IsVersion : Order → Order → Type 0
  IsVersion p found = (found ≡ p) ⊎ ((transaction : String) × (found ≡ normal p transaction))

  -- An entry of the cache holds the order that the repository has under its identifier.
  pub record Reflects (t : Tables) (v : Entry) : Type 0 where
    pub cached : Order
    pub points : v.order ≡ some cached
    pub full : cached.items ≢ some []
    pub found : Order
    pub stored : get_by_uid server v.id t ≡ ok (some found)
    pub version : IsVersion cached found

  -- An answer is what the repository answers, or the version of it that was saved.
  abbrev pub Agrees : Result (Option Order) → Result (Option Order) → Type 0
  Agrees answer stored =
      (answer ≡ stored)
      ⊎ ((p : Order) × (transaction : String) × (answer ≡ ok (some p))
          × (stored ≡ ok (some (normal p transaction))))

  full-clone_items : (items : Option (List Item)) → clone_items items ≢ some []
  full-clone_items none e = cc
  full-clone_items (some []) e = cc
  full-clone_items (some (x ∷ xs)) e = ground (arith, e)

  elements-clone_items :
      (items : Option (List Item)) → elements (clone_items items) ≡ elements items
  elements-clone_items none = refl
  elements-clone_items (some []) = refl
  elements-clone_items (some (x ∷ xs)) = refl

  upserted_payment_lem :
      (o : Order) (payments : List (String × Payment))
      → upserted_payment o payments
        ≡ record o.payment { transaction = (upserted_payment o payments).transaction }
  unfolding upserted_payment
  upserted_payment_lem o payments = elim (Option-cases (lookup o.order_uid payments)) [
    | inl e ↦ rw (upserted_payment, e) refl
    | inr (p, e) ↦ rw (upserted_payment, e) refl
  ]

  -- An entry that a save does not write.
  Reflects-save :
      (o : Order) (t : Tables) (v : Entry)
      → v.id ≢ o.order_uid
      → Reflects t v
      → Reflects (save server (some o) t).0 v
  Reflects-save o t v other h = record {
    cached = h.cached;
    points = h.points;
    full = h.full;
    found = h.found;
    stored = get_by_uid-save_ne server server o v.id t other ∙ h.stored;
    version = h.version;
  }

  Reflects-saved :
      IsUp server
      → (o : Order) (t : Tables) (v : Entry) → (save server (some o) t).1 ≡ none
      → v.id ≡ o.order_uid
      → v.order ≡ clone_order (some o)
      → Reflects (save server (some o) t).0 v
  unfolding clone_order
  Reflects-saved up o t v done own copy = record {
    cached = record o { items = clone_items o.items };
    points = copy;
    full = full-clone_items o.items;
    found = record o {
      payment = upserted_payment o t.payments;
      items = appended (server.arrange (elements o.items));
      date_created = to_micros o.date_created;
    };
    stored =
        ap (λ id. get_by_uid server id (save server (some o) t).0) own
        ∙ get_by_uid-save server server o t up done;
    version = inr (
      (upserted_payment o t.payments).transaction,
      rw (elements-clone_items o.items) (
          ap
            (λ p. record o {
              payment = p;
              items = appended (server.arrange (elements o.items));
              date_created = to_micros o.date_created;
            })
            (upserted_payment_lem o t.payments)),
    );
  }

  Reflects-read :
      (o : Order) (t : Tables) (uid : String) (v : Entry)
      → get_by_uid server uid t ≡ ok (some o)
      → v.id ≡ o.order_uid
      → v.order ≡ clone_order (some o)
      → Reflects t v
  Reflects-read o t uid v read own copy =
      let full = get_by_uid-full server uid t o read in
      let same = (get_by_uid-own server uid t o read).0 in
      record {
        cached = o;
        points = copy ∙ clone_order_same o full;
        full = full;
        found = o;
        stored = ap (λ id. get_by_uid server id t) (own ∙ same) ∙ read;
        version = inl refl;
      }

  -- The cache is valid and holds what the repository has.
  pub record Coherent (w : World LruCacheTtl Tables) : Type 0 where
    pub valid : IsValid w.cache
    pub reflects : All (Reflects w.db) (view w.cache)

  pub Reflects-term :
      (t : Tables) (v : Entry) (term : Time)
      → Reflects t v
      → Reflects t (record v { expires_at = term })
  Reflects-term t v term h = record {
    cached = h.cached;
    points = h.points;
    full = h.full;
    found = h.found;
    stored = h.stored;
    version = h.version;
  }

  pub get-Coherent :
      (now : Time) (uid : String) (w : World LruCacheTtl Tables)
      → Coherent w
      → Coherent (record w { cache = (get now uid w.cache).0 })
  get-Coherent now uid w h = record {
    valid = get-IsValid now uid w.cache h.valid;
    reflects = get-All now w.cache h.valid (Reflects w.db) (Reflects-term w.db) h.reflects uid;
  }

  pub fill-Coherent :
      (now : Time) (uid : String) (o : Order) (w : World LruCacheTtl Tables)
      → get_by_uid server uid w.db ≡ ok (some o)
      → Coherent w
      → Coherent (record w { cache = (set now (some o) w.cache).0 })
  fill-Coherent now uid o w read h = record {
    valid = set-IsValid now (some o) w.cache h.valid;
    reflects =
        set-All now w.cache h.valid (Reflects w.db) o
          (λ named. Reflects-read o w.db uid (fresh_entry w.cache.ttl now o) read refl refl)
          (All-map_of (λ v held other. held) (view w.cache) h.reflects);
  }

  pub save-Coherent :
      IsUp server
      → (now : Time) (o : Order) (w : World LruCacheTtl Tables)
      → (save server (some o) w.db).1 ≡ none
      → Coherent w
      → Coherent
          (record { cache = (set now (some o) w.cache).0; db = (save server (some o) w.db).0 })
  save-Coherent up now o w done h = record {
    valid = set-IsValid now (some o) w.cache h.valid;
    reflects =
        set-All now w.cache h.valid (Reflects (save server (some o) w.db).0) o
          (λ named. Reflects-saved up o w.db (fresh_entry w.cache.ttl now o) done refl refl)
          (All-map_of (λ v held other. Reflects-save o w.db v other held) (view w.cache)
            h.reflects);
  }
