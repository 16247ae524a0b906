-- ===== src/Testutil/Topics.antt =====
-- internal/testutil/kafka.go: EnsureTopic, the first of its brokers, and the wait for a topic. What
-- kafka-go answers is an argument, as are the functions of strings and net/url. The name of the
-- topic in an error is left out.
use wb_tasks_l.Prelude.{
  ℕ, zero, suc, ◌+◌, ◌*◌, ◌≤◌, ◌<◌, String, ◌≡◌, ◌≢◌, refl, ap, ◌∙◌, inl, inr, ◌⊎◌, ◌↔◌, Bool, List,
  [], ◌∷◌, Option, none, some, ltb, arith, Option-cases, ◌==◌, if◌then◌else◌,
}
use wb_tasks_l.Errors.{Error, plain, new, wrap, Result, ok, err, Result-cases}
use native.Mathlib.Decide.{dec_lt}

-- strings.Split at ",", which is never empty, as its first part; strings.TrimSpace;
-- strings.Contains; and url.Parse, as the host of the URL.
pub record Texts : Type 0 where
  pub before_comma : String → String
  pub trim_space : String → String
  pub contains : String → String → Bool
  pub url_host : String → Result String
  pub to_lower : String → String

unfoldable pub first_bootstrap : Texts → String → String
first_bootstrap texts raw =
    let first = texts.trim_space (texts.before_comma raw) in
    if texts.contains first "://"
    then elim (texts.url_host first) [
      | err e ↦ first
      | ok host ↦ if host == "" then first else host
    ]
    else first

-- The connections that EnsureTopic dials, to a broker and to the controller.
pub data Conn : Type 0 where
  broker admin : Conn

pub data ConnEvent : Type 0 where
  dialed closed : Conn → ConnEvent

pub record KafkaHost : Type 0 where
  pub dial : String → Option Error
  -- The address of the controller.
  pub controller : Result String
  pub create_topics : Option Error
  pub error_text : Error → String

-- A topic that exists is no error.
abbrev pub create_error : Texts → KafkaHost → Option Error
create_error texts host = elim host.create_topics [
  | none ↦ none
  | some e ↦
      if texts.contains (texts.to_lower (host.error_text e)) "already exists" then none else some e
]

-- EnsureTopic, over the result of the wait for the topic.
unfoldable pub ensure_topic :
    Texts → KafkaHost → (String → Option Error) → String → List ConnEvent × Option Error
unfolding first_bootstrap
ensure_topic texts host wait raw =
    let addr = first_bootstrap texts raw in
    elim (host.dial addr) [
      | some e ↦ ([], some e)
      | none ↦ elim host.controller [
        | err e ↦ (dialed broker ∷ closed broker ∷ [], some e)
        | ok admin_addr ↦ elim (host.dial admin_addr) [
          | some e ↦ (dialed broker ∷ closed broker ∷ [], some e)
          | none ↦ (
            dialed broker ∷ dialed admin ∷ closed admin ∷ closed broker ∷ [],
            elim (create_error texts host) [ some e ↦ some e | none ↦ wait addr ],
          )
        ]
      ]
    ]

-- A topic is ensured exactly when both connections are made, the topic is created or exists, and
-- the wait for it ends well.
pub ensure_topic_iff :
    (texts : Texts) (host : KafkaHost) (wait : String → Option Error) (raw : String)
    → ((ensure_topic texts host wait raw).1 ≡ none) ↔ (
        (host.dial (first_bootstrap texts raw) ≡ none)
        × ((addr : String) × (host.controller ≡ ok addr) × (host.dial addr ≡ none))
        × (create_error texts host ≡ none)
        × (wait (first_bootstrap texts raw) ≡ none))
unfolding ensure_topic
ensure_topic_iff texts host wait raw = (forward, backward)
  where
    addr : String
    addr = first_bootstrap texts raw

    forward :
        (ensure_topic texts host wait raw).1 ≡ none
        → (host.dial addr ≡ none)
          × ((a : String) × (host.controller ≡ ok a) × (host.dial a ≡ none))
          × (create_error texts host ≡ none)
          × (wait addr ≡ none)
    forward h = elim (Option-cases (host.dial addr)) [
      | inr (e, d) ↦ absurd (ground (arith, h, d))
      | inl d ↦ elim (Result-cases host.controller) [
        | inr (e, c) ↦ absurd (ground (arith, h, d, c))
        | inl (a, c) ↦ elim (Option-cases (host.dial a)) [
          | inr (e, p) ↦ absurd (ground (arith, h, d, c, p))
          | inl p ↦ elim (Option-cases (create_error texts host)) [
            | inr (e, q) ↦ absurd (ground (arith, h, d, c, p, q))
            | inl q ↦ (d, (a, c, p), q, ground (arith, h, d, c, p, q))
          ]
        ]
      ]
    ]

    backward :
        (host.dial addr ≡ none)
          × ((a : String) × (host.controller ≡ ok a) × (host.dial a ≡ none))
          × (create_error texts host ≡ none)
          × (wait addr ≡ none)
        → (ensure_topic texts host wait raw).1 ≡ none
    backward (d, (a, c, p), q, w) = rw (ensure_topic, d, c, p, q, w) refl

-- What a round of waitTopicReady meets: the error of the context, those of Dial and of
-- ReadPartitions, the number of partitions, and the time of the test, in nanoseconds.
pub record Round : Type 0 where
  pub ctx_err : Option Error
  pub dial : Option Error
  pub partitions : Result ℕ
  pub now : ℕ

-- What an attempt finds: the topic is ready, or the error `err` of the loop, which may be nil.
pub data Attempt : Type 0 where
  ready : Attempt
  pending : Option Error → Attempt

unfoldable pub attempt : Round → Attempt
attempt r = elim r.dial [
  | some e ↦ pending (some e)
  | none ↦ elim r.partitions [
    | err e ↦ pending (some e)
    | ok n ↦ if ltb 0 n then ready else pending none
  ]
]

-- The error after the deadline.
abbrev pub not_ready : Option Error → Error
not_ready none = new (plain "topic not ready")
not_ready (some e) = wrap (plain "topic not ready") e

-- What a round leads to: a return, or none and the next round after a sleep.
unfoldable pub round : ℕ → Round → Option (Option Error)
unfolding attempt
round deadline r = elim r.ctx_err [
  | some e ↦ some (some e)
  | none ↦ elim (attempt r) [
    | ready ↦ some none
    | pending failed ↦ if ltb deadline r.now then some (some (not_ready failed)) else none
  ]
]

-- The loop, with fuel, from the i-th round on; `none` means that the fuel ran out.
unfoldable pub wait_rounds : ℕ → (ℕ → Round) → ℕ → ℕ → Option (Option Error)
wait_rounds zero rounds deadline i = none
wait_rounds (suc fuel) rounds deadline i = elim (round deadline (rounds i)) [
  | some returned ↦ some returned
  | none ↦ wait_rounds fuel rounds deadline (suc i)
]

-- The deadline is five seconds after the start.
abbrev pub wait_topic_ready : ℕ → (ℕ → Round) → ℕ → Option (Option Error)
wait_topic_ready fuel rounds start = wait_rounds fuel rounds (start + 5000000000) 0

-- A round in which the topic was ready, of a context that was not done.
abbrev pub IsReady : Round → Type 0
IsReady r = (r.ctx_err ≡ none) × (attempt r ≡ ready)

round-ends : (deadline : ℕ) (r : Round) → deadline < r.now → round deadline r ≢ none
unfolding round
round-ends deadline r late = ground (arith, late)

round-IsReady : (deadline : ℕ) (r : Round) → round deadline r ≡ some none → IsReady r
unfolding round
round-IsReady deadline r h = ground (arith, h)

wait_rounds-ends :
    (fuel : ℕ) (rounds : ℕ → Round) (deadline i last : ℕ)
    → deadline < (rounds last).now
    → i ≤ last
    → last < i + fuel
    → (result : Option Error) × (wait_rounds fuel rounds deadline i ≡ some result)
unfolding wait_rounds
wait_rounds-ends zero rounds deadline i last late above below = absurd (omega arith)
wait_rounds-ends (suc fuel) rounds deadline i last late above below =
    elim (Option-cases (round deadline (rounds i))) [
      | inr (result, e) ↦ (result, rw (wait_rounds, e))
      | inl e ↦ elim (dec_lt i last) [
        | yes before ↦
            rw (wait_rounds, e)
              (wait_rounds-ends fuel rounds deadline (suc i) last late (omega arith) (omega arith))
        | no there ↦
            let same : i ≡ last = omega arith in
            absurd (round-ends deadline (rounds last) late (rw same at e))
      ]
    ]

wait_rounds-IsReady :
    (fuel : ℕ) (rounds : ℕ → Round) (deadline i : ℕ)
    → wait_rounds fuel rounds deadline i ≡ some none
    → (j : ℕ) × IsReady (rounds j)
unfolding wait_rounds
wait_rounds-IsReady zero rounds deadline i h = cc
wait_rounds-IsReady (suc fuel) rounds deadline i h =
    elim (Option-cases (round deadline (rounds i))) [
      | inr (result, e) ↦ (i, round-IsReady deadline (rounds i) (ground (arith, h, e)))
      | inl e ↦ wait_rounds-IsReady fuel rounds deadline (suc i) (ground (arith, h, e))
    ]

-- The wait for a topic ends within 27 rounds, if each sleep takes the 200 milliseconds that it asks
-- for; and it returns no error only if in some round the topic had a partition and the context was
-- not done.
pub wait_topic_ready-ends :
    (rounds : ℕ → Round) (start : ℕ)
    → ((i : ℕ) → start + i * 200000000 ≤ (rounds i).now)
    → (result : Option Error) × (wait_topic_ready 27 rounds start ≡ some result)
      × ((result ≢ none) ⊎ ((j : ℕ) × IsReady (rounds j)))
wait_topic_ready-ends rounds start slow =
    let late : start + 5000000000 < (rounds 26).now = omega (arith, slow 26) in
    let (result, e) =
      wait_rounds-ends 27 rounds (start + 5000000000) 0 26 late (omega arith) (omega arith) in
    elim (Option-cases result) [
      | inr (failure, f) ↦ (result, e, inl (λ g. cc))
      | inl f ↦
          (result, e, inr (wait_rounds-IsReady 27 rounds (start + 5000000000) 0 (e ∙ ap some f)))
    ]
