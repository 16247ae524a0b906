-- ===== src/Kafka/Loss.antt =====
-- What becomes of a message after a temporary error, once a later message of its partition is
-- committed. A reader goes on to the next message after FetchMessage, in the order of the offsets of
-- each partition; a commit of a message sets the position of the group in its partition behind it.
use wb_tasks_l.Prelude.{
  ℕ, ◌≡◌, refl, ap, sym, ◌∙◌, ◌≢◌, false, List, [], ◌∷◌, ◌++◌, All, Option, none, some, ℤ, pos,
  ◌+ℤ◌, ◌<ℤ◌, ◌⊎◌, leb_ℤ, +ℤ_parts, Bool-cases, inl, inr, arith, if◌then◌else◌,
}
use wb_tasks_l.Errors.{Error}
use wb_tasks_l.Kafka.{
  Message, ConsumerConfig, Run, Fetch, message, fetch_failed, should_commit, handle_message, pause,
  commit, consume, step, loop,
}

-- The position of the group in a partition after some commits, the last one first: the last commit
-- of a message of the partition sets it to the next offset, and no other commit moves it.
pub record IsPosition (position : ℤ → List Message → Option ℤ) : Type 0 where
  pub own :
      (m : Message) (commits : List Message)
      → position m.partition (m ∷ commits) ≡ some (m.offset +ℤ pos 1)
  pub other :
      (p : ℤ) (m : Message) (commits : List Message)
      → m.partition ≢ p
      → position p (m ∷ commits) ≡ position p commits

-- What is fetched after a message lies behind it, where it is of the same partition.
abbrev pub ComesAfter : Message → Fetch → Type 0
ComesAfter m (message m') = m'.partition ≡ m.partition → m.offset <ℤ m'.offset
ComesAfter m (fetch_failed ctx_err interrupted) = Unit

abbrev pub IsLater : Message → Message → Type 0
IsLater m m' = m'.partition ≡ m.partition → m.offset <ℤ m'.offset

same_ℤ : (a b : ℤ) → (a ≡ b) ⊎ (a ≢ b)
same_ℤ a b = elim (Bool-cases (leb_ℤ a b)) [
  | inl p ↦ elim (Bool-cases (leb_ℤ b a)) [
    | inl q ↦ inl (ground (arith, p, q))
    | inr q ↦ inr (λ e. ground (arith, e, p, q))
  ]
  | inr p ↦ inr (λ e. ground (arith, e, p))
]

-- The position after further commits that lie behind `m` in its partition.
position-append :
    (position : ℤ → List Message → Option ℤ) (m : Message) (news base : List Message)
    → IsPosition position
    → All (IsLater m) news
    → All (λ m'. m'.partition ≢ m.partition) news
      ⊎ ((k : ℤ) × (position m.partition (news ++ base) ≡ some k) × (m.offset <ℤ k))
position-append position m [] base laws later = inl tt
position-append position m (m' ∷ news) base laws later = elim (same_ℤ m'.partition m.partition) [
  | inl same ↦ inr (
    m'.offset +ℤ pos 1,
    ap (λ p. position p (m' ∷ news ++ base)) (sym same) ∙ laws.own m' (news ++ base),
    ground (arith, later.0 same, +ℤ_parts m'.offset (pos 1)),
  )
  | inr apart ↦ elim (position-append position m news base laws later.1) [
    | inl others ↦ inl (apart, others)
    | inr (k, at, behind) ↦ inr (k, laws.other m.partition m' (news ++ base) apart ∙ at, behind)
  ]
]

module _ {Service : Type 0} (save : List ℕ → Service → Service × Option Error) (int63n : ℕ → ℕ → ℕ)
    (cfg : ConsumerConfig) where
  committed-consume :
      (msg : Message) (r : Run Service)
      → (consume save int63n cfg msg r).committed
        ≡ (if should_commit (save msg.value r.service).1 then msg ∷ r.committed else r.committed)
  unfolding consume handle_message pause commit
  committed-consume msg r = ground arith

  -- What the rounds after `m` commit.
  loop-news :
      (m : Message) (fs : List Fetch) (r : Run Service) (news base : List Message)
      → All (ComesAfter m) fs
      → All (IsLater m) news
      → r.committed ≡ news ++ base
      → (news' : List Message) × ((loop save int63n cfg fs r).0.committed ≡ news' ++ base)
        × All (IsLater m) news'
  unfolding loop step pause
  loop-news m [] r news base after later same = (news, same, later)
  loop-news m (message m' ∷ fs) r news base after later same =
      let c = committed-consume m' r in
      elim (Bool-cases (should_commit (save m'.value r.service).1)) [
        | inl q ↦
            loop-news m fs (consume save int63n cfg m' r) (m' ∷ news) base after.1 (after.0, later)
              (c ∙ rw (q, same) refl)
        | inr q ↦
            loop-news m fs (consume save int63n cfg m' r) news base after.1 later
              (c ∙ rw (q, same) refl)
      ]
  loop-news m (fetch_failed (some e) i ∷ fs) r news base after later same = (news, same, later)
  loop-news m (fetch_failed none (some e) ∷ fs) r news base after later same = (news, same, later)
  loop-news m (fetch_failed none none ∷ fs) r news base after later same =
      loop-news m fs (step save int63n cfg (fetch_failed none none) r).0 news base after.1 later
        same

  -- A message that met a temporary error is lost to the group with the next commit in its partition:
  -- where the loop, in any state, fetches `m`, whose processing fails with an error that is not
  -- committed, and goes on with any fetches, of which those of the partition have greater offsets,
  -- then every message that it commits from there on is another than `m`, of another partition or
  -- with a greater offset; and unless all of them are of other partitions, the position of the
  -- group, at which a restart resumes, lies behind `m`.
  pub loop-loses :
      (position : ℤ → List Message → Option ℤ) (m : Message) (fs : List Fetch) (r : Run Service)
      → IsPosition position
      → All (ComesAfter m) fs
      → should_commit (save m.value r.service).1 ≡ false
      → (let r' = (loop save int63n cfg (message m ∷ fs) r).0 in
          (news : List Message) × (r'.committed ≡ news ++ r.committed)
          × All (IsLater m) news
          × (All (λ m'. m'.partition ≢ m.partition) news
              ⊎ ((k : ℤ) × (position m.partition r'.committed ≡ some k) × (m.offset <ℤ k))))
  unfolding loop step
  loop-loses position m fs r laws after failed =
      let r1 = consume save int63n cfg m r in
      let (news, same, later) =
        loop-news m fs r1 [] r.committed after tt (committed-consume m r ∙ rw failed refl) in
      (
        news,
        same,
        later,
        elim (position-append position m news r.committed laws later) [
          | inl others ↦ inl others
          | inr (k, at, behind) ↦ inr (k, ap (position m.partition) same ∙ at, behind)
        ],
      )
