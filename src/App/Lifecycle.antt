-- ===== src/App/Lifecycle.antt =====
-- App.Run of internal/app/bootstrap.go: its two goroutines, the channel `errCh` and the code that
-- waits for them, as turns that a scheduler gives in any order. A turn whose guard does not hold
-- changes nothing: that goroutine has ended, or it waits. What a goroutine ends with is an argument
-- of its turn.
pub mod Progress
use wb_tasks_l.Prelude.{
  ℕ, suc, ◌+◌, ◌≤◌, ◌≡◌, refl, sym, ap, ◌∙◌, inl, inr, Bool, true, false, ◌||◌, List, [], ◌∷◌, ◌++◌,
  Option, none, some, ℤ, pos, ltb, leb_ℤ, arith, length, length-append, Bool-cases, if◌then◌else◌,
}
use wb_tasks_l.Errors.{Error, errors_is, server_closed}

-- Where Run stands: at the select, before Shutdown, before Close, and at its end.
pub data Phase : Type 0 where
  waiting stopping closing returned : Phase

pub record RunState : Type 0 where
  pub ctx_done : Bool
  pub consuming : Bool
  pub serving : Bool
  pub err_ch : List Error
  pub phase : Phase
  -- The timeout that Shutdown got.
  pub shutdown : Option ℤ
  pub reader_closed : Bool

pub data Turn : Type 0 where
  cancel : Turn
  consumer_ends : Option Error → Turn
  server_ends : Option Error → Turn
  -- The next step of Run itself. A select with both cases ready takes either.
  proceeds : Bool → Turn

abbrev pub start : RunState
start = record {
  ctx_done = false;
  consuming = true;
  serving = true;
  err_ch = [];
  phase = waiting;
  shutdown = none;
  reader_closed = false;
}

abbrev pub grace : ℤ → ℤ
grace timeout = if leb_ℤ timeout (pos 0) then pos 5000000000 else timeout

-- A send on `errCh`, which holds two errors. It waits while the channel is full.
unfoldable pub send : Error → RunState → RunState → RunState
send e done s = if ltb (length s.err_ch) 2 then record done { err_ch = s.err_ch ++ e ∷ [] } else s

unfoldable pub end_consumer : Option Error → RunState → RunState
unfolding send
end_consumer failed s =
    if s.consuming
    then elim failed [
      | none ↦ record s { consuming = false }
      | some e ↦ send e (record s { consuming = false }) s
    ]
    else s

-- `err != nil && !errors.Is(err, http.ErrServerClosed)`
unfoldable pub end_server : Option Error → RunState → RunState
unfolding send
end_server failed s =
    if s.serving
    then elim failed [
      | none ↦ record s { serving = false }
      | some e ↦
          if errors_is e server_closed
          then record s { serving = false }
          else send e (record s { serving = false }) s
    ]
    else s

abbrev pub receive : RunState → RunState
receive s = elim s.err_ch [ [] ↦ s | e ∷ rest ↦ record s { err_ch = rest; phase = stopping } ]

unfoldable pub wait : Bool → RunState → RunState
wait ctx_first s =
    if s.ctx_done
    then (if ctx_first
        then record s { phase = stopping }
        else elim s.err_ch [ [] ↦ record s { phase = stopping } | _ ∷ _ ↦ receive s ])
    else receive s

unfoldable pub proceed : ℤ → Bool → RunState → RunState
unfolding wait
proceed timeout ctx_first s = elim s.phase [
  | waiting ↦ wait ctx_first s
  | stopping ↦ record s { phase = closing; shutdown = some (grace timeout) }
  | closing ↦ record s { phase = returned; reader_closed = true }
  | returned ↦ s
]

unfoldable pub turn : ℤ → Turn → RunState → RunState
unfolding end_consumer end_server proceed
turn timeout cancel s = record s { ctx_done = true }
turn timeout (consumer_ends failed) s = end_consumer failed s
turn timeout (server_ends failed) s = end_server failed s
turn timeout (proceeds ctx_first) s = proceed timeout ctx_first s

unfoldable pub turns : ℤ → List Turn → RunState → RunState
unfolding turn
turns timeout [] s = s
turns timeout (t ∷ ts) s = turns timeout ts (turn timeout t s)
