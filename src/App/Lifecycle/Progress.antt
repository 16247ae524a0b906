-- ===== src/App/Lifecycle/Progress.antt =====
-- What App.Run reaches, whatever the scheduler does.
use wb_tasks_l.Prelude.{
  ℕ, suc, ◌+◌, ◌-◌, ◌≤◌, ◌≡◌, refl, ap, ◌∙◌, Bool, true, false, ◌||◌, List, [], ◌∷◌, ◌++◌, Option,
  none, some, ℤ, arith, length, length-append, List-cases, if◌then◌else◌,
}
use wb_tasks_l.Errors.{Error}
use wb_tasks_l.App.Lifecycle.{
  Phase, waiting, stopping, closing, returned, RunState, Turn, cancel, consumer_ends, server_ends,
  proceeds, start, grace, send, end_consumer, end_server, wait, proceed, turn, turns,
}

abbrev one_if : Bool → ℕ
one_if b = if b then 1 else 0

-- The errors in the channel, and those that may come.
abbrev pub outstanding : RunState → ℕ
outstanding s = length s.err_ch + one_if s.consuming + one_if s.serving

end_consumer-outstanding :
    (failed : Option Error) (s : RunState) → outstanding (end_consumer failed s) ≤ outstanding s
unfolding end_consumer send
end_consumer-outstanding none s = ground arith
end_consumer-outstanding (some e) s = ground (arith, length-append s.err_ch (e ∷ []))

end_server-outstanding :
    (failed : Option Error) (s : RunState) → outstanding (end_server failed s) ≤ outstanding s
unfolding end_server send
end_server-outstanding none s = ground arith
end_server-outstanding (some e) s = ground (arith, length-append s.err_ch (e ∷ []))

wait-outstanding :
    (ctx_first : Bool) (s : RunState) → outstanding (wait ctx_first s) ≤ outstanding s
unfolding wait
wait-outstanding ctx_first s = ground (arith, List-cases s.err_ch)

turn-outstanding :
    (timeout : ℤ) (t : Turn) (s : RunState) → outstanding (turn timeout t s) ≤ outstanding s
unfolding turn proceed
turn-outstanding timeout cancel s = omega arith
turn-outstanding timeout (consumer_ends failed) s = end_consumer-outstanding failed s
turn-outstanding timeout (server_ends failed) s = end_server-outstanding failed s
turn-outstanding timeout (proceeds ctx_first) s = ground (arith, wait-outstanding ctx_first s)

turns-outstanding :
    (timeout : ℤ) (ts : List Turn) (s : RunState) → outstanding (turns timeout ts s) ≤ outstanding s
unfolding turns
turns-outstanding timeout [] s = omega arith
turns-outstanding timeout (t ∷ ts) s =
    omega (arith, turns-outstanding timeout ts (turn timeout t s), turn-outstanding timeout t s)

-- No goroutine of Run is left waiting on the channel: at any time, one that ends ends, with or
-- without an error to send.
pub turn-ends :
    (timeout : ℤ) (ts : List Turn) (failed : Option Error)
    → (let s = turns timeout ts start in
        ((turn timeout (consumer_ends failed) s).consuming ≡ false)
        × ((turn timeout (server_ends failed) s).serving ≡ false))
unfolding turn end_consumer end_server send
turn-ends timeout ts none = ground arith
turn-ends timeout ts (some e) =
    let room = turns-outstanding timeout ts start in ground (arith, room)

-- The turns of Run itself that are left.
abbrev pub steps_left : Phase → ℕ
steps_left waiting = 3
steps_left stopping = 2
steps_left closing = 1
steps_left returned = 0

-- Something stops Run: its context is done, an error is in the channel, or it has stopped waiting.
unfoldable pub is_ready : RunState → Bool
is_ready s =
    s.ctx_done
    || (elim s.err_ch [ [] ↦ false | _ ∷ _ ↦ true ])
    || (elim s.phase [ waiting ↦ false | stopping ↦ true | closing ↦ true | returned ↦ true ])

-- What is shut down, by the phase.
abbrev pub shut : ℤ → Phase → Option ℤ × Bool
shut timeout waiting = (none, false)
shut timeout stopping = (none, false)
shut timeout closing = (some (grace timeout), false)
shut timeout returned = (some (grace timeout), true)

abbrev pub own_turns : List Turn → ℕ
own_turns [] = 0
own_turns (cancel ∷ ts) = own_turns ts
own_turns (consumer_ends failed ∷ ts) = own_turns ts
own_turns (server_ends failed ∷ ts) = own_turns ts
own_turns (proceeds ctx_first ∷ ts) = suc (own_turns ts)

turn-is_ready :
    (timeout : ℤ) (t : Turn) (s : RunState) → is_ready s ≡ true → is_ready (turn timeout t s) ≡ true
unfolding turn end_consumer end_server send proceed wait is_ready
turn-is_ready timeout cancel s h = ground arith
turn-is_ready timeout (consumer_ends none) s h = ground (arith, h)
turn-is_ready timeout (consumer_ends (some e)) s h = ground (arith, h, List-cases s.err_ch)
turn-is_ready timeout (server_ends none) s h = ground (arith, h)
turn-is_ready timeout (server_ends (some e)) s h = ground (arith, h, List-cases s.err_ch)
turn-is_ready timeout (proceeds ctx_first) s h = ground (arith, h, List-cases s.err_ch)

turn-phase :
    (timeout : ℤ) (t : Turn) (s : RunState)
    → is_ready s ≡ true
    → steps_left (turn timeout t s).phase ≤ steps_left s.phase - own_turns (t ∷ [])
unfolding turn end_consumer end_server send proceed wait is_ready
turn-phase timeout cancel s h = omega arith
turn-phase timeout (consumer_ends none) s h = ground arith
turn-phase timeout (consumer_ends (some e)) s h = ground arith
turn-phase timeout (server_ends none) s h = ground arith
turn-phase timeout (server_ends (some e)) s h = ground arith
turn-phase timeout (proceeds ctx_first) s h = ground (arith, h, List-cases s.err_ch)

own_turns-cons :
    (t : Turn) (ts : List Turn) → own_turns (t ∷ ts) ≡ own_turns (t ∷ []) + own_turns ts
own_turns-cons cancel ts = omega arith
own_turns-cons (consumer_ends failed) ts = omega arith
own_turns-cons (server_ends failed) ts = omega arith
own_turns-cons (proceeds ctx_first) ts = omega arith

turns-phase :
    (timeout : ℤ) (ts : List Turn) (s : RunState)
    → is_ready s ≡ true
    → steps_left (turns timeout ts s).phase ≤ steps_left s.phase - own_turns ts
unfolding turns
turns-phase timeout [] s h = omega arith
turns-phase timeout (t ∷ ts) s h =
    let now = turn-phase timeout t s h in
    let later = turns-phase timeout ts (turn timeout t s) (turn-is_ready timeout t s h) in
    omega (arith, now, later, own_turns-cons t ts)

-- The phase tells what Run has shut down.
turn-shut :
    (timeout : ℤ) (t : Turn) (s : RunState)
    → (s.shutdown, s.reader_closed) ≡ shut timeout s.phase
    → ((turn timeout t s).shutdown, (turn timeout t s).reader_closed)
      ≡ shut timeout (turn timeout t s).phase
unfolding turn end_consumer end_server send proceed wait
turn-shut timeout cancel s h = h
turn-shut timeout (consumer_ends none) s h = ground (arith, h)
turn-shut timeout (consumer_ends (some e)) s h = ground (arith, h)
turn-shut timeout (server_ends none) s h = ground (arith, h)
turn-shut timeout (server_ends (some e)) s h = ground (arith, h)
turn-shut timeout (proceeds ctx_first) s h = ground (arith, h, List-cases s.err_ch)

turns-shut :
    (timeout : ℤ) (ts : List Turn) (s : RunState)
    → (s.shutdown, s.reader_closed) ≡ shut timeout s.phase
    → ((turns timeout ts s).shutdown, (turns timeout ts s).reader_closed)
      ≡ shut timeout (turns timeout ts s).phase
unfolding turns
turns-shut timeout [] s h = h
turns-shut timeout (t ∷ ts) s h = turns-shut timeout ts (turn timeout t s) (turn-shut timeout t s h)

turns-append :
    (timeout : ℤ) (before after : List Turn) (s : RunState)
    → turns timeout (before ++ after) s ≡ turns timeout after (turns timeout before s)
unfolding turns
turns-append timeout [] after s = refl
turns-append timeout (t ∷ before) after s = turns-append timeout before after (turn timeout t s)

steps_left_bound : (p : Phase) → steps_left p ≤ 3
steps_left_bound waiting = omega arith
steps_left_bound stopping = omega arith
steps_left_bound closing = omega arith
steps_left_bound returned = omega arith

steps_left-none : (p : Phase) → steps_left p ≤ 0 → p ≡ returned
steps_left-none waiting h = absurd (omega (arith, h))
steps_left-none stopping h = absurd (omega (arith, h))
steps_left-none closing h = absurd (omega (arith, h))
steps_left-none returned h = refl

-- Run ends: once its context is done or an error is in the channel, three turns of its own are
-- enough, whatever other turns come between. It has then shut down the HTTP server, with a timeout
-- of five seconds where the configured one is not positive, and closed the consumer.
pub turns-returned :
    (timeout : ℤ) (before after : List Turn)
    → is_ready (turns timeout before start) ≡ true
    → 3 ≤ own_turns after
    → (let s = turns timeout (before ++ after) start in
        (s.phase ≡ returned) × (s.shutdown ≡ some (grace timeout)) × (s.reader_closed ≡ true))
turns-returned timeout before after ready enough =
    let mid = turns timeout before start in
    let at_most : steps_left mid.phase ≤ 3 = steps_left_bound mid.phase in
    let done : (turns timeout (before ++ after) start).phase ≡ returned =
      ap (λ s. s.phase) (turns-append timeout before after start)
      ∙ steps_left-none (turns timeout after mid).phase
          (omega (arith, turns-phase timeout after mid ready, at_most, enough)) in
    let closed : (
      (turns timeout (before ++ after) start).shutdown,
      (turns timeout (before ++ after) start).reader_closed,
    )
        ≡ (some (grace timeout), true) =
      turns-shut timeout (before ++ after) start refl ∙ ap (shut timeout) done in
    (done, ap (λ x. x.0) closed, ap (λ x. x.1) closed)
