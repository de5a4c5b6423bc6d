-- ===== src/Robot/Stop/Early.antt =====
-- The end of the program in pkg/rockrobo/rockrobo.go: a signal that comes while Run is starting.
use rocklet.Base.{
  ℕ, ◌-◌, ◌≡◌, ◌≢◌, List, [], ◌∷◌, Option, none, some, Bool, true, false, ◌==◌, if◌then◌else◌, refl,
  ap, ◌∙◌, arith,
}
use rocklet.Robot.Stop.{
  Task, Progress, running, holding, stuck, ended, Goroutine, Main, starting, before_stop, in_stop,
  in_nil_stop, in_wait, returned, failed, State, Event, main_step, bind_fails, signal, clear,
  evaluate, receive, tick, socket_closed, counted, waits, binds, set_progress, moved, finished,
  socket_gone, on_evaluate, on_receive, on_tick, next_pass, is_status_loop, on_socket_closed,
  at_goroutine, on_main, on_bind_fails, close_channel, step, run,
}

-- Run has not yet come past its receive from r.stopCh.
abbrev not_past : Main → Bool
not_past (starting ts) = true
not_past before_stop = true
not_past in_nil_stop = true
not_past failed = true
not_past _ = false

pub record BeforeWait (s : State) : Type 0 where
  pub cleared : s.stop_ch ≡ false
  pub not_past_stop : not_past s.main ≡ true

if-BeforeWait :
    (b : Bool) (r s : State)
    → (b ≡ true → BeforeWait r)
    → (b ≡ false → BeforeWait s)
    → BeforeWait (if b then r else s)
if-BeforeWait true r s h k = h refl
if-BeforeWait false r s h k = k refl

nil_before : (b : Bool) → b ≡ false → not_past (if b then in_stop else in_nil_stop) ≡ true
nil_before true e = ground (arith, e)
nil_before false e = refl

main-BeforeWait : (s : State) (m : Main) → s.main ≡ m → BeforeWait s → BeforeWait (on_main s m)
main-BeforeWait s (starting []) e h = record { cleared = h.cleared; not_past_stop = refl }
main-BeforeWait s (starting (u ∷ us)) e h = record { cleared = h.cleared; not_past_stop = refl }
main-BeforeWait s before_stop e h = record {
  cleared = h.cleared;
  not_past_stop = nil_before s.stop_ch h.cleared;
}
main-BeforeWait s in_stop e h = ground (arith, ap not_past e, h.not_past_stop)
main-BeforeWait s in_wait e h = ground (arith, ap not_past e, h.not_past_stop)
main-BeforeWait s in_nil_stop e h = h
main-BeforeWait s returned e h = h
main-BeforeWait s failed e h = h

bind_fails-BeforeWait : (s : State) (m : Main) → BeforeWait s → BeforeWait (on_bind_fails s m)
bind_fails-BeforeWait s (starting (u ∷ us)) h =
    if-BeforeWait (binds u) _ s (λ c. record { cleared = h.cleared; not_past_stop = refl }) (λ c. h)
bind_fails-BeforeWait s (starting []) h = h
bind_fails-BeforeWait s before_stop h = h
bind_fails-BeforeWait s in_stop h = h
bind_fails-BeforeWait s in_nil_stop h = h
bind_fails-BeforeWait s in_wait h = h
bind_fails-BeforeWait s returned h = h
bind_fails-BeforeWait s failed h = h

-- What a goroutine does leaves the field and Run as they are.
abbrev Keeps : State → State → Type 0
Keeps s r = (r.stop_ch ≡ s.stop_ch) × (r.main ≡ s.main)

if-Keeps :
    (s : State) (b : Bool) (q r : State) → Keeps s q → Keeps s r → Keeps s (if b then q else r)
if-Keeps s true q r h k = h
if-Keeps s false q r h k = k

finished-Keeps : (s : State) (j : ℕ) (u : Task) → Keeps s (finished s j u)
finished-Keeps s j u =
    if-Keeps s (counted u) _ (moved s j ended)
      (if-Keeps s (s.wait_group == 0) (record s { panicked = true })
        (record s { goroutines = set_progress s.goroutines j ended; wait_group = s.wait_group - 1 })
        (refl, refl) (refl, refl))
      (refl, refl)

evaluate-Keeps : (s : State) (j : ℕ) (u : Task) (p : Progress) → Keeps s (on_evaluate s j u p)
evaluate-Keeps s j u running =
    if-Keeps s (waits u) (moved s j (if s.stop_ch then holding else stuck)) s (refl, refl)
      (refl, refl)
evaluate-Keeps s j u holding = (refl, refl)
evaluate-Keeps s j u stuck = (refl, refl)
evaluate-Keeps s j u ended = (refl, refl)

receive-Keeps : (s : State) (j : ℕ) (u : Task) (p : Progress) → Keeps s (on_receive s j u p)
receive-Keeps s j u holding =
    if-Keeps s s.closed (finished s j u) s (finished-Keeps s j u) (refl, refl)
receive-Keeps s j u running = (refl, refl)
receive-Keeps s j u stuck = (refl, refl)
receive-Keeps s j u ended = (refl, refl)

closed-Keeps : (s : State) (j : ℕ) (u : Task) (p : Progress) → Keeps s (on_socket_closed s j u p)
closed-Keeps s j u running =
    if-Keeps s (socket_gone s.goroutines u) (finished s j u) s (finished-Keeps s j u) (refl, refl)
closed-Keeps s j u holding = (refl, refl)
closed-Keeps s j u stuck = (refl, refl)
closed-Keeps s j u ended = (refl, refl)

pass-Keeps : (s : State) (j : ℕ) (p : Progress) → Keeps s (next_pass s j p)
pass-Keeps s j running = (refl, refl)
pass-Keeps s j holding = (refl, refl)
pass-Keeps s j stuck = (refl, refl)
pass-Keeps s j ended = (refl, refl)

goroutine-BeforeWait :
    (f : Task → Progress → State) (s : State) (o : Option Goroutine)
    → ((u : Task) (p : Progress) → Keeps s (f u p))
    → BeforeWait s
    → BeforeWait (at_goroutine f s o)
goroutine-BeforeWait f s none k h = h
goroutine-BeforeWait f s (some g) k h =
    let (field, main) = k g.task g.progress in
    record { cleared = field ∙ h.cleared; not_past_stop = ap not_past main ∙ h.not_past_stop }

step-BeforeWait : (s : State) (e : Event) → BeforeWait s → BeforeWait (step s e)
unfolding step
step-BeforeWait s main_step h = main-BeforeWait s s.main refl h
step-BeforeWait s bind_fails h = bind_fails-BeforeWait s s.main h
step-BeforeWait s signal h =
    if-BeforeWait s.clearing s _ (λ clearing. h)
      (λ idle.
        if-BeforeWait s.stop_ch (close_channel s) s (λ set. ground (arith, set, h.cleared))
          (λ nil. h))
step-BeforeWait s clear h =
    if-BeforeWait s.clearing _ s
      (λ clearing. record { cleared = refl; not_past_stop = h.not_past_stop }) (λ idle. h)
step-BeforeWait s (evaluate j) h = goroutine-BeforeWait (on_evaluate s j) s _ (evaluate-Keeps s j) h
step-BeforeWait s (receive j) h = goroutine-BeforeWait (on_receive s j) s _ (receive-Keeps s j) h
step-BeforeWait s (tick j) h =
    goroutine-BeforeWait (on_tick s j) s _
      (λ u p. if-Keeps s (is_status_loop u) (next_pass s j p) s (pass-Keeps s j p) (refl, refl)) h
step-BeforeWait s (socket_closed j) h =
    goroutine-BeforeWait (on_socket_closed s j) s _ (closed-Keeps s j) h

run-BeforeWait : (s : State) (es : List Event) → BeforeWait s → BeforeWait (run s es)
unfolding run
run-BeforeWait s [] h = h
run-BeforeWait s (e ∷ es) h = run-BeforeWait (step s e) es (step-BeforeWait s e h)

-- If the signal comes while Run is still starting, that is before it reads r.stopCh to wait for
-- it, Run never gets past that wait, whatever happens later: it does not even wait for the group.
pub early_signal_keeps_run :
    (s : State) (es : List Event)
    → BeforeWait s
    → ((run s es).main ≢ returned) × ((run s es).main ≢ in_wait)
early_signal_keeps_run s es h =
    let early = run-BeforeWait s es h in
    (
      λ e. ground (arith, ap not_past e, early.not_past_stop),
      λ e. ground (arith, ap not_past e, early.not_past_stop),
    )
