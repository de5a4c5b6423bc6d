-- ===== src/Robot/Stop/Ends.antt =====
-- The end of the program in pkg/rockrobo/rockrobo.go: what holds of r.stopCh and r.waitGroup in
-- every interleaving.
use rocklet.Base.{
  ℕ, ◌≡◌, List, [], ◌∷◌, Option, none, some, Bool, true, false, ◌||◌, not, if◌then◌else◌, get_elem?,
  refl, sym, ◌∙◌,
}
use mathlib.Core.Path.{subst}
use rocklet.Robot.Stop.{
  Task, Progress, running, holding, stuck, ended, Goroutine, returned, State, Event, main_step,
  bind_fails, signal, clear, evaluate, receive, tick, socket_closed, waits, start, moved, finished,
  is_ended, socket_gone, on_evaluate, on_receive, on_tick, next_pass, is_status_loop,
  on_socket_closed, at_goroutine, step, run,
}
use rocklet.Robot.Stop.Weights.{live, same_weight}
use rocklet.Robot.Stop.Sound.{
  Passed, Sound, start-Sound, if-Sound, signal-Sound, clear-Sound, main-Sound, bind_fails-Sound,
  moved-Sound, finished-Sound,
}

in_receive : (b : Bool) → is_ended (if b then holding else stuck) ≡ false
in_receive true = refl
in_receive false = refl

module _ (s : State) (i : ℕ) (t : Task) (h : Sound s) where
  abbrev At : Progress → Type 0
  At p = get_elem? s.goroutines i ≡ some (record { task = t; progress = p })

  evaluate-Sound : (p : Progress) → At p → Sound (on_evaluate s i t p)
  evaluate-Sound running e =
      if-Sound (waits t) (moved s i (if s.stop_ch then holding else stuck)) s
        (λ w.
          moved-Sound s i (if s.stop_ch then holding else stuck)
            (record { task = t; progress = running }) e
            (same_weight (record { task = t; progress = running })
              (if s.stop_ch then holding else stuck) refl (in_receive s.stop_ch))
            h)
        (λ w. h)
  evaluate-Sound holding e = h
  evaluate-Sound stuck e = h
  evaluate-Sound ended e = h

  receive-Sound : (p : Progress) → At p → Sound (on_receive s i t p)
  receive-Sound holding e =
      if-Sound s.closed (finished s i t) s
        (λ c. finished-Sound s i (record { task = t; progress = holding }) e refl h) (λ c. h)
  receive-Sound running e = h
  receive-Sound stuck e = h
  receive-Sound ended e = h

  closed-Sound : (p : Progress) → At p → Sound (on_socket_closed s i t p)
  closed-Sound running e =
      if-Sound (socket_gone s.goroutines t) (finished s i t) s
        (λ c. finished-Sound s i (record { task = t; progress = running }) e refl h) (λ c. h)
  closed-Sound holding e = h
  closed-Sound stuck e = h
  closed-Sound ended e = h

  again-Sound : (p : Progress) → At p → Sound (next_pass s i p)
  again-Sound running e = h
  again-Sound holding e =
      moved-Sound s i running (record { task = t; progress = holding }) e
        (same_weight (record { task = t; progress = holding }) running refl refl) h
  again-Sound stuck e =
      moved-Sound s i running (record { task = t; progress = stuck }) e
        (same_weight (record { task = t; progress = stuck }) running refl refl) h
  again-Sound ended e = h

  tick-Sound : (p : Progress) → At p → Sound (on_tick s i t p)
  tick-Sound p e = if-Sound (is_status_loop t) (next_pass s i p) s (λ l. again-Sound p e) (λ l. h)

at-Sound :
    (f : Task → Progress → State) (s : State) (i : ℕ) (o : Option Goroutine)
    → get_elem? s.goroutines i ≡ o
    → Sound s
    → ((t : Task) (p : Progress)
        → get_elem? s.goroutines i ≡ some (record { task = t; progress = p })
        → Sound (f t p))
    → Sound (at_goroutine f s o)
at-Sound f s i none e h k = h
at-Sound f s i (some g) e h k = k g.task g.progress e

step-Sound : (s : State) (e : Event) → Sound s → Sound (step s e)
unfolding step
step-Sound s main_step h = main-Sound s s.main refl h
step-Sound s bind_fails h = bind_fails-Sound s s.main h
step-Sound s signal h = signal-Sound s h
step-Sound s clear h = clear-Sound s h
step-Sound s (evaluate i) h =
    at-Sound (on_evaluate s i) s i (get_elem? s.goroutines i) refl h (λ t. evaluate-Sound s i t h)
step-Sound s (receive i) h =
    at-Sound (on_receive s i) s i (get_elem? s.goroutines i) refl h (λ t. receive-Sound s i t h)
step-Sound s (tick i) h =
    at-Sound (on_tick s i) s i (get_elem? s.goroutines i) refl h (λ t. tick-Sound s i t h)
step-Sound s (socket_closed i) h =
    at-Sound (on_socket_closed s i) s i (get_elem? s.goroutines i) refl h
      (λ t. closed-Sound s i t h)

run-Sound : (s : State) (es : List Event) → Sound s → Sound (run s es)
unfolding run
run-Sound s [] h = h
run-Sound s (e ∷ es) h = run-Sound (step s e) es (step-Sound s e h)

-- In every interleaving of the goroutines, whatever sockets fail to bind and whenever signals
-- come: the channel is closed at most once and no Done goes below zero, the wait group counts the
-- goroutines that have a Done before them, and the channel is closed exactly when the field
-- r.stopCh is nil or runSignalHandling is about to set it to nil.
pub run-counts :
    (kubernetes cloud : Bool) (es : List Event)
    → let s = run (start kubernetes cloud) es in
      (s.panicked ≡ false)
      × (s.wait_group ≡ live s.goroutines)
      × (s.closed ≡ (not s.stop_ch || s.clearing))
run-counts kubernetes cloud es =
    let h = run-Sound (start kubernetes cloud) es (start-Sound kubernetes cloud) in
    (h.quiet, h.counts, h.closed_iff)

-- Run returns without an error only after the channel is closed, and when each goroutine that has
-- a Done before it has ended.
pub run-returned :
    (kubernetes cloud : Bool) (es : List Event)
    → (run (start kubernetes cloud) es).main ≡ returned
    → ((run (start kubernetes cloud) es).closed ≡ true)
      × (live (run (start kubernetes cloud) es).goroutines ≡ 0)
run-returned kubernetes cloud es e =
    let h = run-Sound (start kubernetes cloud) es (start-Sound kubernetes cloud) in
    let (closed, empty) =
      subst
        (Passed (run (start kubernetes cloud) es).closed
          (run (start kubernetes cloud) es).wait_group)
        e h.passed in
    (closed, sym h.counts ∙ empty)
