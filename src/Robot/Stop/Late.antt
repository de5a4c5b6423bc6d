-- ===== src/Robot/Stop/Late.antt =====
-- The end of the program in pkg/rockrobo/rockrobo.go: a goroutine that reads r.stopCh after
-- runSignalHandling has set it to nil.
use mathlib.Core.Path.{subst}
use rocklet.Base.{
  ℕ, ◌≡◌, ◌≢◌, List, [], ◌∷◌, ◌++◌, Option, none, some, Bool, true, false, ◌==◌, get_elem?, refl,
  arith,
}
use rocklet.Robot.Stop.{
  Task, rpc_closer, Progress, running, holding, stuck, ended, Goroutine, Main, starting,
  before_stop, in_stop, in_nil_stop, in_wait, returned, failed, State, Event, main_step, bind_fails,
  signal, clear, evaluate, receive, tick, socket_closed, counted, waits, binds, start, is_ended,
  on_evaluate, on_receive, on_tick, on_socket_closed, at_goroutine, on_main, on_bind_fails,
  on_signal, on_clear, close_channel, step, run,
}
use rocklet.Robot.Stop.Weights.{live, live-ended, counted_weight}
use rocklet.Robot.Stop.Ends.{run-returned}
use rocklet.Robot.Stop.Goroutines.{get_elem?_left}
use rocklet.Robot.Stop.Unread.{
  waiting, HasNotRead, if-HasNotRead, evaluate-HasNotRead, receive-HasNotRead, closed-HasNotRead,
  tick-HasNotRead,
}

module _ (i : ℕ) (t : Task) (w : waits t ≡ true) where
  main-HasNotRead : (s : State) (m : Main) → HasNotRead i t s → HasNotRead i t (on_main s m)
  main-HasNotRead s (starting []) h = record {
    cleared = h.cleared;
    progress = h.progress;
    there = h.there;
    waits_still = h.waits_still;
  }
  main-HasNotRead s (starting (u ∷ us)) h = record {
    cleared = h.cleared;
    progress = h.progress;
    there = get_elem?_left s.goroutines _ _ i h.there;
    waits_still = h.waits_still;
  }
  main-HasNotRead s before_stop h = record {
    cleared = h.cleared;
    progress = h.progress;
    there = h.there;
    waits_still = h.waits_still;
  }
  main-HasNotRead s in_stop h =
      if-HasNotRead i t w s.closed _ s
        (λ c. record {
          cleared = h.cleared;
          progress = h.progress;
          there = h.there;
          waits_still = h.waits_still;
        })
        (λ c. h)
  main-HasNotRead s in_wait h =
      if-HasNotRead i t w (s.wait_group == 0) _ s
        (λ c. record {
          cleared = h.cleared;
          progress = h.progress;
          there = h.there;
          waits_still = h.waits_still;
        })
        (λ c. h)
  main-HasNotRead s in_nil_stop h = h
  main-HasNotRead s returned h = h
  main-HasNotRead s failed h = h

  bind_fails-HasNotRead :
      (s : State) (m : Main) → HasNotRead i t s → HasNotRead i t (on_bind_fails s m)
  bind_fails-HasNotRead s (starting (u ∷ us)) h =
      if-HasNotRead i t w (binds u) _ s
        (λ c. record {
          cleared = h.cleared;
          progress = h.progress;
          there = h.there;
          waits_still = h.waits_still;
        })
        (λ c. h)
  bind_fails-HasNotRead s (starting []) h = h
  bind_fails-HasNotRead s before_stop h = h
  bind_fails-HasNotRead s in_stop h = h
  bind_fails-HasNotRead s in_nil_stop h = h
  bind_fails-HasNotRead s in_wait h = h
  bind_fails-HasNotRead s returned h = h
  bind_fails-HasNotRead s failed h = h

  at-HasNotRead :
      (f : Task → Progress → State) (s : State) (j : ℕ) (o : Option Goroutine)
      → get_elem? s.goroutines j ≡ o
      → HasNotRead i t s
      → ((u : Task) (p : Progress)
          → get_elem? s.goroutines j ≡ some (record { task = u; progress = p })
          → HasNotRead i t (f u p))
      → HasNotRead i t (at_goroutine f s o)
  at-HasNotRead f s j none e h k = h
  at-HasNotRead f s j (some g) e h k = k g.task g.progress e

  signal-HasNotRead : (s : State) → HasNotRead i t s → HasNotRead i t (on_signal s)
  signal-HasNotRead s h =
      if-HasNotRead i t w s.clearing s _ (λ clearing. h)
        (λ idle.
          if-HasNotRead i t w s.stop_ch (close_channel s) s (λ set. ground (arith, set, h.cleared))
            (λ nil. h))

  clear-HasNotRead : (s : State) → HasNotRead i t s → HasNotRead i t (on_clear s)
  clear-HasNotRead s h =
      if-HasNotRead i t w s.clearing _ s
        (λ clearing. record {
          cleared = refl;
          progress = h.progress;
          there = h.there;
          waits_still = h.waits_still;
        })
        (λ idle. h)

  step-HasNotRead : (s : State) (e : Event) → HasNotRead i t s → HasNotRead i t (step s e)
  unfolding step
  step-HasNotRead s main_step h = main-HasNotRead s s.main h
  step-HasNotRead s bind_fails h = bind_fails-HasNotRead s s.main h
  step-HasNotRead s signal h = signal-HasNotRead s h
  step-HasNotRead s clear h = clear-HasNotRead s h
  step-HasNotRead s (evaluate j) h =
      at-HasNotRead (on_evaluate s j) s j (get_elem? s.goroutines j) refl h
        (λ u p e. evaluate-HasNotRead i t w s j u p h)
  step-HasNotRead s (receive j) h =
      at-HasNotRead (on_receive s j) s j (get_elem? s.goroutines j) refl h
        (λ u p e. receive-HasNotRead i t w s j u p e h)
  step-HasNotRead s (tick j) h =
      at-HasNotRead (on_tick s j) s j (get_elem? s.goroutines j) refl h
        (λ u p e. tick-HasNotRead i t w s j u p h)
  step-HasNotRead s (socket_closed j) h =
      at-HasNotRead (on_socket_closed s j) s j (get_elem? s.goroutines j) refl h
        (λ u p e. closed-HasNotRead i t w s j u p e h)

  -- A goroutine that has not read r.stopCh when the signal comes never ends, whatever happens
  -- later.
  pub run-HasNotRead : (s : State) (es : List Event) → HasNotRead i t s → HasNotRead i t (run s es)
  unfolding run
  run-HasNotRead s [] h = h
  run-HasNotRead s (e ∷ es) h = run-HasNotRead (step s e) es (step-HasNotRead s e h)

run-append : (s : State) (es fs : List Event) → run s (es ++ fs) ≡ run (run s es) fs
unfolding run
run-append s [] fs = refl
run-append s (e ∷ es) fs = run-append (step s e) es fs

live_waiting :
    (gs : List Goroutine) (i : ℕ) (t : Task) (p : Progress)
    → get_elem? gs i ≡ some (record { task = t; progress = p })
    → counted t ≡ true
    → waiting p ≡ true
    → live gs ≢ 0
live_waiting gs i t p e c w z =
    let g : Goroutine = record { task = t; progress = p } in
    absurd (omega (arith, live-ended gs i g e, counted_weight g c (still p w), z))
  where
    still : (p : Progress) → waiting p ≡ true → is_ended p ≡ false
    still running w = refl
    still stuck w = refl
    still holding w = refl
    still ended w = ground (arith, w)

-- The closer of the RPC socket counts in the wait group: if it has not read r.stopCh when the
-- signal comes, Run never returns without an error, whatever happens before and after.
pub late_closer_keeps_run :
    (kubernetes cloud : Bool) (es fs : List Event) (i : ℕ)
    → HasNotRead i rpc_closer (run (start kubernetes cloud) es)
    → (run (start kubernetes cloud) (es ++ fs)).main ≢ returned
late_closer_keeps_run kubernetes cloud es fs i h back =
    let late = run-HasNotRead i rpc_closer refl (run (start kubernetes cloud) es) fs h in
    let whole = run-append (start kubernetes cloud) es fs in
    let (closed, empty) = run-returned kubernetes cloud (es ++ fs) back in
    live_waiting (run (run (start kubernetes cloud) es) fs).goroutines i rpc_closer late.progress
      late.there refl late.waits_still (subst (λ s. live s.goroutines ≡ 0) whole empty)
