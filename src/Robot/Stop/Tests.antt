-- ===== src/Robot/Stop/Tests.antt =====
-- The start and the end of pkg/rockrobo/rockrobo.go in some interleavings, without Kubernetes.
use rocklet.Base.{◌≡◌, ◌≢◌, List, [], ◌∷◌, ◌++◌, ◌||◌, true, false, not, refl, replicate}
use rocklet.Robot.Stop.{
  Event, main_step, bind_fails, signal, clear, evaluate, receive, socket_closed, returned, in_wait,
  running, start, step, run,
}
use rocklet.Robot.Stop.Weights.{live}
use rocklet.Robot.Stop.Ends.{run-counts, run-returned}
use rocklet.Robot.Stop.Late.{late_closer_keeps_run}
use rocklet.Robot.Stop.Early.{early_signal_keeps_run}

-- Run starts all goroutines and waits; the four closers read r.stopCh, the signal comes, the
-- closers close the sockets and the servers end.
abbrev in_order : List Event
in_order =
    replicate 11 main_step
    ++ (evaluate 0
        ∷ evaluate 1
        ∷ evaluate 2
        ∷ evaluate 3
        ∷ signal
        ∷ clear
        ∷ main_step
        ∷ receive 0
        ∷ receive 1
        ∷ receive 2
        ∷ receive 3
        ∷ socket_closed 4
        ∷ socket_closed 5
        ∷ socket_closed 7
        ∷ socket_closed 8
        ∷ main_step
        ∷ [])

run-returned_example :
    ((run (start false true) in_order).closed ≡ true)
    × (live (run (start false true) in_order).goroutines ≡ 0)
unfolding run step
run-returned_example = run-returned false true in_order refl

run-counts_example :
    let s = run (start true true) (
      main_step ∷ main_step ∷ signal ∷ clear ∷ bind_fails ∷ signal ∷ evaluate 1 ∷ receive 0 ∷ []) in
    (s.panicked ≡ false)
    × (s.wait_group ≡ live s.goroutines)
    × (s.closed ≡ (not s.stop_ch || s.clearing))
run-counts_example =
    run-counts true true
      (main_step ∷ main_step ∷ signal ∷ clear ∷ bind_fails ∷ signal ∷ evaluate 1 ∷ receive 0 ∷ [])

late_closer_keeps_run_example :
    (run (start false true) (
      (replicate 11 main_step ++ signal ∷ clear ∷ [])
      ++ (evaluate 3 ∷ main_step ∷ main_step ∷ []))).main
    ≢ returned
unfolding run step
late_closer_keeps_run_example =
    late_closer_keeps_run false true (replicate 11 main_step ++ signal ∷ clear ∷ [])
      (evaluate 3 ∷ main_step ∷ main_step ∷ []) 3
      (record { cleared = refl; progress = running; there = refl; waits_still = refl })

early_signal_keeps_run_example :
    ((run (run (start false true) (main_step ∷ signal ∷ clear ∷ [])) (replicate 12 main_step)).main
      ≢ returned)
    × ((run
          (run (start false true) (main_step ∷ signal ∷ clear ∷ []))
          (replicate 12 main_step)).main
        ≢ in_wait)
unfolding run step
early_signal_keeps_run_example =
    early_signal_keeps_run (run (start false true) (main_step ∷ signal ∷ clear ∷ []))
      (replicate 12 main_step) (record { cleared = refl; not_past_stop = refl })
