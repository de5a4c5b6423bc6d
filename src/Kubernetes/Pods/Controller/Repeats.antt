-- ===== src/Kubernetes/Pods/Controller/Repeats.antt =====
-- The controller of pkg/kubernetes/pods_controller.go: a pod that is acted on again.
use mathlib.Core.Path.{subst}
use mathlib.Core.List.{append-nil, append_assoc}
use rocklet.Base.{
  ℕ, zero, suc, replicate, ◌≡◌, List, [], ◌∷◌, ◌++◌, none, some, Bool, true, false, refl, sym, ap,
  ◌∙◌,
}
use rocklet.Kubernetes.Pods.{
  WorkQueue, IsWorkQueue, retried, dropped, max_retries, timed_out, Pod, found, Notified,
  run_commands, act, finished, send_notify, is_pending, process_all,
}
use rocklet.Kubernetes.Pods.Retries.{failing_pod_dropped}
use rocklet.Kubernetes.Pods.Controller.Settled.{unreported}
use rocklet.Kubernetes.Pods.Controller.{
  working, State, Answers, Event, work, worked, by_worker, step, run,
}

-- So many times the same commands, one round after the other.
abbrev pub rounds : ℕ → List (List ℕ × List ℕ) → List (List ℕ × List ℕ)
rounds zero commands = []
rounds (suc n) commands = commands ++ rounds n commands

-- The robot answers too late.
abbrev pub late : (List ℕ × List ℕ → Bool) → Bool → Answers
late robot update_succeeds = record {
  robot = robot;
  in_time = false;
  update_succeeds = update_succeeds;
}

abbrev pub too_late : (List ℕ × List ℕ → Bool) → Pod → Notified
too_late robot p = record {
  commands = (run_commands robot p.containers).0;
  reported = none;
  error = some timed_out;
}

send_notify_late :
    (robot : List ℕ × List ℕ → Bool) (p : Pod)
    → p.is_mirror ≡ false
    → is_pending p.phase ≡ true
    → send_notify robot false (found p) ≡ too_late robot p
unfolding send_notify act
send_notify_late robot p real waits = rw (real, waits) refl

finished_commands : (sent : List (List ℕ × List ℕ)) (b : Bool) → (finished sent b).commands ≡ sent
finished_commands sent true = refl
finished_commands sent false = refl

commands_sent :
    (robot : List ℕ × List ℕ → Bool) (in_time : Bool) (p : Pod)
    → p.is_mirror ≡ false
    → is_pending p.phase ≡ true
    → (send_notify robot in_time (found p)).commands ≡ (run_commands robot p.containers).0
unfolding send_notify act
commands_sent robot true p real waits =
    rw (real, waits) (finished_commands _ (run_commands robot p.containers).1)
commands_sent robot false p real waits = rw (real, waits) refl

module _ {K Q : Type 0} (w : WorkQueue K Q) (key : K) where
  -- So many passes of the worker, each too late.
  abbrev pub passes : (List ℕ × List ℕ → Bool) → Bool → ℕ → List Event
  passes robot b zero = []
  passes robot b (suc n) = work (late robot b) ∷ passes robot b n

  -- What so many passes leave, from one state to another.
  abbrev Leaves : Pod → (List ℕ × List ℕ → Bool) → ℕ → State Q → State Q → Type 0
  Leaves p robot n s t =
      (t.sent ≡ s.sent ++ rounds n (run_commands robot p.containers).0)
      × (t.fates ≡ s.fates ++ (process_all w s.queue key (replicate n (too_late robot p))).1)
      × (t.server ≡ s.server)

  working_step :
      (s : State Q) (a : Answers) (p : Pod)
      → s.workers ≡ working
      → s.store ≡ found p
      → step w key s (work a)
        ≡ worked w key s a.update_succeeds (send_notify a.robot a.in_time (found p))
  unfolding step
  working_step s a p works holds =
      ap (λ v. by_worker w key s v a.update_succeeds (send_notify a.robot a.in_time s.store)) works
      ∙ ap (worked w key s a.update_succeeds) (ap (send_notify a.robot a.in_time) holds)

  late_step :
      (s : State Q) (robot : List ℕ × List ℕ → Bool) (b : Bool) (p : Pod)
      → s.workers ≡ working
      → s.store ≡ found p
      → send_notify robot false (found p) ≡ too_late robot p
      → step w key s (work (late robot b)) ≡ worked w key s b (too_late robot p)
  late_step s robot b p works holds e =
      working_step s (late robot b) p works holds ∙ ap (worked w key s b) e

  late_passes :
      (s : State Q) (robot : List ℕ × List ℕ → Bool) (b : Bool) (p : Pod) (n : ℕ)
      → s.workers ≡ working
      → s.store ≡ found p
      → send_notify robot false (found p) ≡ too_late robot p
      → Leaves p robot n s (run w key s (passes robot b n))
  unfolding run process_all
  late_passes s robot b p zero works holds e =
      (sym (append-nil s.sent), sym (append-nil s.fates), refl)
  late_passes s robot b p (suc n) works holds e =
      let t = worked w key s b (too_late robot p) in
      let (sent, fates, server) = late_passes t robot b p n works holds e in
      subst (λ u. Leaves p robot (suc n) s (run w key u (passes robot b n)))
        (sym (late_step s robot b p works holds e))
        (
          sent ∙ append_assoc s.sent (run_commands robot p.containers).0 _,
          fates ∙ append_assoc s.fates _ _,
          server ∙ unreported s.server b,
        )

  -- A pending pod, new to the queue, for whose commands the robot always takes more than five
  -- seconds: in the first try and in each of the five that follow a goroutine is started that
  -- sends its commands, up to the first that the robot refuses, also after the five seconds; then
  -- the pod is dropped, and the API server has it as it was.
  pub slow_pod_repeats :
      (laws : IsWorkQueue K Q w) (s : State Q) (robot : List ℕ × List ℕ → Bool) (b : Bool) (p : Pod)
      → s.workers ≡ working
      → s.store ≡ found p
      → p.is_mirror ≡ false
      → is_pending p.phase ≡ true
      → w.num_requeues s.queue key ≡ 0
      → let t = run w key s (passes robot b 6) in
        (t.sent ≡ s.sent ++ rounds 6 (run_commands robot p.containers).0)
        × (t.fates ≡ s.fates ++ (replicate max_retries retried ++ dropped ∷ []))
        × (t.server ≡ s.server)
  slow_pod_repeats laws s robot b p works holds real waits fresh =
      let n = too_late robot p in
      let (sent, fates, server) =
        late_passes s robot b p 6 works holds (send_notify_late robot p real waits) in
      let (tried, _) =
        failing_pod_dropped w laws (replicate 5 n) n s.queue key fresh refl
          (
            (timed_out, refl),
            ((timed_out, refl), ((timed_out, refl), ((timed_out, refl), ((timed_out, refl), tt)))),
          )
          (timed_out, refl) in
      (sent, fates ∙ ap (λ fs. s.fates ++ fs) tried, server)

  -- As long as the informer does not deliver the pod again, each pass of the worker sends the
  -- commands anew, in time or not, whether the API server takes the phase or not.
  pub stale_store_repeats :
      (s : State Q) (a : Answers) (p : Pod) (n : ℕ)
      → s.workers ≡ working
      → s.store ≡ found p
      → p.is_mirror ≡ false
      → is_pending p.phase ≡ true
      → (run w key s (replicate n (work a))).sent
        ≡ s.sent ++ rounds n (run_commands a.robot p.containers).0
  unfolding run
  stale_store_repeats s a p zero works holds real waits = sym (append-nil s.sent)
  stale_store_repeats s a p (suc n) works holds real waits =
      let t = worked w key s a.update_succeeds (send_notify a.robot a.in_time (found p)) in
      let cs = (run_commands a.robot p.containers).0 in
      let same : t.sent ≡ s.sent ++ cs =
        ap (λ x. s.sent ++ x) (commands_sent a.robot a.in_time p real waits) in
      subst (λ u. (run w key u (replicate n (work a))).sent ≡ s.sent ++ (cs ++ rounds n cs))
        (sym (working_step s a p works holds))
        (stale_store_repeats t a p n works holds real waits
          ∙ (ap (λ x. x ++ rounds n cs) same ∙ append_assoc s.sent cs (rounds n cs)))
