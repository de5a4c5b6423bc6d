-- ===== src/Kubernetes/Pods/Controller/Tests.antt =====
-- The controller of pkg/kubernetes/pods_controller.go around a pod with two commands.
use rocklet.Base.{
  ℕ, suc, ◌≡◌, List, [], ◌∷◌, ◌++◌, some, Bool, true, false, refl, replicate, ◌==◌, length,
}
use rocklet.Base.Text.{codes}
use rocklet.Kubernetes.Pods.{
  WorkQueue, IsWorkQueue, Container, Pod, pending, found, missing, done, retried, dropped,
  max_retries, run_commands, send_notify, handle_err, process_next_item,
}
use rocklet.Kubernetes.Pods.Controller.{
  State, Answers, waiting, working, synced, deliver, deleted, work, step, run,
}
use rocklet.Kubernetes.Pods.Controller.Settled.{acts_once}
use rocklet.Kubernetes.Pods.Controller.Repeats.{rounds, passes, slow_pod_repeats}

-- A queue that only counts; there is one key.
counter : WorkQueue Unit ℕ
counter = record {
  num_requeues = λ q k. q;
  add = λ k q. q;
  add_rate_limited = λ k q. suc q;
  forget = λ k q. 0;
}

counter-IsWorkQueue : IsWorkQueue Unit ℕ counter
unfolding counter
counter-IsWorkQueue = record { requeues-add = λ k q. refl; requeues-forget = λ k q. refl }

abbrev spot : Container
spot = record { image = codes "app_spot"; args = [] }

abbrev charge : Container
charge = record { image = codes "app_charge"; args = [] }

abbrev pod : Pod
pod = record { is_mirror = false; phase = pending; containers = spot ∷ charge ∷ [] }

abbrev start : State ℕ
start = record {
  workers = waiting;
  server = some pod;
  store = missing;
  queue = 0;
  sent = [];
  fates = [];
}

abbrev ready : State ℕ
ready = record start { workers = working; store = found pod }

-- The robot refuses a text of ten letters.
abbrev accepts : List ℕ × List ℕ → Bool
accepts (image, args) = length image == 8

abbrev prompt : Answers
prompt = record { robot = accepts; in_time = true; update_succeeds = true }

-- The second command is refused, and the pod that was queued again is not tried again.
run_refused :
    (run counter tt start (synced true ∷ deliver ∷ work prompt ∷ deliver ∷ work prompt ∷ [])).fates
    ≡ retried ∷ done ∷ []
unfolding run send_notify process_next_item handle_err counter
run_refused = refl

acts_once_example :
    let t = step counter tt ready (work prompt) in
    ((run counter tt t (deliver ∷ work prompt ∷ deleted ∷ [])).sent ≡ t.sent)
    × ((m : ℕ) × ((run counter tt t (deliver ∷ work prompt ∷ deleted ∷ [])).fates
          ≡ t.fates ++ replicate m done))
acts_once_example =
    acts_once counter tt ready prompt pod (work prompt ∷ deleted ∷ []) refl refl refl refl refl refl

slow_pod_repeats_example :
    let t = run counter tt ready (passes counter tt accepts true 6) in
    (t.sent ≡ [] ++ rounds 6 (run_commands accepts pod.containers).0)
    × (t.fates ≡ [] ++ (replicate max_retries retried ++ dropped ∷ []))
    × (t.server ≡ some pod)
unfolding counter
slow_pod_repeats_example =
    slow_pod_repeats counter tt counter-IsWorkQueue ready accepts true pod refl refl refl refl refl
