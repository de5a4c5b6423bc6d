-- ===== src/Kubernetes/Pods/Controller.antt =====
-- pkg/kubernetes/pods_controller.go: runPodController and Controller.Run around one pod, with
-- updatePodStatus. The pod stands on the API server and, as of some earlier time, in the store of
-- the informer; the worker looks only into the store. Get, Done and ShutDown of the queue are left
-- to the events: a step of the worker may come whenever a key is there.
pub mod Settled
pub mod Repeats
mod Tests
use rocklet.Base.{ℕ, List, [], ◌∷◌, ◌++◌, Option, none, some, Bool, true, false, if◌then◌else◌}
use rocklet.Kubernetes.Pods.{
  WorkQueue, Fate, Phase, Pod, Found, missing, found, Notified, send_notify, process_next_item,
}

-- The goroutine of Controller.Run: it waits for the store, then starts the worker, or it returns.
pub data Workers : Type 0 where
  waiting : Workers
  working : Workers
  returned : Workers

abbrev pub on_synced : Workers → Bool → Workers
on_synced waiting true = working
on_synced waiting false = returned
on_synced w b = w

-- The pod on the API server, if it is there; what the store has of it; the commands that have been
-- sent to the robot, and what became of the key each time.
pub record State (Q : Type 0) : Type 0 where
  pub workers : Workers
  pub server : Option Pod
  pub store : Found
  pub queue : Q
  -- the commands of the goroutines that have been started, in this order; a goroutine that outlives
  -- its five seconds goes on, and may send some of them later
  pub sent : List (List ℕ × List ℕ)
  pub fates : List Fate

-- What the world answers in one pass of the worker: the robot, whether it does so within five
-- seconds, and whether the API server takes the status.
pub record Answers : Type 0 where
  pub robot : List ℕ × List ℕ → Bool
  pub in_time : Bool
  pub update_succeeds : Bool

-- `synced` is the end of WaitForCacheSync. By `deliver` the informer brings its store up to date
-- and calls AddFunc, UpdateFunc or DeleteFunc with an object that has a key, by `deliver_unkeyed`
-- with one that has none. `deleted` removes the pod from the API server.
pub data Event : Type 0 where
  synced : Bool → Event
  deliver : Event
  deliver_unkeyed : Event
  deleted : Event
  work : Answers → Event

abbrev pub stored : Option Pod → Found
stored none = missing
stored (some p) = found p

-- AddFunc, UpdateFunc and DeleteFunc: a key is added, an error is dropped.
abbrev pub enqueue : {K Q : Type 0} → WorkQueue K Q → Option K → Q → Q
enqueue w none q = q
enqueue w (some k) q = w.add k q

-- UpdateStatus with a copy of the pod in the store.
abbrev pub update_pod_status : Option Pod → Option Phase → Bool → Option Pod
update_pod_status (some p) (some phase) true = some (record p { phase = phase })
update_pod_status server _ _ = server

module _ {K Q : Type 0} (w : WorkQueue K Q) (key : K) where
  -- processNextItem on what sendNotify does.
  abbrev pub worked : State Q → Bool → Notified → State Q
  worked s update_succeeds n =
      let r = process_next_item w s.queue key n in
      record s {
        server = update_pod_status s.server n.reported update_succeeds;
        queue = r.0;
        sent = s.sent ++ n.commands;
        fates = s.fates ++ r.1 ∷ [];
      }

  abbrev pub by_worker : State Q → Workers → Bool → Notified → State Q
  by_worker s working update_succeeds n = worked s update_succeeds n
  by_worker s _ update_succeeds n = s

  unfoldable pub step : State Q → Event → State Q
  step s (synced b) = record s { workers = on_synced s.workers b }
  step s deliver = record s { store = stored s.server; queue = enqueue w (some key) s.queue }
  step s deliver_unkeyed = record s { store = stored s.server; queue = enqueue w none s.queue }
  step s deleted = record s { server = none }
  step s (work a) = by_worker s s.workers a.update_succeeds (send_notify a.robot a.in_time s.store)

  unfoldable pub run : State Q → List Event → State Q
  unfolding step
  run s [] = s
  run s (e ∷ es) = run (step s e) es
