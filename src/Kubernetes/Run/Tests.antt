-- ===== src/Kubernetes/Run/Tests.antt =====
-- The loop of Run of pkg/kubernetes/kubernetes.go with two cleanings, on a server that keeps the
-- names of the cleanings and takes each node.
use rocklet.Base.{
  ℕ, ◌+◌, ◌≤◌, ◌≡◌, List, [], ◌∷◌, none, true, false, length, bytes_eq, bytes_eq_self,
  if◌then◌else◌, map, refl, All, Bool-cases, inl, inr,
}
use rocklet.Kubernetes.Cleanings.{Answer, done, not_found, Client, IsClient}
use rocklet.Kubernetes.Node.{created}
use rocklet.Kubernetes.Node.Status.{Config, Host, Nodes, update_node_status, try_update_node_status}
use rocklet.Kubernetes.FakePods
use rocklet.Kubernetes.FakePods.{ensure_fake_pods}
use rocklet.Kubernetes.Sync
use rocklet.Kubernetes.Sync.{Registry, Attempt, sync_node_status, register_passes, try_register}
use rocklet.Kubernetes.Sync.Keeps.{Keeps}
use rocklet.Kubernetes.Run.{Event, read, configured, receive, tick, stop, proceed, run, start}
use rocklet.Kubernetes.Run.Conserved.{IsConserved, cleaning_of, run_from_start-IsConserved}
use rocklet.Kubernetes.Run.Exited.{exited_reader_stops}
use rocklet.Kubernetes.Run.Posted.{Has, run_from_start-posts}

abbrev Names : Type 0
Names = List (List ℕ)

looked_up : Names → List ℕ → Answer
looked_up [] name = not_found
looked_up (n ∷ ns) name = if bytes_eq n name then done else looked_up ns name

cleanings : Client ℕ Names
unfolding looked_up
cleanings = record { name = λ c. c ∷ []; get = looked_up; create = λ s c. ((c ∷ []) ∷ s, done) }

looked_up-other :
    (n : List ℕ) (s : Names) (name : List ℕ)
    → looked_up s name ≡ done
    → looked_up (n ∷ s) name ≡ done
unfolding looked_up
looked_up-other n s name h = elim (Bool-cases (bytes_eq n name)) [
  | inl same ↦ rw same refl
  | inr other ↦ rw other h
]

looked_up_self : (n : List ℕ) (s : Names) → looked_up (n ∷ s) n ≡ done
unfolding looked_up
looked_up_self n s = rw (bytes_eq_self n) refl

cleanings-IsClient : IsClient cleanings
unfolding cleanings
cleanings-IsClient = record {
  get-create = λ s c e. looked_up_self (c ∷ []) s;
  get-create_other = λ s c n h. looked_up-other (c ∷ []) s n h;
}

nodes : Nodes Names
nodes = record { get = λ s name. none; update_status = λ s n. (s, false) }

registry : Registry Names
registry = record { create = λ s n. (s, created); delete = λ s name. s }

pods : FakePods.Client Names
pods = record {
  delete = λ s name. s;
  get = λ s name. FakePods.get_failed;
  create = λ s p. (s, none);
  update_status = λ s p. (s, false);
}

keeps : (name : List ℕ) → Keeps nodes registry pods (Has cleanings name)
unfolding nodes registry pods
keeps name = record {
  node_update = λ s n h. h;
  node_create = λ s n h. h;
  node_delete = λ s n h. h;
  pod_update = λ s p h. h;
  pod_create = λ s p h. h;
  pod_delete = λ s n h. h;
}

abbrev config : Config
config = record {
  node_name = [];
  host_name = [];
  version = record { app_version = []; commit_hash = []; git_state = [] };
  kubelet_port = 0;
  goos = [];
  goarch = [];
}

abbrev host : Host
host = record { get_answered = true; now = 0; kernel = []; os = []; ip = none }

abbrev sync : Sync.State Names
sync = record {
  server = [];
  registration_completed = false;
  fake_pods_completed = false;
  deletes = 0;
  events = 0;
  pods_succeeded = false;
  node_succeeded = false;
}

-- The first attempt to register comes after others have changed nothing.
abbrev ticked : Event Names
ticked = tick (record { host = host; change = λ s. s } ∷ []) 5 (λ i. host)

abbrev events : List (Event Names)
events =
    configured true
    ∷ read
    ∷ ticked
    ∷ read
    ∷ read
    ∷ receive
    ∷ proceed 0
    ∷ receive
    ∷ proceed 1
    ∷ proceed 1
    ∷ read
    ∷ proceed 0
    ∷ stop
    ∷ []

-- Both cleanings are there, the second one was created first.
run_events :
    (run cleanings nodes registry config pods (start (4 ∷ 6 ∷ []) sync) events).sync.server
    ≡ (4 ∷ []) ∷ (6 ∷ []) ∷ []
unfolding run sync_node_status cleanings nodes registry pods bytes_eq update_node_status
    try_update_node_status ensure_fake_pods
run_events = refl

run_from_start-IsConserved_example :
    IsConserved
      (4 ∷ 6 ∷ [])
      (run cleanings nodes registry config pods (start (4 ∷ 6 ∷ []) sync) events)
run_from_start-IsConserved_example =
    run_from_start-IsConserved (4 ∷ 6 ∷ []) cleanings nodes registry config pods sync events

-- Without a configuration the loop never starts.
exited_reader_stops_example :
    let s =
      run cleanings nodes registry config pods (start (4 ∷ 6 ∷ []) sync) (configured false ∷ []) in
    let t = run cleanings nodes registry config pods s (read ∷ read ∷ receive ∷ []) in
    (map cleaning_of t.tasks ≡ map cleaning_of s.tasks) × (length t.recorded ≤ length s.tasks + 16)
exited_reader_stops_example =
    exited_reader_stops cleanings nodes registry config pods (4 ∷ 6 ∷ []) sync
      (configured false ∷ []) (read ∷ read ∷ receive ∷ []) (unfold run in refl)

run_from_start-posts_example :
    All
      (λ x.
        Has cleanings
          (cleanings.name x)
          (run cleanings nodes registry config pods (start (4 ∷ 6 ∷ []) sync) events).sync.server)
      (4 ∷ 6 ∷ [])
unfolding run sync_node_status cleanings nodes registry pods bytes_eq update_node_status
    try_update_node_status ensure_fake_pods
run_from_start-posts_example =
    run_from_start-posts cleanings nodes registry config pods cleanings-IsClient keeps (4 ∷ 6 ∷ [])
      sync events
      (
        tt,
        (
          tt,
          (
            λ name. ((λ s h. h), tt),
            (tt, (tt, (tt, (tt, (tt, (tt, (tt, (tt, (tt, (tt, tt)))))))))),
          ),
        ),
      )
      refl refl (tt, (tt, tt))
