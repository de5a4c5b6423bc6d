-- ===== src/Kubernetes/Sync/Tests.antt =====
-- syncNodeStatus of pkg/kubernetes/node_status.go on a server that keeps one node and one pod,
-- which it finds under every name.
use rocklet.Base.{
  ℕ, ◌+◌, ◌≡◌, List, [], ◌∷◌, Option, none, some, Bool, true, false, refl, sym, ap, arith,
}
use rocklet.Base.Text.{codes}
use rocklet.Kubernetes.Node.{Created, created, already_exists}
use rocklet.Kubernetes.Node.Attempts.{registers}
use rocklet.Kubernetes.Node.Status.{Config, Host, Node, Nodes, IsNodes}
use rocklet.Kubernetes.FakePods
use rocklet.Kubernetes.Sync.{Registry, Attempt, State, sync_node_status}
use rocklet.Kubernetes.Sync.Registered.{answers, SyncResult, sync_node_status_lem}

record Server : Type 0 where
  node : Option Node
  pod : Option FakePods.Pod

named : List ℕ → Option Node → Option Node
named name none = none
named name (some n) = some (record n { name = name })

updated : Server → Node → Option Node → Server × Bool
updated s n none = (s, false)
updated s n (some m) = (record s { node = some (record m { status = n.status }) }, true)

added : Server → Node → Option Node → Server × Created
added s n none = (record s { node = some n }, created)
added s n (some m) = (s, already_exists)

found : Option FakePods.Pod → FakePods.Got
found none = FakePods.not_found
found (some p) = FakePods.got p

nodes : Nodes Server
unfolding named updated
nodes = record { get = λ s name. named name s.node; update_status = λ s n. updated s n s.node }

registry : Registry Server
unfolding added
registry = record { create = λ s n. added s n s.node; delete = λ s name. record s { node = none } }

pods : FakePods.Client Server
unfolding found
pods = record {
  delete = λ s name. record s { pod = none };
  get = λ s name. found s.pod;
  create = λ s p. (record s { pod = some p }, some p);
  update_status = λ s p. (record s { pod = some p }, true);
}

pods-IsClient : FakePods.IsClient pods
unfolding pods
pods-IsClient = record { get-update_status = λ s p e. (p, refl, refl) }

same_node : (n m : Node) → some n ≡ some m → n ≡ m
same_node n m e = cc

named_lem : (o : Option Node) (name : List ℕ) (n : Node) → named name o ≡ some n → n.name ≡ name
unfolding named
named_lem none name n e = ground (arith, e)
named_lem (some m) name n e = sym (ap (λ x. x.name) (same_node (record m { name = name }) n e))

updated_lem :
    (s : Server) (o : Option Node) (name : List ℕ) (n m : Node)
    → named name o ≡ some m
    → named name (updated s n o).0.node ≡ some (record m { status = n.status })
unfolding named updated
updated_lem s none name n m e = ground (arith, e)
updated_lem s (some x) name n m e =
    ap {A = Node} (λ y. some (record y { status = n.status }))
      (same_node (record x { name = name }) m e)

refused_lem :
    (s : Server) (o : Option Node) (name : List ℕ) (n : Node)
    → (updated s n o).1 ≡ false
    → named name (updated s n o).0.node ≡ named name s.node
unfolding named updated
refused_lem s none name n e = refl
refused_lem s (some x) name n e = ground (arith, e)

nodes-IsNodes : IsNodes nodes
unfolding nodes
nodes-IsNodes = record {
  get_named = λ s name n e. named_lem s.node name n e;
  get-update_status = λ s name n m named e u. updated_lem s s.node name n m e;
  get-update_refused = λ s n name e. refused_lem s s.node name n e;
}

pod_stays : (s : Server) (n : Node) (o : Option Node) → (updated s n o).0.pod ≡ s.pod
unfolding updated
pod_stays s n none = refl
pod_stays s n (some m) = refl

apart :
    (s : Server) (n : Node) (name : List ℕ)
    → pods.get (nodes.update_status s n).0 name ≡ pods.get s name
unfolding nodes pods
apart s n name = ap found (pod_stays s n s.node)

abbrev config : Config
config = record {
  node_name = codes "robot";
  host_name = codes "vacuum";
  version = record { app_version = []; commit_hash = []; git_state = codes "clean" };
  kubelet_port = 10250;
  goos = codes "linux";
  goarch = codes "arm";
}

abbrev hosts : ℕ → ℕ → Host
hosts now i = record { get_answered = true; now = now + i; kernel = []; os = []; ip = none }

abbrev attempt : ℕ → Attempt Server
attempt now = record { host = hosts now 0; change = λ s. s }

abbrev with_external_id : List ℕ → Node
with_external_id id = record {
  name = codes "robot";
  labels = [];
  taints = [];
  external_id = id;
  status = record {
    container_runtime_version = [];
    kubelet_version = [];
    kernel_version = [];
    operating_system = [];
    addresses = [];
    conditions = [];
    kubelet_port = 0;
  };
}

abbrev start : State Server
start = record {
  server = record { node = some (with_external_id (codes "other")); pod = none };
  registration_completed = false;
  fake_pods_completed = false;
  deletes = 0;
  events = 0;
  pods_succeeded = false;
  node_succeeded = false;
}

sync_node_status_lem_example :
    SyncResult nodes registry config pods nodes-IsNodes pods-IsClient apart
      (registers config.host_name
        (answers nodes registry config start.server (attempt 3 ∷ attempt 4 ∷ [])))
      (sync_node_status nodes registry config pods start (attempt 3 ∷ attempt 4 ∷ []) 7 (hosts 9))
      7
      (hosts 9)
sync_node_status_lem_example =
    sync_node_status_lem nodes registry config pods nodes-IsNodes pods-IsClient apart start
      (attempt 3 ∷ attempt 4 ∷ []) 7 (hosts 9)
