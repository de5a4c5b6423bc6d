-- ===== src/Kubernetes/Node/Status/Tests.antt =====
-- The status of the node of pkg/kubernetes/node_status.go on a server that keeps one node.
use rocklet.Base.{
  ℕ, ◌+◌, ◌≡◌, List, [], ◌∷◌, some, true, false, refl, sym, ap, bytes_eq, arith, ◌<◌,
}
use rocklet.Base.Text.{codes}
use rocklet.Kubernetes.Node.{NodeCondition, node_ready, set_node_ready_condition}
use rocklet.Kubernetes.Node.Status.{
  Config, Host, Node, NodeStatus, Nodes, IsNodes, set_node_status, update_node_status,
  update_rounds, try_update_node_status,
}
use rocklet.Kubernetes.Node.Status.Posted.{Stands, ReadySince, update_node_status-stays}

abbrev config : Config
config = record {
  node_name = codes "robot";
  host_name = codes "vacuum";
  version = record {
    app_version = codes "0.1";
    commit_hash = codes "0123456789";
    git_state = codes "dirty";
  };
  kubelet_port = 10250;
  goos = codes "linux";
  goarch = codes "arm";
}

abbrev host : ℕ → Host
host now = record {
  get_answered = true;
  now = now;
  kernel = codes "3.4";
  os = codes "Linux";
  ip = some (codes "10.0.0.2");
}

abbrev hosts : ℕ → ℕ → Host
hosts now i = host (now + i)

abbrev unready : NodeCondition
unready = record {
  type = node_ready;
  status = codes "Unknown";
  reason = codes "NodeStatusUnknown";
  message = [];
  last_heartbeat_time = 3;
  last_transition_time = 5;
}

-- A server that knows a node under each name, all with this status.
abbrev node : List ℕ → NodeStatus → Node
node name t = record { name = name; labels = []; taints = []; external_id = []; status = t }

accepting : Nodes NodeStatus
accepting = record { get = λ t name. some (node name t); update_status = λ t n. (n.status, true) }

refusing : Nodes NodeStatus
refusing = record { get = λ t name. some (node name t); update_status = λ t n. (t, false) }

same_node : (n m : Node) → some n ≡ some m → n ≡ m
same_node n m e = cc

with_status :
    (name : List ℕ) (t u : NodeStatus) (m : Node)
    → some (node name t) ≡ some m
    → some (node name u) ≡ some (record m { status = u })
with_status name t u m e =
    ap {A = Node} (λ n. some (record n { status = u })) (same_node (node name t) m e)

accepting-IsNodes : IsNodes accepting
unfolding accepting
accepting-IsNodes = record {
  get_named = λ t name n e. sym (ap (λ m. m.name) (same_node (node name t) n e));
  get-update_status = λ t name n m named e u. with_status name t n.status m e;
  get-update_refused = λ t n name e. ground (arith, e);
}

refusing-IsNodes : IsNodes refusing
unfolding refusing
refusing-IsNodes = record {
  get_named = λ t name n e. sym (ap (λ m. m.name) (same_node (node name t) n e));
  get-update_status = λ t name n m named e u. ground (arith, u);
  get-update_refused = λ t n name e. refl;
}

abbrev start : NodeStatus
start = record {
  container_runtime_version = [];
  kubelet_version = [];
  kernel_version = [];
  operating_system = [];
  addresses = [];
  conditions = unready ∷ [];
  kubelet_port = 0;
}

version_of_start :
    (update_node_status accepting config start (hosts 70)).server.kubelet_version
    ≡ codes "v0.1-01234567-dirty"
unfolding update_node_status try_update_node_status set_node_status set_node_ready_condition
    accepting bytes_eq
version_of_start = refl

update_node_status-stays_example :
    let t = (update_node_status accepting config start (hosts 70)).server in
    (i : ℕ) × (time : ℕ) × (i < 5)
    × Stands accepting config (hosts 70 i) time t
    × ((update_rounds accepting config t (hosts 80 ∷ hosts 90 ∷ [])).events ≡ 0)
    × ReadySince accepting config accepting-IsNodes time
        (update_rounds accepting config t (hosts 80 ∷ hosts 90 ∷ [])).server
update_node_status-stays_example =
    update_node_status-stays accepting config accepting-IsNodes start (hosts 70)
      (hosts 80 ∷ hosts 90 ∷ [])
      (unfold update_node_status try_update_node_status accepting in refl)
