-- ===== src/Kubernetes/Node/Status.antt =====
-- pkg/kubernetes/node_status.go: initialNode, setNodeStatus with the functions that it calls,
-- tryUpdateNodeStatus and updateNodeStatus on an API server, and Version.String of
-- pkg/api/flags.go. `S` is what the API server holds. Times are numbers.
pub mod Posted
pub mod Refused
mod Tests
use rocklet.Base.{
  ℕ, zero, suc, ◌+◌, ◌^◌, ◌%◌, ◌≡◌, List, [], ◌∷◌, ◌++◌, Option, none, some, Bool, true, false,
  bytes_eq, if◌then◌else◌, take,
}
use rocklet.Base.Assoc.{Assoc}
use rocklet.Base.Text.{codes}
use rocklet.Kubernetes.Node.{NodeCondition, set_node_ready_condition, node_status_update_retry}

-- Version of pkg/api/flags.go
pub record Version : Type 0 where
  pub app_version : List ℕ
  pub commit_hash : List ℕ
  pub git_state : List ℕ

-- Version.String
abbrev pub version_string : Version → List ℕ
version_string v =
    let short = codes "v" ++ v.app_version ++ codes "-" ++ take 8 v.commit_hash in
    if bytes_eq v.git_state (codes "clean") then short else short ++ codes "-" ++ v.git_state

-- What the object k and the Go runtime fix.
pub record Config : Type 0 where
  pub node_name : List ℕ
  pub host_name : List ℕ
  pub version : Version
  pub kubelet_port : ℕ
  pub goos : List ℕ
  pub goarch : List ℕ

-- What the host answers during a call: the time, goInfo.GetInfo and ChooseHostInterface, which has
-- no address if it fails; and whether the API server answers Get.
pub record Host : Type 0 where
  pub get_answered : Bool
  pub now : ℕ
  pub kernel : List ℕ
  pub os : List ℕ
  pub ip : Option (List ℕ)

-- v1.NodeStatus
pub record NodeStatus : Type 0 where
  pub container_runtime_version : List ℕ
  pub kubelet_version : List ℕ
  pub kernel_version : List ℕ
  pub operating_system : List ℕ
  pub addresses : List (List ℕ × List ℕ)  -- the type and the address
  pub conditions : List NodeCondition
  pub kubelet_port : ℕ

-- v1.Node
pub record Node : Type 0 where
  pub name : List ℕ
  pub labels : Assoc (List ℕ) (List ℕ)
  pub taints : List (List ℕ × List ℕ)  -- the key and the effect
  pub external_id : List ℕ
  pub status : NodeStatus

abbrev pub set_node_status_version_info : Config → Host → NodeStatus → NodeStatus
set_node_status_version_info c h n = record n {
  container_runtime_version = codes "rockrobo" ++ codes "://" ++ codes "v1";
  kubelet_version = version_string c.version;
  kernel_version = h.kernel;
  operating_system = h.os;
}

abbrev pub internal_ip : Option (List ℕ) → List (List ℕ × List ℕ)
internal_ip none = []
internal_ip (some ip) = (codes "InternalIP", ip) ∷ []

-- setNodeAdress
abbrev pub set_node_address : Config → Host → NodeStatus → NodeStatus
set_node_address c h n = record n { addresses = (codes "Hostname", c.host_name) ∷ internal_ip h.ip }

-- The conversion to int32 keeps the low bits.
abbrev pub set_node_kubelet_port : Config → NodeStatus → NodeStatus
set_node_kubelet_port c n = record n { kubelet_port = c.kubelet_port % 2 ^ 32 }

abbrev pub with_conditions : NodeStatus → List NodeCondition × Bool → NodeStatus × Bool
with_conditions n r = (record n { conditions = r.0 }, r.1)

-- setNodeStatus: the new status, and whether the event NodeReady is recorded.
unfoldable pub set_node_status : Config → Host → NodeStatus → NodeStatus × Bool
set_node_status c h n =
    let addressed = set_node_address c h (set_node_status_version_info c h n) in
    let r = with_conditions addressed (set_node_ready_condition h.now addressed.conditions) in
    (set_node_kubelet_port c r.0, r.1)

abbrev pub empty_status : NodeStatus
empty_status = record {
  container_runtime_version = [];
  kubelet_version = [];
  kernel_version = [];
  operating_system = [];
  addresses = [];
  conditions = [];
  kubelet_port = 0;
}

-- initialNode
unfoldable pub initial_node : Config → Host → Node
unfolding set_node_status
initial_node c h = record {
  name = c.node_name;
  labels =
      (codes "kubernetes.io/hostname", c.host_name)
      ∷ (codes "beta.kubernetes.io/os", c.goos)
      ∷ (codes "beta.kubernetes.io/arch", c.goarch)
      ∷ (codes "node-role.kubernetes.io/vacuum", [])
      ∷ [];
  taints = (codes "mi.com/vacuum", codes "NoSchedule") ∷ [];
  external_id = c.host_name;
  status = (set_node_status c h empty_status).0;
}

-- The client of the nodes: get has no node for an error, update_status tells whether it succeeds.
pub record Nodes (S : Type 0) : Type 0 where
  pub get : S → List ℕ → Option Node
  pub update_status : S → Node → S × Bool

-- What the API server documents: Get finds a node under its name; an update that succeeds sets the
-- status of the node of that name and leaves its labels, taints and external id, and one that is
-- refused changes no node.
pub record IsNodes {S : Type 0} (k : Nodes S) : Type 0 where
  pub get_named : (s : S) (name : List ℕ) (n : Node) → k.get s name ≡ some n → n.name ≡ name
  pub get-update_status :
      (s : S) (name : List ℕ) (n m : Node)
      → n.name ≡ name
      → k.get s name ≡ some m
      → (k.update_status s n).1 ≡ true
      → k.get (k.update_status s n).0 name ≡ some (record m { status = n.status })
  pub get-update_refused :
      (s : S) (n : Node) (name : List ℕ)
      → (k.update_status s n).1 ≡ false
      → k.get (k.update_status s n).0 name ≡ k.get s name

-- What a call leaves: the server, how many events it has recorded, and whether it returns no
-- error.
pub record Updated (S : Type 0) : Type 0 where
  pub server : S
  pub events : ℕ
  pub succeeded : Bool

abbrev pub one_if : Bool → ℕ
one_if b = if b then 1 else 0

module _ {S : Type 0} (k : Nodes S) (c : Config) where
  abbrev pub posted : S → Node → NodeStatus × Bool → Updated S
  posted s n r =
      let a = k.update_status s (record n { status = r.0 }) in
      record { server = a.0; events = one_if r.1; succeeded = a.1 }

  abbrev pub on_node : S → Host → Option Node → Updated S
  on_node s h none = record { server = s; events = 0; succeeded = false }
  on_node s h (some n) = posted s n (set_node_status c h n.status)

  -- tryUpdateNodeStatus
  unfoldable pub try_update_node_status : S → Host → Updated S
  try_update_node_status s h = on_node s h (if h.get_answered then k.get s c.node_name else none)

  -- The loop of updateNodeStatus, with the host as each pass finds it.
  unfoldable pub update_tries : ℕ → S → (ℕ → Host) → Updated S
  update_tries zero s hosts = record { server = s; events = 0; succeeded = false }
  update_tries (suc n) s hosts =
      let first = try_update_node_status s (hosts 0) in
      let rest = update_tries n first.server (λ i. hosts (suc i)) in
      if first.succeeded then first else record rest { events = first.events + rest.events }

  unfoldable pub update_node_status : S → (ℕ → Host) → Updated S
  unfolding update_tries
  update_node_status s hosts = update_tries node_status_update_retry s hosts

  -- One call after the other.
  unfoldable pub update_rounds : S → List (ℕ → Host) → Updated S
  update_rounds s [] = record { server = s; events = 0; succeeded = true }
  update_rounds s (hosts ∷ rounds) =
      let first = update_node_status s hosts in
      let rest = update_rounds first.server rounds in
      record rest { events = first.events + rest.events }
