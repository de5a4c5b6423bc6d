-- ===== src/Kubernetes/Sync.antt =====
-- pkg/kubernetes/node_status.go: syncNodeStatus, with registerWithAPIServer and
-- tryRegisterWithAPIServer on an API server, ensureFakePods and updateNodeStatus, one after the
-- other. `S` is what the API server holds; others may change it between two attempts.
pub mod Registered
pub mod Recreated
pub mod Keeps
mod Tests
use rocklet.Base.{
  ℕ, ◌+◌, ◌≡◌, List, [], ◌∷◌, Option, none, some, Bool, true, false, bytes_eq, if◌then◌else◌,
}
use rocklet.Kubernetes.Node.{Created, created, already_exists, create_failed}
use rocklet.Kubernetes.Node.Status.{
  Config, Host, Node, Nodes, initial_node, Updated, update_node_status,
}
use rocklet.Kubernetes.FakePods
use rocklet.Kubernetes.FakePods.{ensure_fake_pods}

-- Create and Delete of the nodes.
pub record Registry (S : Type 0) : Type 0 where
  pub create : S → Node → S × Created
  pub delete : S → List ℕ → S

-- An attempt to register: the host as it finds it, and what others have done to the API server
-- since the last one.
pub record Attempt (S : Type 0) : Type 0 where
  pub host : Host
  pub change : S → S

-- What syncNodeStatus keeps.
pub record State (S : Type 0) : Type 0 where
  pub server : S
  pub registration_completed : Bool
  pub fake_pods_completed : Bool
  pub deletes : ℕ
  pub events : ℕ
  pub pods_succeeded : Bool
  pub node_succeeded : Bool

module _ {S : Type 0} (k : Nodes S) (r : Registry S) (c : Config) where
  -- `delete` gives what the API server holds after Delete; the error of Delete is only logged.
  abbrev pub reconcile : S → Node → Option Node → S × Bool
  reconcile s node none = (s, false)
  reconcile s node (some existing) =
      if bytes_eq existing.external_id node.external_id
      then (s, true)
      else (r.delete s node.name, false)

  abbrev pub on_create : Node → S × Created → S × Bool
  on_create node (s, created) = (s, true)
  on_create node (s, create_failed) = (s, false)
  on_create node (s, already_exists) = reconcile s node (k.get s c.node_name)

  -- tryRegisterWithAPIServer; a Get that fails has no node.
  unfoldable pub try_register : S → Node → S × Bool
  try_register s node = on_create node (r.create s node)

  -- The loop of registerWithAPIServer on these attempts: the server, and whether it returns.
  unfoldable pub register_passes : S → List (Attempt S) → S × Bool
  unfolding try_register
  register_passes s [] = (s, false)
  register_passes s (a ∷ attempts) =
      let t = try_register (a.change s) (initial_node c a.host) in
      let rest = register_passes t.0 attempts in if t.1 then (t.0, true) else rest

  abbrev pub register : S → Bool → List (Attempt S) → S × Bool
  register s true attempts = (s, true)
  register s false attempts = register_passes s attempts

  module _ (pods : FakePods.Client S) where
    -- ensureFakePods; its error is only logged.
    abbrev pub with_pods : State S → ℕ → State S
    with_pods st now =
        let p =
          ensure_fake_pods pods c.node_name
            (record {
              server = st.server;
              fake_pods_completed = st.fake_pods_completed;
              deletes = st.deletes;
              succeeded = st.pods_succeeded;
            })
            now in
        record st {
          server = p.server;
          fake_pods_completed = p.fake_pods_completed;
          deletes = p.deletes;
          pods_succeeded = p.succeeded;
        }

    abbrev pub with_node : State S → Updated S → State S
    with_node st u = record st {
      server = u.server;
      events = st.events + u.events;
      node_succeeded = u.succeeded;
    }

    abbrev pub registered : State S → S × Bool → ℕ → (ℕ → Host) → State S × Bool
    registered st (s, false) now hosts = (record st { server = s }, false)
    registered st (s, true) now hosts =
        let p = with_pods (record st { server = s; registration_completed = true }) now in
        (with_node p (update_node_status k c p.server hosts), true)

    -- syncNodeStatus, and whether it returns: it does not as long as no attempt has registered the
    -- node. Run has set kubeClient before its first call, so the test for nil is left out.
    unfoldable pub sync_node_status : State S → List (Attempt S) → ℕ → (ℕ → Host) → State S × Bool
    unfolding register_passes
    sync_node_status st attempts now hosts =
        registered st (register st.server st.registration_completed attempts) now hosts
