-- ===== src/Kubernetes/Sync/Recreated.antt =====
-- registerWithAPIServer of pkg/kubernetes/node_status.go: a node of the same name is there.
use rocklet.Base.{◌≡◌, none, some}
use rocklet.Kubernetes.Node.{created, already_exists}
use rocklet.Kubernetes.Node.Status.{Node, Nodes}
use rocklet.Kubernetes.Sync.{Registry}

-- What the API server documents: creating a node whose name is taken is refused and changes
-- nothing; a node whose name is free can be created, and is found.
pub record IsRegistry {S : Type 0} (k : Nodes S) (r : Registry S) : Type 0 where
  pub create_taken :
      (s : S) (n m : Node) → k.get s n.name ≡ some m → r.create s n ≡ (s, already_exists)
  pub create_free :
      (s : S) (n : Node)
      → k.get s n.name ≡ none
      → ((r.create s n).1 ≡ created) × (k.get (r.create s n).0 n.name ≡ some n)
