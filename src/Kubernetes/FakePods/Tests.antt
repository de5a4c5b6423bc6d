-- ===== src/Kubernetes/FakePods/Tests.antt =====
-- ensureFakePods of pkg/kubernetes/node_status.go on a server that keeps one pod.
use rocklet.Base.{◌≡◌, [], ◌∷◌, Option, none, some, true, false, refl}
use rocklet.Kubernetes.FakePods.{
  Pod, Got, got, not_found, Client, IsClient, State, ensure_fake_pods, ensure_all,
}

found : Option Pod → Got
found none = not_found
found (some p) = got p

one_pod : Client (Option Pod)
unfolding found
one_pod = record {
  delete = λ s name. none;
  get = λ s name. found s;
  create = λ s p. (some p, some p);
  update_status = λ s p. (some p, true);
}

one_pod-IsClient : IsClient one_pod
unfolding one_pod
one_pod-IsClient = record { get-update_status = λ s p e. (p, refl, refl) }

-- A pod of an earlier run is still there.
abbrev stale : Pod
stale = record {
  name = [];
  creation_timestamp = 1;
  mirror = [];
  image = [];
  node_name = [];
  status = none;
}

abbrev start : State (Option Pod)
start = record { server = some stale; fake_pods_completed = false; deletes = 0; succeeded = false }

-- Only the pod of the earlier run is removed.
ensure_all-one_pod : (ensure_all one_pod (7 ∷ []) start (50 ∷ 60 ∷ [])).deletes ≡ 1
unfolding one_pod ensure_all ensure_fake_pods
ensure_all-one_pod = refl
