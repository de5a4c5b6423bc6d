-- ===== src/Kubernetes/FakePods.antt =====
-- pkg/kubernetes/node_status.go: ensureFakePods, with the pod that stands for the remote control.
-- `S` is what the API server holds; a call of its client may change it. Times are numbers.
pub mod Kept
mod Tests
use rocklet.Base.{
  ℕ, ◌+◌, List, [], ◌∷◌, ◌++◌, Option, none, some, Bool, true, false, if◌then◌else◌, ◌≡◌,
}
use rocklet.Base.Text.{codes}

-- v1.PodStatus, as setfakePodStatus fills it in: the conditions are those that are true.
pub record PodStatus : Type 0 where
  pub start_time : ℕ
  pub conditions : List (List ℕ × ℕ)
  pub container_name : List ℕ
  pub container_id : List ℕ
  pub container_started_at : ℕ
  pub phase : List ℕ
  pub host_ip : List ℕ
  pub pod_ip : List ℕ

pub record Pod : Type 0 where
  pub name : List ℕ
  pub creation_timestamp : ℕ
  pub mirror : List ℕ  -- the annotation MirrorPodAnnotationKey
  pub image : List ℕ
  pub node_name : List ℕ
  pub status : Option PodStatus

pub data Got : Type 0 where
  got : Pod → Got
  not_found : Got
  get_failed : Got

-- The client of the pods: create returns the pod that the server keeps, or none for an error, and
-- update_status whether it succeeds.
pub record Client (S : Type 0) : Type 0 where
  pub delete : S → List ℕ → S
  pub get : S → List ℕ → Got
  pub create : S → Pod → S × Option Pod
  pub update_status : S → Pod → S × Bool

-- What the API server documents: after an update that succeeds, the pod of that name has that
-- status.
pub record IsClient {S : Type 0} (c : Client S) : Type 0 where
  pub get-update_status :
      (s : S) (p : Pod)
      → (c.update_status s p).1 ≡ true
      → (q : Pod) × (c.get (c.update_status s p).0 p.name ≡ got q) × (q.status ≡ p.status)

abbrev pub fake_remote_control_pod_name : List ℕ → List ℕ
fake_remote_control_pod_name node_name = codes "remote-control-" ++ node_name

abbrev pub fake_remote_control_pod : List ℕ → ℕ → Pod
fake_remote_control_pod node_name now = record {
  name = fake_remote_control_pod_name node_name;
  creation_timestamp = now;
  mirror = codes "fake";
  image = codes "fake/image:1.0";
  node_name = node_name;
  status = none;
}

abbrev pub fake_status : ℕ → PodStatus
fake_status now = record {
  start_time = now;
  conditions = (codes "PodScheduled", now) ∷ (codes "Initialized", now) ∷ (codes "Ready", now) ∷ [];
  container_name = codes "container";
  container_id = codes "docker://deadcafe";
  container_started_at = now;
  phase = codes "Running";
  host_ip = codes "1.1.1.1";
  pod_ip = codes "1.1.1.1";
}

-- setfakePodStatus
abbrev pub set_fake_pod_status : List ℕ → ℕ → Pod → Pod
set_fake_pod_status node_name now p = record p {
  name = fake_remote_control_pod_name node_name;
  status = some (fake_status now);
}

-- The server, k.fakePodsCompleted, how often Delete has been called, and whether the last call of
-- ensureFakePods has returned no error.
pub record State (S : Type 0) : Type 0 where
  pub server : S
  pub fake_pods_completed : Bool
  pub deletes : ℕ
  pub succeeded : Bool

module _ {S : Type 0} (c : Client S) (node_name : List ℕ) where
  abbrev name : List ℕ
  name = fake_remote_control_pod_name node_name

  -- From the assignment to fakePodsCompleted on.
  abbrev pub finish : State S → ℕ → Pod → State S
  finish s now pod =
      let r = c.update_status s.server (set_fake_pod_status node_name now pod) in
      record s { server = r.0; fake_pods_completed = true; succeeded = r.1 }

  abbrev pub on_created : State S → ℕ → S × Option Pod → State S
  on_created s now (server, none) = record s { server = server; succeeded = false }
  on_created s now (server, some pod) = finish (record s { server = server }) now pod

  abbrev pub on_got : State S → ℕ → Got → State S
  on_got s now (got pod) = finish s now pod
  on_got s now not_found =
      on_created s now (c.create s.server (fake_remote_control_pod node_name now))
  on_got s now get_failed = record s { succeeded = false }

  -- Any existing pod is removed as long as no run has come to its status; the error of Delete is
  -- not looked at.
  abbrev pub remove_existing : State S → Bool → State S
  remove_existing s true = s
  remove_existing s false = record s { server = c.delete s.server name; deletes = s.deletes + 1 }

  unfoldable pub ensure_fake_pods : State S → ℕ → State S
  ensure_fake_pods s now =
      let t = remove_existing s s.fake_pods_completed in on_got t now (c.get t.server name)

  -- The calls at these times.
  unfoldable pub ensure_all : State S → List ℕ → State S
  ensure_all s [] = s
  ensure_all s (now ∷ times) = ensure_all (ensure_fake_pods s now) times
