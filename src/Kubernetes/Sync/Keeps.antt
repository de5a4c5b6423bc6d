-- ===== src/Kubernetes/Sync/Keeps.antt =====
-- syncNodeStatus of pkg/kubernetes/node_status.go: what each of its calls to the API server leaves
-- alone, it leaves alone.
use rocklet.Base.{
  ℕ, zero, suc, List, [], ◌∷◌, Option, none, some, Bool, true, false, bytes_eq, All, Bool-cases,
  inl, inr,
}
use rocklet.Kubernetes.Node.{
  Created, created, already_exists, create_failed, node_status_update_retry,
}
use rocklet.Kubernetes.Node.Status.{
  Config, Host, Node, Nodes, initial_node, on_node, set_node_status, try_update_node_status,
  update_tries, update_node_status,
}
use rocklet.Kubernetes.FakePods
use rocklet.Kubernetes.FakePods.{
  Pod, Got, got, not_found, get_failed, finish, on_created, on_got, remove_existing,
  ensure_fake_pods, set_fake_pod_status, fake_remote_control_pod, fake_remote_control_pod_name,
}
use rocklet.Kubernetes.Sync.{
  Registry, Attempt, State, reconcile, on_create, try_register, register_passes, register,
  registered, sync_node_status,
}

-- The calls for nodes and pods keep `P`.
pub record Keeps {S : Type 0} (k : Nodes S) (r : Registry S) (pods : FakePods.Client S)
    (P : S → Type 0) : Type 0 where
  pub node_update : (s : S) (n : Node) → P s → P (k.update_status s n).0
  pub node_create : (s : S) (n : Node) → P s → P (r.create s n).0
  pub node_delete : (s : S) (name : List ℕ) → P s → P (r.delete s name)
  pub pod_update : (s : S) (p : Pod) → P s → P (pods.update_status s p).0
  pub pod_create : (s : S) (p : Pod) → P s → P (pods.create s p).0
  pub pod_delete : (s : S) (name : List ℕ) → P s → P (pods.delete s name)

-- Others keep it too between the attempts to register.
abbrev pub AttemptsKeep : {S : Type 0} → (S → Type 0) → List (Attempt S) → Type 0
AttemptsKeep {S} P attempts = All (λ a. (s : S) → P s → P (a.change s)) attempts

module _ {S : Type 0} (k : Nodes S) (r : Registry S) (c : Config) (pods : FakePods.Client S)
    (P : S → Type 0) (laws : Keeps k r pods P) where
  reconcile-keeps : (s : S) (node : Node) (o : Option Node) → P s → P (reconcile k r c s node o).0
  reconcile-keeps s node none h = h
  reconcile-keeps s node (some existing) h =
      elim (Bool-cases (bytes_eq existing.external_id node.external_id)) [
        | inl same ↦ rw same h
        | inr other ↦ rw other (laws.node_delete s node.name h)
      ]

  on_create-keeps : (node : Node) (p : S × Created) → P p.0 → P (on_create k r c node p).0
  on_create-keeps node (s, created) h = h
  on_create-keeps node (s, create_failed) h = h
  on_create-keeps node (s, already_exists) h = reconcile-keeps s node (k.get s c.node_name) h

  register_passes-keeps :
      (s : S) (attempts : List (Attempt S))
      → AttemptsKeep P attempts
      → P s
      → P (register_passes k r c s attempts).0
  unfolding register_passes try_register
  register_passes-keeps s [] others h = h
  register_passes-keeps s (a ∷ attempts) others h =
      let node = initial_node c a.host in
      let once =
        on_create-keeps node (r.create (a.change s) node)
          (laws.node_create (a.change s) node (others.0 s h)) in
      let t = try_register k r c (a.change s) node in
      let rest = register_passes-keeps t.0 attempts others.1 once in
      elim (Bool-cases t.1) [ inl done ↦ rw done once | inr more ↦ rw more rest ]

  register-keeps :
      (s : S) (b : Bool) (attempts : List (Attempt S))
      → AttemptsKeep P attempts
      → P s
      → P (register k r c s b attempts).0
  register-keeps s true attempts others h = h
  register-keeps s false attempts others h = register_passes-keeps s attempts others h

  finish-keeps :
      (s : FakePods.State S) (now : ℕ) (pod : Pod)
      → P s.server
      → P (finish pods c.node_name s now pod).server
  finish-keeps s now pod h = laws.pod_update s.server (set_fake_pod_status c.node_name now pod) h

  created-keeps :
      (s : FakePods.State S) (now : ℕ) (a : S × Option Pod)
      → P a.0
      → P (on_created pods c.node_name s now a).server
  created-keeps s now (server, none) h = h
  created-keeps s now (server, some pod) h = finish-keeps (record s { server = server }) now pod h

  got-keeps :
      (s : FakePods.State S) (now : ℕ) (a : Got)
      → P s.server
      → P (on_got pods c.node_name s now a).server
  got-keeps s now (got pod) h = finish-keeps s now pod h
  got-keeps s now not_found h =
      created-keeps s now (pods.create s.server (fake_remote_control_pod c.node_name now))
        (laws.pod_create s.server (fake_remote_control_pod c.node_name now) h)
  got-keeps s now get_failed h = h

  remove-keeps :
      (s : FakePods.State S) (b : Bool)
      → P s.server
      → P (remove_existing pods c.node_name s b).server
  remove-keeps s true h = h
  remove-keeps s false h = laws.pod_delete s.server (fake_remote_control_pod_name c.node_name) h

  ensure_fake_pods-keeps :
      (s : FakePods.State S) (now : ℕ)
      → P s.server
      → P (ensure_fake_pods pods c.node_name s now).server
  unfolding ensure_fake_pods
  ensure_fake_pods-keeps s now h =
      let t = remove_existing pods c.node_name s s.fake_pods_completed in
      got-keeps t now (pods.get t.server (fake_remote_control_pod_name c.node_name))
        (remove-keeps s s.fake_pods_completed h)

  on_node-keeps : (s : S) (h : Host) (o : Option Node) → P s → P (on_node k c s h o).server
  on_node-keeps s h none p = p
  on_node-keeps s h (some n) p =
      laws.node_update s (record n { status = (set_node_status c h n.status).0 }) p

  update_tries-keeps :
      (n : ℕ) (s : S) (hosts : ℕ → Host) → P s → P (update_tries k c n s hosts).server
  unfolding update_tries try_update_node_status
  update_tries-keeps zero s hosts h = h
  update_tries-keeps (suc n) s hosts h =
      let first = try_update_node_status k c s (hosts 0) in
      let once : P first.server = on_node-keeps s (hosts 0) _ h in
      let rest : P (update_tries k c n first.server (λ i. hosts (suc i))).server =
        update_tries-keeps n first.server (λ i. hosts (suc i)) once in
      elim (Bool-cases first.succeeded) [ inl u ↦ rw u once | inr u ↦ rw u rest ]

  registered-keeps :
      (st : State S) (p : S × Bool) (now : ℕ) (hosts : ℕ → Host)
      → P p.0
      → P (registered k r c pods st p now hosts).0.server
  unfolding update_node_status
  registered-keeps st (s, false) now hosts h = h
  registered-keeps st (s, true) now hosts h =
      update_tries-keeps node_status_update_retry _ hosts (ensure_fake_pods-keeps _ now h)

  pub sync_node_status-keeps :
      (st : State S) (attempts : List (Attempt S)) (now : ℕ) (hosts : ℕ → Host)
      → AttemptsKeep P attempts
      → P st.server
      → P (sync_node_status k r c pods st attempts now hosts).0.server
  unfolding sync_node_status
  sync_node_status-keeps st attempts now hosts others h =
      let p = register k r c st.server st.registration_completed attempts in
      registered-keeps st p now hosts
        (register-keeps st.server st.registration_completed attempts others h)
