-- ===== src/Kubernetes/Sync/Registered.antt =====
-- syncNodeStatus of pkg/kubernetes/node_status.go: when it returns, and what the API server holds
-- then.
use mathlib.Core.Path.{subst}
use rocklet.Base.{
  ℕ, zero, suc, ◌<◌, ◌≡◌, List, [], ◌∷◌, Option, none, some, Bool, true, false, refl, ◌∙◌, bytes_eq,
  if◌then◌else◌, Bool-cases, ◌⊎◌, inl, inr,
}
use rocklet.Kubernetes.Node.{
  Created, created, already_exists, create_failed, RegisterAnswers, try_register_with_api_server,
  node_status_update_retry,
}
use rocklet.Kubernetes.Node.Attempts.{registers}
use rocklet.Kubernetes.Node.Status.{
  Config, Host, Node, Nodes, IsNodes, initial_node, on_node, try_update_node_status, update_tries,
  update_node_status, set_node_status,
}
use rocklet.Kubernetes.Node.Status.Posted.{Stands, update_node_status-stays}
use rocklet.Kubernetes.FakePods
use rocklet.Kubernetes.FakePods.{ensure_fake_pods, fake_remote_control_pod_name}
use rocklet.Kubernetes.FakePods.Kept as Kept
use rocklet.Kubernetes.Sync.{
  Registry, Attempt, State, reconcile, on_create, try_register, register_passes, register,
  with_pods, with_node, registered, sync_node_status,
}

abbrev id_of : Option Node → Option (List ℕ)
id_of none = none
id_of (some n) = some n.external_id

module _ {S : Type 0} (k : Nodes S) (r : Registry S) (c : Config) where
  -- What the API server answers in an attempt.
  abbrev answer_to : S → Node → RegisterAnswers
  answer_to s node = record {
    on_create = (r.create s node).1;
    existing_node = id_of (k.get (r.create s node).0 c.node_name);
  }

  abbrev pub answers : S → List (Attempt S) → List RegisterAnswers
  answers s [] = []
  answers s (a ∷ attempts) =
      let node = initial_node c a.host in
      answer_to (a.change s) node ∷ answers (try_register k r c (a.change s) node).0 attempts

  reconcile-answers :
      (s : S) (node : Node) (o : Option Node)
      → (reconcile k r c s node o).1
        ≡ (try_register_with_api_server node.external_id
            (record { on_create = already_exists; existing_node = id_of o })).0
  unfolding try_register_with_api_server
  reconcile-answers s node none = refl
  reconcile-answers s node (some existing) =
      test (bytes_eq existing.external_id node.external_id) (s, true) (r.delete s node.name, false)
        (true, false) (false, true) refl refl
    where
      test :
          (b : Bool) (p q : S × Bool) (p' q' : Bool × Bool)
          → p.1 ≡ p'.0
          → q.1 ≡ q'.0
          → (if b then p else q).1 ≡ (if b then p' else q').0
      test true p q p' q' e f = e
      test false p q p' q' e f = f

  on_create-answers :
      (node : Node) (p : S × Created)
      → (on_create k r c node p).1
        ≡ (try_register_with_api_server node.external_id
            (record { on_create = p.1; existing_node = id_of (k.get p.0 c.node_name) })).0
  unfolding try_register_with_api_server
  on_create-answers node (s, created) = refl
  on_create-answers node (s, create_failed) = refl
  on_create-answers node (s, already_exists) = reconcile-answers s node (k.get s c.node_name)

  try_register-answers :
      (s : S) (h : Host)
      → (try_register k r c s (initial_node c h)).1
        ≡ (try_register_with_api_server c.host_name (answer_to s (initial_node c h))).0
  unfolding try_register initial_node
  try_register-answers s h = on_create-answers (initial_node c h) (r.create s (initial_node c h))

  by_test :
      (b b' : Bool) (p q : S × Bool) (d : Bool)
      → b ≡ b'
      → p.1 ≡ true
      → q.1 ≡ d
      → (if b then p else q).1 ≡ (if b' then true else d)
  by_test b true p q d e g h = rw e g
  by_test b false p q d e g h = rw e h

  -- The detailed loop registers the node exactly if the loop on the answers does.
  register_passes-registers :
      (s : S) (attempts : List (Attempt S))
      → (register_passes k r c s attempts).1 ≡ registers c.host_name (answers s attempts)
  unfolding register_passes
  register_passes-registers s [] = refl
  register_passes-registers s (a ∷ attempts) =
      let t = try_register k r c (a.change s) (initial_node c a.host) in
      by_test t.1 _ (t.0, true) (register_passes k r c t.0 attempts) _
        (try_register-answers (a.change s) a.host) refl (register_passes-registers t.0 attempts)

  -- What an update of the status leaves alone, updateNodeStatus leaves alone.
  module _ {A : Type 0} (view : S → A)
      (same : (s : S) (n : Node) → view (k.update_status s n).0 ≡ view s) where
    on_node_same : (s : S) (h : Host) (o : Option Node) → view (on_node k c s h o).server ≡ view s
    on_node_same s h none = refl
    on_node_same s h (some n) = same s (record n { status = (set_node_status c h n.status).0 })

    update_tries_same :
        (n : ℕ) (s : S) (hosts : ℕ → Host) → view (update_tries k c n s hosts).server ≡ view s
    unfolding update_tries try_update_node_status
    update_tries_same zero s hosts = refl
    update_tries_same (suc n) s hosts =
        let first = try_update_node_status k c s (hosts 0) in
        let once : view first.server ≡ view s = on_node_same s (hosts 0) _ in
        let rest : view (update_tries k c n first.server (λ i. hosts (suc i))).server ≡ view s =
          update_tries_same n first.server (λ i. hosts (suc i)) ∙ once in
        elim (Bool-cases first.succeeded) [ inl u ↦ rw u once | inr u ↦ rw u rest ]

    update_node_status_same :
        (s : S) (hosts : ℕ → Host) → view (update_node_status k c s hosts).server ≡ view s
    unfolding update_node_status
    update_node_status_same s hosts = update_tries_same node_status_update_retry s hosts

  module _ (pods : FakePods.Client S) (laws : IsNodes k) (pod_laws : FakePods.IsClient pods)
      (apart : (s : S) (n : Node) (name : List ℕ)
        → pods.get (k.update_status s n).0 name ≡ pods.get s name) where
    -- What syncNodeStatus leaves on the API server.
    abbrev pub Synced : State S → ℕ → (ℕ → Host) → Type 0
    Synced t now hosts =
        (t.registration_completed ≡ true)
        × ((t.node_succeeded ≡ false)
            ⊎ ((i : ℕ) × (time : ℕ) × (i < 5) × Stands k c (hosts i) time t.server))
        × ((t.pods_succeeded ≡ false) ⊎ Kept.Stands pods c.node_name t.server now)

    -- Whether it returns, by whether the node is registered, and what it leaves then.
    abbrev pub SyncResult : Bool → State S × Bool → ℕ → (ℕ → Host) → Type 0
    SyncResult is_registered r now hosts =
        (r.1 ≡ is_registered) × ((is_registered ≡ false) ⊎ Synced r.0 now hosts)

    node_and_pod :
        (st : State S) (now : ℕ) (hosts : ℕ → Host)
        → let p = with_pods k r c pods st now in
          st.registration_completed ≡ true
          → Synced (with_node k r c pods p (update_node_status k c p.server hosts)) now hosts
    node_and_pod st now hosts completed =
        let p = with_pods k r c pods st now in
        (
          completed,
          elim (Bool-cases (update_node_status k c p.server hosts).succeeded) [
            | inl ok ↦
                let (i, time, below, stands, _, _) =
                  update_node_status-stays k c laws p.server hosts [] ok in
                inr (i, time, below, stands)
            | inr failed ↦ inl failed
          ],
          elim (Bool-cases p.pods_succeeded) [
            | inl ok ↦
                let (pod, found, status) =
                  (Kept.ensure_fake_pods-kept pods c.node_name pod_laws _ now [] ok).0 in
                inr (
                  pod,
                  update_node_status_same
                        (λ s. pods.get s (fake_remote_control_pod_name c.node_name))
                        (λ s n. apart s n (fake_remote_control_pod_name c.node_name)) p.server hosts
                      ∙ found,
                  status,
                )
            | inr failed ↦ inl failed
          ],
        )

    registered-SyncResult :
        (st : State S) (p : S × Bool) (now : ℕ) (hosts : ℕ → Host)
        → SyncResult p.1 (registered k r c pods st p now hosts) now hosts
    registered-SyncResult st (s, false) now hosts = (refl, inl refl)
    registered-SyncResult st (s, true) now hosts = (
      refl,
      inr (node_and_pod (record st { server = s; registration_completed = true }) now hosts refl),
    )

    register-registers :
        (s : S) (b : Bool) (attempts : List (Attempt S))
        → (register k r c s b attempts).1
          ≡ (if b then true else registers c.host_name (answers s attempts))
    register-registers s true attempts = refl
    register-registers s false attempts = register_passes-registers s attempts

    -- syncNodeStatus returns exactly if the node has been registered before or one of the attempts
    -- registers it. When it returns, the node counts as registered; if updateNodeStatus has
    -- succeeded, the API server holds the node with the status of one of its tries, and if
    -- ensureFakePods has succeeded, it holds the pod with the status of that time, whatever became
    -- of the other one, provided an update of a node leaves the pods alone.
    pub sync_node_status_lem :
        (st : State S) (attempts : List (Attempt S)) (now : ℕ) (hosts : ℕ → Host)
        → SyncResult
            (if st.registration_completed
              then true
              else registers c.host_name (answers st.server attempts))
            (sync_node_status k r c pods st attempts now hosts)
            now
            hosts
    unfolding sync_node_status
    sync_node_status_lem st attempts now hosts =
        let o = register k r c st.server st.registration_completed attempts in
        subst (λ b. SyncResult b (registered k r c pods st o now hosts) now hosts)
          (register-registers st.server st.registration_completed attempts)
          (registered-SyncResult st o now hosts)
