-- ===== src/Kubernetes/Node/Status/Posted.antt =====
-- The status of the node of pkg/kubernetes/node_status.go: what the API server holds after
-- updateNodeStatus, and when it records the event NodeReady.
use mathlib.Core.Path.{subst}
use rocklet.Base.{
  ℕ, zero, suc, ◌^◌, ◌%◌, ◌≡◌, List, [], ◌∷◌, Option, none, some, Bool, true, false, refl, sym, ◌∙◌,
  ◌⊎◌, ◌<◌, arith, Bool-cases, inl, inr, if◌then◌else◌, bytes_eq_self,
}
use rocklet.Base.Text.{codes}
use rocklet.Kubernetes.Node.{
  node_ready, new_node_ready_condition, node_status_update_retry, condition_true,
}
use rocklet.Kubernetes.Node.Ready.{
  condition, transition, became_ready, set_node_ready_condition-Sets,
}
use rocklet.Kubernetes.Node.Status.{
  Config, Host, Node, NodeStatus, Nodes, IsNodes, Updated, version_string, internal_ip,
  set_node_status, posted, on_node, try_update_node_status, update_tries, update_node_status,
  update_rounds, one_if,
}

-- What a status shows of the program and of the host, with the time since when the node is ready.
abbrev pub Shows : Config → Host → ℕ → NodeStatus → Type 0
Shows c h since t =
    (t.container_runtime_version ≡ codes "rockrobo://v1")
    × (t.kubelet_version ≡ version_string c.version)
    × (t.kernel_version ≡ h.kernel)
    × (t.operating_system ≡ h.os)
    × (t.addresses ≡ (codes "Hostname", c.host_name) ∷ internal_ip h.ip)
    × (t.kubelet_port ≡ c.kubelet_port % 2 ^ 32)
    × (condition node_ready t.conditions ≡ some (new_node_ready_condition h.now since))

pub set_node_status-Shows :
    (c : Config) (h : Host) (t : NodeStatus)
    → Shows c h (transition h.now (condition node_ready t.conditions)) (set_node_status c h t).0
      × ((set_node_status c h t).1 ≡ became_ready (condition node_ready t.conditions))
unfolding set_node_status
set_node_status-Shows c h t =
    let sets = set_node_ready_condition-Sets h.now t.conditions in
    ((refl, refl, refl, refl, refl, refl, sets.0), sets.1)

module _ {S : Type 0} (k : Nodes S) (c : Config) where
  -- The server holds the node with the status that this host had.
  abbrev pub Stands : Host → ℕ → S → Type 0
  Stands h since s = (n : Node) × (k.get s c.node_name ≡ some n) × Shows c h since n.status

  -- Since when a status has it that the node is ready, after a call at this time.
  abbrev since : Host → Node → ℕ
  since h n = transition h.now (condition node_ready n.status.conditions)

  module _ (laws : IsNodes k) where
    posted-Stands :
        (s : S) (h : Host) (n : Node)
        → k.get s c.node_name ≡ some n
        → (posted k c s n (set_node_status c h n.status)).succeeded ≡ true
        → Stands h (since h n) (posted k c s n (set_node_status c h n.status)).server
    posted-Stands s h n e u =
        let named = laws.get_named s c.node_name n e in
        (
          record n { status = (set_node_status c h n.status).0 },
          laws.get-update_status s c.node_name
              (record n { status = (set_node_status c h n.status).0 }) n named e u,
          (set_node_status-Shows c h n.status).0,
        )

    -- The node is found and has been ready since this time.
    abbrev pub ReadySince : ℕ → S → Type 0
    ReadySince time s =
        (n : Node) × (heartbeat : ℕ) × (k.get s c.node_name ≡ some n)
        × (condition node_ready n.status.conditions
            ≡ some (new_node_ready_condition heartbeat time))

    -- A call that finds a node which has been ready since this time.
    abbrev KeepsReady : ℕ → Host → Updated S → Type 0
    KeepsReady time h u =
        (u.events ≡ 0) × ReadySince time u.server × (u.succeeded ≡ true → Stands h time u.server)

    Stands-ReadySince : (h : Host) (time : ℕ) (s : S) → Stands h time s → ReadySince time s
    Stands-ReadySince h time s (n, e, shows) = (n, h.now, e, shows.6)

    posted-KeepsReady :
        (s : S) (h : Host) (time : ℕ) (n : Node) (heartbeat : ℕ)
        → k.get s c.node_name ≡ some n
        → condition node_ready n.status.conditions ≡ some (new_node_ready_condition heartbeat time)
        → KeepsReady time h (posted k c s n (set_node_status c h n.status))
    posted-KeepsReady s h time n heartbeat e ready =
        let shown = set_node_status-Shows c h n.status in
        let same : since h n ≡ time = rw (ready, bytes_eq_self condition_true) refl in
        let quiet : one_if (set_node_status c h n.status).1 ≡ 0 =
          rw (shown.1, ready, bytes_eq_self condition_true) refl in
        let stands : (posted k c s n (set_node_status c h n.status)).succeeded ≡ true
            → Stands h time (posted k c s n (set_node_status c h n.status)).server =
          λ u.
            subst (λ t. Stands h t (posted k c s n (set_node_status c h n.status)).server) same
              (posted-Stands s h n e u) in
        elim (Bool-cases (posted k c s n (set_node_status c h n.status)).succeeded) [
          | inl u ↦ (
            quiet,
            Stands-ReadySince h time (posted k c s n (set_node_status c h n.status)).server
                (stands u),
            stands,
          )
          | inr u ↦ (
            quiet,
            (
              n,
              heartbeat,
              laws.get-update_refused s (record n { status = (set_node_status c h n.status).0 })
                    c.node_name u
                  ∙ e,
              ready,
            ),
            stands,
          )
        ]

    on_node-KeepsReady :
        (s : S) (h : Host) (time : ℕ) (b : Bool)
        → ReadySince time s
        → KeepsReady time h (on_node k c s h (if b then k.get s c.node_name else none))
    on_node-KeepsReady s h time true (n, heartbeat, e, ready) =
        subst (λ o. KeepsReady time h (on_node k c s h o)) (sym e)
          (posted-KeepsReady s h time n heartbeat e ready)
    on_node-KeepsReady s h time false ready = (refl, ready, λ u. ground (arith, u))

    try_update_node_status-KeepsReady :
        (s : S) (h : Host) (time : ℕ)
        → ReadySince time s
        → KeepsReady time h (try_update_node_status k c s h)
    unfolding try_update_node_status
    try_update_node_status-KeepsReady s h time ready =
        on_node-KeepsReady s h time h.get_answered ready

    update_tries-KeepsReady :
        (n : ℕ) (s : S) (hosts : ℕ → Host) (time : ℕ)
        → ReadySince time s
        → ((update_tries k c n s hosts).events ≡ 0)
          × ReadySince time (update_tries k c n s hosts).server
    unfolding update_tries
    update_tries-KeepsReady zero s hosts time ready = (refl, ready)
    update_tries-KeepsReady (suc n) s hosts time ready =
        let (quiet, still, stands) = try_update_node_status-KeepsReady s (hosts 0) time ready in
        let (later, kept) =
          update_tries-KeepsReady n (try_update_node_status k c s (hosts 0)).server
            (λ i. hosts (suc i)) time still in
        elim (Bool-cases (try_update_node_status k c s (hosts 0)).succeeded) [
          | inl u ↦ rw u (quiet, still)
          | inr u ↦ rw u (omega (arith, quiet, later), kept)
        ]

    update_rounds-KeepsReady :
        (s : S) (rounds : List (ℕ → Host)) (time : ℕ)
        → ReadySince time s
        → ((update_rounds k c s rounds).events ≡ 0)
          × ReadySince time (update_rounds k c s rounds).server
    unfolding update_rounds update_node_status
    update_rounds-KeepsReady s [] time ready = (refl, ready)
    update_rounds-KeepsReady s (hosts ∷ rounds) time ready =
        let (quiet, still) = update_tries-KeepsReady node_status_update_retry s hosts time ready in
        let (later, kept) =
          update_rounds-KeepsReady (update_node_status k c s hosts).server rounds time still in
        (omega (arith, quiet, later), kept)

    -- A call that succeeds has come from a node that was found.
    on_node-Stands :
        (s : S) (h : Host) (o : Option Node)
        → (o ≡ none) ⊎ (o ≡ k.get s c.node_name)
        → (on_node k c s h o).succeeded ≡ true
        → (time : ℕ) × Stands h time (on_node k c s h o).server
    on_node-Stands s h none e u = ground (arith, u)
    on_node-Stands s h (some n) (inl e) u = ground (arith, e)
    on_node-Stands s h (some n) (inr e) u = (since h n, posted-Stands s h n (sym e) u)

    answer :
        (s : S) (b : Bool)
        → ((if b then k.get s c.node_name else none) ≡ none)
          ⊎ ((if b then k.get s c.node_name else none) ≡ k.get s c.node_name)
    answer s true = inr refl
    answer s false = inl refl

    update_tries-Stands :
        (n : ℕ) (s : S) (hosts : ℕ → Host)
        → (update_tries k c n s hosts).succeeded ≡ true
        → (i : ℕ) × (time : ℕ) × (i < n) × Stands (hosts i) time (update_tries k c n s hosts).server
    unfolding update_tries try_update_node_status
    update_tries-Stands zero s hosts u = ground (arith, u)
    update_tries-Stands (suc n) s hosts u =
        elim (Bool-cases (try_update_node_status k c s (hosts 0)).succeeded) [
          | inl first ↦
              let (time, stands) =
                on_node-Stands s (hosts 0) _ (answer s (hosts 0).get_answered) first in
              rw first (0, time, omega arith, stands)
          | inr failed ↦
              let rest : (update_tries k c n (try_update_node_status k c s (hosts 0)).server
                    (λ i. hosts (suc i))).succeeded
                  ≡ true =
                rw failed at u in
              let (i, time, below, stands) =
                update_tries-Stands n (try_update_node_status k c s (hosts 0)).server
                  (λ i. hosts (suc i)) rest in
              rw failed (suc i, time, omega arith, stands)
        ]

    -- If updateNodeStatus returns no error, the API server holds the node with the status of one
    -- of its at most five tries: the versions, the addresses, the port, and the ready condition
    -- with the time of that try. In whatever calls follow, whether they succeed or not, no further
    -- event is recorded, and the node has been ready since the same time, if nobody else changes
    -- the node between the calls.
    pub update_node_status-stays :
        (s : S) (hosts : ℕ → Host) (rounds : List (ℕ → Host))
        → (update_node_status k c s hosts).succeeded ≡ true
        → let t = (update_node_status k c s hosts).server in
          (i : ℕ) × (time : ℕ) × (i < 5)
          × Stands (hosts i) time t
          × ((update_rounds k c t rounds).events ≡ 0)
          × ReadySince time (update_rounds k c t rounds).server
    unfolding update_node_status
    update_node_status-stays s hosts rounds u =
        let (i, time, below, stands) = update_tries-Stands 5 s hosts u in
        let t = (update_node_status k c s hosts).server in
        let (quiet, ready) =
          update_rounds-KeepsReady t rounds time (Stands-ReadySince (hosts i) time t stands) in
        (i, time, below, stands, quiet, ready)
