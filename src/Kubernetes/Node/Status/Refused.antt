-- ===== src/Kubernetes/Node/Status/Refused.antt =====
-- updateNodeStatus of pkg/kubernetes/node_status.go while the API server refuses each update: the
-- event is recorded before the update is sent.
use mathlib.Core.Path.{subst}
use rocklet.Base.{
  ℕ, zero, suc, ◌≡◌, none, some, true, false, refl, sym, ap, ◌∙◌, arith, if◌then◌else◌,
}
use rocklet.Kubernetes.Node.{node_ready, node_status_update_retry}
use rocklet.Kubernetes.Node.Ready.{condition, became_ready}
use rocklet.Kubernetes.Node.Status.{
  Config, Host, Node, Nodes, IsNodes, Updated, set_node_status, posted, on_node,
  try_update_node_status, update_tries, update_node_status, one_if,
}
use rocklet.Kubernetes.Node.Status.Posted.{set_node_status-Shows}

module _ {S : Type 0} (k : Nodes S) (c : Config) (laws : IsNodes k)
    (refused : (s : S) (n : Node) → (k.update_status s n).1 ≡ false) where
  -- One try, which finds this node.
  abbrev Once : Node → Updated S → Type 0
  Once n u = (u.events ≡ 1) × (u.succeeded ≡ false) × (k.get u.server c.node_name ≡ some n)

  posted-Once :
      (s : S) (h : Host) (n : Node)
      → k.get s c.node_name ≡ some n
      → became_ready (condition node_ready n.status.conditions) ≡ true
      → Once n (posted k c s n (set_node_status c h n.status))
  posted-Once s h n e unready =
      let sent : Node = record n { status = (set_node_status c h n.status).0 } in
      let recorded : one_if (set_node_status c h n.status).1 ≡ 1 =
        rw ((set_node_status-Shows c h n.status).1, unready) refl in
      (recorded, refused s sent, laws.get-update_refused s sent c.node_name (refused s sent) ∙ e)

  try_update_node_status-Once :
      (s : S) (h : Host) (n : Node)
      → k.get s c.node_name ≡ some n
      → became_ready (condition node_ready n.status.conditions) ≡ true
      → h.get_answered ≡ true
      → Once n (try_update_node_status k c s h)
  unfolding try_update_node_status
  try_update_node_status-Once s h n e unready answered =
      subst (λ o. Once n (on_node k c s h o))
        (sym (ap (λ b. if b then k.get s c.node_name else none) answered ∙ e))
        (posted-Once s h n e unready)

  update_tries-events :
      (tries : ℕ) (s : S) (hosts : ℕ → Host) (n : Node)
      → k.get s c.node_name ≡ some n
      → became_ready (condition node_ready n.status.conditions) ≡ true
      → ((i : ℕ) → (hosts i).get_answered ≡ true)
      → ((update_tries k c tries s hosts).events ≡ tries)
        × ((update_tries k c tries s hosts).succeeded ≡ false)
  unfolding update_tries
  update_tries-events zero s hosts n e unready answered = (refl, refl)
  update_tries-events (suc tries) s hosts n e unready answered =
      let (one, failed, same) = try_update_node_status-Once s (hosts 0) n e unready (answered 0) in
      let (rest, all_failed) =
        update_tries-events tries (try_update_node_status k c s (hosts 0)).server
          (λ i. hosts (suc i)) n same unready (λ i. answered (suc i)) in
      rw failed (omega (arith, one, rest), all_failed)

  -- If the node has a ready condition that is not true, Get is answered and the API server refuses
  -- each update of the status, then updateNodeStatus returns an error and has recorded the event
  -- that the node is ready five times, once for each try, though the node is not ready on the
  -- server.
  pub update_node_status-refused :
      (s : S) (hosts : ℕ → Host) (n : Node)
      → k.get s c.node_name ≡ some n
      → became_ready (condition node_ready n.status.conditions) ≡ true
      → ((i : ℕ) → (hosts i).get_answered ≡ true)
      → ((update_node_status k c s hosts).events ≡ node_status_update_retry)
        × ((update_node_status k c s hosts).succeeded ≡ false)
  unfolding update_node_status
  update_node_status-refused s hosts n e unready answered =
      update_tries-events node_status_update_retry s hosts n e unready answered
