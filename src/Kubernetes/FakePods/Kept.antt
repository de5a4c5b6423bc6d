-- ===== src/Kubernetes/FakePods/Kept.antt =====
-- ensureFakePods of pkg/kubernetes/node_status.go: the pod on the API server, and when it is
-- removed.
use rocklet.Base.{ℕ, ◌≡◌, List, [], ◌∷◌, Option, none, some, Bool, true, false, refl, ◌∙◌, arith}
use rocklet.Kubernetes.FakePods.{
  Pod, Got, got, not_found, get_failed, Client, IsClient, State, fake_remote_control_pod_name,
  fake_status, set_fake_pod_status, finish, on_created, on_got, remove_existing, ensure_fake_pods,
  ensure_all,
}

module _ {S : Type 0} (c : Client S) (node_name : List ℕ) where
  -- The pod stands on the server with the status of this time.
  abbrev pub Stands : S → ℕ → Type 0
  Stands server now =
      (p : Pod) × (c.get server (fake_remote_control_pod_name node_name) ≡ got p)
      × (p.status ≡ some (fake_status now))

  -- What a call leaves, the removal before it left out.
  abbrev Leaves : State S → State S → ℕ → Type 0
  Leaves before s now =
      (s.succeeded ≡ true → (s.fake_pods_completed ≡ true) × Stands s.server now)
      × (before.fake_pods_completed ≡ true → s.fake_pods_completed ≡ true)
      × (s.deletes ≡ before.deletes)

  module _ (laws : IsClient c) where
    finish-Leaves :
        (s : State S) (now : ℕ) (pod : Pod) → Leaves s (finish c node_name s now pod) now
    finish-Leaves s now pod = (
      λ e. (refl, laws.get-update_status s.server (set_fake_pod_status node_name now pod) e),
      λ e. refl,
      refl,
    )

    created-Leaves :
        (s : State S) (now : ℕ) (r : S × Option Pod) → Leaves s (on_created c node_name s now r) now
    created-Leaves s now (server, none) = (λ e. ground (arith, e), λ e. e, refl)
    created-Leaves s now (server, some pod) = finish-Leaves (record s { server = server }) now pod

    got-Leaves : (s : State S) (now : ℕ) (a : Got) → Leaves s (on_got c node_name s now a) now
    got-Leaves s now (got pod) = finish-Leaves s now pod
    got-Leaves s now not_found = created-Leaves s now _
    got-Leaves s now get_failed = (λ e. ground (arith, e), λ e. e, refl)

    after_removal :
        (s : State S) (now : ℕ) (b : Bool)
        → s.fake_pods_completed ≡ b
        → let u = remove_existing c node_name s b in
          let t =
            on_got c node_name u now (c.get u.server (fake_remote_control_pod_name node_name)) in
          (t.succeeded ≡ true → (t.fake_pods_completed ≡ true) × Stands t.server now)
          × (s.fake_pods_completed ≡ true
              → (t.fake_pods_completed ≡ true) × (t.deletes ≡ s.deletes))
    after_removal s now true e =
        let (done, kept, deletes) =
          got-Leaves s now (c.get s.server (fake_remote_control_pod_name node_name)) in
        (done, λ h. (kept h, deletes))
    after_removal s now false e =
        let u = remove_existing c node_name s false in
        let (done, kept, deletes) =
          got-Leaves u now (c.get u.server (fake_remote_control_pod_name node_name)) in
        (done, λ h. ground (arith, e, h))

    ensure_fake_pods_lem :
        (s : State S) (now : ℕ)
        → let t = ensure_fake_pods c node_name s now in
          (t.succeeded ≡ true → (t.fake_pods_completed ≡ true) × Stands t.server now)
          × (s.fake_pods_completed ≡ true
              → (t.fake_pods_completed ≡ true) × (t.deletes ≡ s.deletes))
    unfolding ensure_fake_pods
    ensure_fake_pods_lem s now = after_removal s now s.fake_pods_completed refl

    ensure_all_keeps :
        (s : State S) (times : List ℕ)
        → s.fake_pods_completed ≡ true
        → (ensure_all c node_name s times).deletes ≡ s.deletes
    unfolding ensure_all
    ensure_all_keeps s [] h = refl
    ensure_all_keeps s (now ∷ times) h =
        let (completed, same) = (ensure_fake_pods_lem s now).1 h in
        ensure_all_keeps (ensure_fake_pods c node_name s now) times completed ∙ same

    -- A call of ensureFakePods that returns no error leaves the pod on the server with the status
    -- of its time, and after it no call removes the pod again, whatever the server answers.
    pub ensure_fake_pods-kept :
        (s : State S) (now : ℕ) (times : List ℕ)
        → (ensure_fake_pods c node_name s now).succeeded ≡ true
        → let t = ensure_fake_pods c node_name s now in
          Stands t.server now × ((ensure_all c node_name t times).deletes ≡ t.deletes)
    ensure_fake_pods-kept s now times h =
        let (completed, stands) = (ensure_fake_pods_lem s now).0 h in
        (stands, ensure_all_keeps (ensure_fake_pods c node_name s now) times completed)
