-- ===== src/Kubernetes/Pods/Retries.antt =====
-- handleErr of pkg/kubernetes/pods_controller.go: how often a pod is tried.
use rocklet.Base.{
  true, false, ℕ, suc, ◌+◌, ◌≡◌, List, [], ◌∷◌, ◌++◌, some, replicate, ltb, lt→ltb, le→ltb,
  if◌then◌else◌, refl, ap, arith, All, length, ◌∙◌,
}
use rocklet.Kubernetes.Pods.{
  WorkQueue, IsWorkQueue, retried, Fate, dropped, max_retries, Notified, NotifyError, handle_err,
  process_next_item, process_all,
}

abbrev pub IsFailure : Notified → Type 0
IsFailure n = (e : NotifyError) × (n.error ≡ some e)

module _ {K Q : Type 0} (w : WorkQueue K Q) (laws : IsWorkQueue K Q w) where
  one_failure :
      (q : Q) (k : K) (n : Notified)
      → IsFailure n
      → process_next_item w q k n ≡ (
          if ltb (w.num_requeues q k) max_retries
          then (w.add_rate_limited k q, retried)
          else (w.forget k q, dropped))
  unfolding process_next_item handle_err
  one_failure q k n (e, f) = rw f refl

  process_all-step :
      (q : Q) (k : K) (r : Q) (n : Notified) (f : Fate) (ns : List Notified)
      → process_next_item w q k n ≡ (r, f)
      → process_all w q k (n ∷ ns) ≡ ((process_all w r k ns).0, f ∷ (process_all w r k ns).1)
  unfolding process_all
  process_all-step q k r n f ns e = rw e refl

  failures :
      (ns : List Notified) (q : Q) (k : K) (last : Notified) (m : ℕ)
      → w.num_requeues q k ≡ m
      → m + length ns ≡ max_retries
      → All IsFailure ns
      → IsFailure last
      → ((process_all w q k (ns ++ last ∷ [])).1 ≡ replicate (length ns) retried ++ dropped ∷ [])
        × (w.num_requeues (process_all w q k (ns ++ last ∷ [])).0 k ≡ 0)
  unfolding process_all
  failures [] q k last m at total h l =
      let five : ltb (w.num_requeues q k) max_retries ≡ false =
        le→ltb _ _ (omega (arith, at, total)) in
      let step =
        process_all-step q k (w.forget k q) last dropped []
          (one_failure q k last l ∙ rw five refl) in
      (ap (λ p. p.1) step, ap (λ p. w.num_requeues p.0 k) step ∙ laws.requeues-forget k q)
  failures (n ∷ ns) q k last m at total h l =
      let few : ltb (w.num_requeues q k) max_retries ≡ true =
        lt→ltb _ _ (omega (arith, at, total)) in
      let rest =
        failures ns (w.add_rate_limited k q) k last (suc m) (laws.requeues-add k q ∙ ap suc at)
          (omega (arith, total)) h.1 l in
      let step =
        process_all-step q k (w.add_rate_limited k q) n retried (ns ++ last ∷ [])
          (one_failure q k n h.0 ∙ rw few refl) in
      (
        ap (λ p. p.1) step ∙ ap (λ fs. retried ∷ fs) rest.0,
        ap (λ p. w.num_requeues p.0 k) step ∙ rest.1,
      )

  -- A pod for which every notification fails, new to the queue, is retried five times and then
  -- dropped, and its history is forgotten.
  pub failing_pod_dropped :
      (ns : List Notified) (last : Notified) (q : Q) (k : K)
      → w.num_requeues q k ≡ 0
      → length ns ≡ max_retries
      → All IsFailure ns
      → IsFailure last
      → ((process_all w q k (ns ++ last ∷ [])).1 ≡ replicate max_retries retried ++ dropped ∷ [])
        × (w.num_requeues (process_all w q k (ns ++ last ∷ [])).0 k ≡ 0)
  failing_pod_dropped ns last q k fresh five h l =
      let kept = failures ns q k last 0 fresh (omega (arith, five)) h l in
      (kept.0 ∙ ap (λ m. replicate m retried ++ dropped ∷ []) five, kept.1)
