-- ===== src/Kubernetes/Pods/Controller/Settled.antt =====
-- The controller of pkg/kubernetes/pods_controller.go: a pod whose status has been reported and
-- read back.
use mathlib.Core.Path.{subst}
use mathlib.Core.List.{append-nil, append_assoc}
use rocklet.Base.{
  ℕ, zero, suc, ◌+◌, replicate, ◌≡◌, List, [], ◌∷◌, ◌++◌, Option, none, some, Bool, true, false,
  refl, sym, ap, ◌∙◌, arith, if◌then◌else◌, Bool-cases, inl, inr,
}
use rocklet.Kubernetes.Pods.{
  WorkQueue, done, Phase, succeeded, failed, Pod, Found, lookup_failed, missing, found, Notified,
  run_commands, act, finished, send_notify, is_pending, handle_err, process_next_item,
}
use rocklet.Kubernetes.Pods.Controller.{
  Workers, on_synced, waiting, working, returned, State, Answers, Event, synced, deliver,
  deliver_unkeyed, deleted, work, stored, update_pod_status, worked, by_worker, step, run,
}

-- sendNotify does nothing with what the store has.
abbrev pub Idle : Found → Type 0
Idle lookup_failed = ⊥
Idle missing = Unit
Idle (found p) = (if p.is_mirror then false else is_pending p.phase) ≡ false

-- Neither the pod on the API server nor the one in the store is to be acted on.
pub record IsSettled {Q : Type 0} (s : State Q) : Type 0 where
  pub on_server : Idle (stored s.server)
  pub in_store : Idle s.store

abbrev pub SendsNothing : Notified → Type 0
SendsNothing n = (n.commands ≡ []) × (n.reported ≡ none) × (n.error ≡ none)

send_notify-SendsNothing :
    (robot : List ℕ × List ℕ → Bool) (in_time : Bool) (f : Found)
    → Idle f
    → SendsNothing (send_notify robot in_time f)
unfolding send_notify
send_notify-SendsNothing robot in_time lookup_failed h = elim h [ ]
send_notify-SendsNothing robot in_time missing h = (refl, refl, refl)
send_notify-SendsNothing robot in_time (found p) h = elim (Bool-cases p.is_mirror) [
  | inl mirror ↦ rw mirror (refl, refl, refl)
  | inr real ↦
      let waits : is_pending p.phase ≡ false = rw real at h in rw (real, waits) (refl, refl, refl)
]

replicate-append : (m n : ℕ) → replicate m done ++ replicate n done ≡ replicate (m + n) done
replicate-append zero n = let same : n ≡ zero + n = omega arith in ap (λ k. replicate k done) same
replicate-append (suc m) n =
    let same : suc (m + n) ≡ suc m + n = omega arith in
    ap (λ fs. done ∷ fs) (replicate-append m n) ∙ ap (λ k. replicate k done) same

pub unreported : (server : Option Pod) (b : Bool) → update_pod_status server none b ≡ server
unreported none b = refl
unreported (some p) b = refl

module _ {K Q : Type 0} (w : WorkQueue K Q) (key : K) where
  -- Steps that send nothing, leave a settled state, and finish the key without an error each time.
  abbrev Quiet : State Q → State Q → Type 0
  Quiet s t = IsSettled t × (t.sent ≡ s.sent) × ((m : ℕ) × (t.fates ≡ s.fates ++ replicate m done))

  unchanged : (s t : State Q) → IsSettled t → t.sent ≡ s.sent → t.fates ≡ s.fates → Quiet s t
  unchanged s t h sent fates = (h, sent, (0, fates ∙ sym (append-nil s.fates)))

  done_if : (q : Q) (n : Notified) → n.error ≡ none → (process_next_item w q key n).1 ≡ done
  unfolding process_next_item handle_err
  done_if q n e = rw e refl

  worked-Quiet :
      (s : State Q) (b : Bool) (n : Notified)
      → SendsNothing n
      → IsSettled s
      → Quiet s (worked w key s b n)
  worked-Quiet s b n (none_sent, none_reported, no_error) h =
      let server : update_pod_status s.server n.reported b ≡ s.server =
        ap (λ r. update_pod_status s.server r b) none_reported ∙ unreported s.server b in
      (
        record { on_server = rw server h.on_server; in_store = h.in_store },
        ap (λ cs. s.sent ++ cs) none_sent ∙ append-nil s.sent,
        (1, ap (λ f. s.fates ++ f ∷ []) (done_if s.queue n no_error)),
      )

  by_worker-Quiet :
      (s : State Q) (v : Workers) (b : Bool) (n : Notified)
      → SendsNothing n
      → IsSettled s
      → Quiet s (by_worker w key s v b n)
  by_worker-Quiet s working b n nothing h = worked-Quiet s b n nothing h
  by_worker-Quiet s waiting b n nothing h = unchanged s s h refl refl
  by_worker-Quiet s returned b n nothing h = unchanged s s h refl refl

  step-Quiet : (s : State Q) (e : Event) → IsSettled s → Quiet s (step w key s e)
  unfolding step
  step-Quiet s (synced b) h =
      unchanged s (record s { workers = on_synced s.workers b })
        (record { on_server = h.on_server; in_store = h.in_store }) refl refl
  step-Quiet s deliver h =
      unchanged s (step w key s deliver)
        (record { on_server = h.on_server; in_store = h.on_server }) refl refl
  step-Quiet s deliver_unkeyed h =
      unchanged s (step w key s deliver_unkeyed)
        (record { on_server = h.on_server; in_store = h.on_server }) refl refl
  step-Quiet s deleted h =
      unchanged s (step w key s deleted) (record { on_server = tt; in_store = h.in_store }) refl
        refl
  step-Quiet s (work a) h =
      by_worker-Quiet s s.workers a.update_succeeds _
        (send_notify-SendsNothing a.robot a.in_time s.store h.in_store) h

  run-Quiet : (s : State Q) (es : List Event) → IsSettled s → Quiet s (run w key s es)
  unfolding run
  run-Quiet s [] h = unchanged s s h refl refl
  run-Quiet s (e ∷ es) h =
      let (settled, same, (m, finished)) = step-Quiet s e h in
      let (kept, later, (m', more)) = run-Quiet (step w key s e) es settled in
      (
        kept,
        later ∙ same,
        (
          m + m',
          more
              ∙ (ap (λ fs. fs ++ replicate m' done) finished
                  ∙ (append_assoc s.fates (replicate m done) (replicate m' done)
                      ∙ ap (λ fs. s.fates ++ fs) (replicate-append m m'))),
        ),
      )

  -- The pod is reported as done.
  abbrev Reports : Notified → Type 0
  Reports n = (phase : Phase) × (n.reported ≡ some phase) × (is_pending phase ≡ false)

  finished-Reports : (sent : List (List ℕ × List ℕ)) (b : Bool) → Reports (finished sent b)
  finished-Reports sent true = (succeeded, refl, refl)
  finished-Reports sent false = (failed, refl, refl)

  send_notify-Reports :
      (robot : List ℕ × List ℕ → Bool) (p : Pod)
      → p.is_mirror ≡ false
      → is_pending p.phase ≡ true
      → Reports (send_notify robot true (found p))
  unfolding send_notify act
  send_notify-Reports robot p real waits =
      rw (real, waits)
        (finished-Reports (run_commands robot p.containers).0 (run_commands robot p.containers).1)

  reported-Idle :
      (server : Option Pod) (phase : Phase)
      → is_pending phase ≡ false
      → Idle (stored (update_pod_status server (some phase) true))
  reported-Idle none phase h = tt
  reported-Idle (some p) phase h = elim (Bool-cases p.is_mirror) [
    | inl mirror ↦ rw mirror refl
    | inr real ↦ rw real h
  ]

  acted-Idle :
      (s : State Q) (v : Workers) (b : Bool) (n : Notified)
      → v ≡ working
      → b ≡ true
      → Reports n
      → Idle (stored (by_worker w key s v b n).server)
  acted-Idle s working true n e u (phase, reported, over) =
      subst (λ r. Idle (stored (update_pod_status s.server r true))) (sym reported)
        (reported-Idle s.server phase over)
  acted-Idle s working false n e u reports = ground (arith, u)
  acted-Idle s waiting b n e u reports = ground (arith, e)
  acted-Idle s returned b n e u reports = ground (arith, e)

  -- Once the worker has acted in time on a pending pod, the API server has taken the new status
  -- and the informer has delivered it, no goroutine that sends commands is started for the pod
  -- again and each further pass over its key ends without an error, whatever happens; so a pod
  -- that was queued again since a command failed is not tried again. A goroutine that an earlier
  -- pass has started, and that has outlived its five seconds, is counted with all its commands
  -- when it is started.
  pub acts_once :
      (s : State Q) (a : Answers) (p : Pod) (es : List Event)
      → s.workers ≡ working
      → s.store ≡ found p
      → p.is_mirror ≡ false
      → is_pending p.phase ≡ true
      → a.in_time ≡ true
      → a.update_succeeds ≡ true
      → let t = step w key s (work a) in
        ((run w key t (deliver ∷ es)).sent ≡ t.sent)
        × ((m : ℕ) × ((run w key t (deliver ∷ es)).fates ≡ t.fates ++ replicate m done))
  unfolding step run
  acts_once s a p es works holds real waits in_time updates =
      let reports : Reports (send_notify a.robot a.in_time s.store) =
        subst (λ b. Reports (send_notify a.robot b s.store)) (sym in_time)
          (subst (λ f. Reports (send_notify a.robot true f)) (sym holds)
            (send_notify-Reports a.robot p real waits)) in
      let idle = acted-Idle s s.workers a.update_succeeds _ works updates reports in
      let (_, same, finishes) =
        run-Quiet (step w key (step w key s (work a)) deliver) es
          (record { on_server = idle; in_store = idle }) in
      (same, finishes)
