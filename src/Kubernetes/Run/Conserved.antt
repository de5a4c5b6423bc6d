-- ===== src/Kubernetes/Run/Conserved.antt =====
-- The loop of Run of pkg/kubernetes/kubernetes.go and the reader of the cleanings: no cleaning is
-- lost, made up or overtaken on the way.
use mathlib.Core.List.{append_assoc, map-append}
use rocklet.Base.{
  ℕ, zero, suc, ◌≤◌, ◌≡◌, List, [], ◌∷◌, ◌++◌, Option, none, some, Bool, true, false, length,
  length-append, get_elem?, ltb, ltb→lt, map, refl, sym, ap, ◌∙◌, arith, Bool-cases, inl, inr,
}
use rocklet.Kubernetes.Cleanings.{Answer, done, not_found, failed, Client}
use rocklet.Kubernetes.Node.Status.{Config, Host, Nodes}
use rocklet.Kubernetes.FakePods
use rocklet.Kubernetes.Sync
use rocklet.Kubernetes.Sync.{Registry, Attempt, sync_node_status}
use rocklet.Kubernetes.Run.{
  Reader, sending, recording, Loop, starting, looping, registering, exited, Task, getting, creating,
  ended, State, Event, read, configured, receive, tick, stop, proceed, capacity, set_elem, on_read,
  on_configured, on_receive, on_stop, synced, on_tick, on_got, on_task, step, run, start,
}

module _ {C : Type 0} where
  abbrev pub cleaning_of : Task C → C
  cleaning_of (getting c) = c
  cleaning_of (creating c) = c
  cleaning_of (ended c a) = c

  abbrev pub to_send : Reader C → List C
  to_send (sending cs) = cs
  to_send (recording c cs) = cs

  abbrev pub to_record : Reader C → List C
  to_record (sending cs) = cs
  to_record (recording c cs) = c ∷ cs

  pub on_got_same : (x : C) (a : Answer) → cleaning_of (on_got x a) ≡ x
  on_got_same x done = refl
  on_got_same x not_found = refl
  on_got_same x failed = refl

  pub same_cleanings :
      (ts : List (Task C)) (i : ℕ) (t u : Task C)
      → get_elem? ts i ≡ some t
      → cleaning_of u ≡ cleaning_of t
      → map cleaning_of (set_elem ts i u) ≡ map cleaning_of ts
  same_cleanings [] i t u e same = refl
  same_cleanings (x ∷ ts) zero t u e same =
      let first : x ≡ t = cc in ap (λ c. c ∷ map cleaning_of ts) (same ∙ sym (ap cleaning_of first))
  same_cleanings (x ∷ ts) (suc i) t u e same =
      ap (λ cs. cleaning_of x ∷ cs) (same_cleanings ts i t u e same)

module _ {C S : Type 0} (all : List C) where
  -- The cleanings that the loop has taken, those in the channel and those still to be sent are all
  -- of them, in their order; so are those recorded and those still to be recorded; and the channel
  -- holds no more than it can.
  pub record IsConserved (s : State C S) : Type 0 where
    pub in_order : map cleaning_of s.tasks ++ (s.cleaning_ch ++ to_send s.reader) ≡ all
    pub counted : s.recorded ++ to_record s.reader ≡ all
    pub fits : length s.cleaning_ch ≤ 16

  read-IsConserved :
      (s : State C S) (r : Reader C) → s.reader ≡ r → IsConserved s → IsConserved (on_read s r)
  read-IsConserved s (sending []) e h = h
  read-IsConserved s (sending (c ∷ cs)) e h =
      elim (Bool-cases (ltb (length s.cleaning_ch) capacity)) [
        | inl room ↦ rw room (record {
          in_order =
              ap (λ x. map cleaning_of s.tasks ++ x)
                (append_assoc s.cleaning_ch (c ∷ []) cs
                  ∙ ap (λ r. s.cleaning_ch ++ to_send r) (sym e))
              ∙ h.in_order;
          counted = ap (λ r. s.recorded ++ to_record r) (sym e) ∙ h.counted;
          fits = omega (arith, length-append s.cleaning_ch (c ∷ []), ltb→lt _ _ room);
        })
        | inr full ↦ rw full h
      ]
  read-IsConserved s (recording c cs) e h = record {
    in_order =
        ap (λ r. map cleaning_of s.tasks ++ (s.cleaning_ch ++ to_send r)) (sym e) ∙ h.in_order;
    counted =
        append_assoc s.recorded (c ∷ []) cs
        ∙ (ap (λ r. s.recorded ++ to_record r) (sym e) ∙ h.counted);
    fits = h.fits;
  }

  receive-IsConserved :
      (s : State C S) (l : Loop) (ch : List C)
      → s.cleaning_ch ≡ ch
      → IsConserved s
      → IsConserved (on_receive s l ch)
  receive-IsConserved s looping [] e h = h
  receive-IsConserved s looping (c ∷ cs) e h = record {
    in_order =
        ap (λ x. x ++ (cs ++ to_send s.reader)) (map-append cleaning_of s.tasks (getting c ∷ []))
        ∙ (append_assoc (map cleaning_of s.tasks) (c ∷ []) (cs ++ to_send s.reader)
            ∙ (ap (λ x. map cleaning_of s.tasks ++ (x ++ to_send s.reader)) (sym e) ∙ h.in_order));
    counted = h.counted;
    fits = omega (arith, h.fits, ap length e);
  }
  receive-IsConserved s starting ch e h = h
  receive-IsConserved s registering ch e h = h
  receive-IsConserved s exited ch e h = h

  -- A step that leaves the reader, the channel and the list of the goroutines.
  same_flow :
      (s t : State C S)
      → t.reader ≡ s.reader
      → t.cleaning_ch ≡ s.cleaning_ch
      → t.recorded ≡ s.recorded
      → map cleaning_of t.tasks ≡ map cleaning_of s.tasks
      → IsConserved s
      → IsConserved t
  same_flow s t reader ch recorded tasks h = record {
    in_order = rw (tasks, ch, reader) h.in_order;
    counted = rw (recorded, reader) h.counted;
    fits = rw ch h.fits;
  }

  configured-IsConserved :
      (s : State C S) (l : Loop) (b : Bool) → IsConserved s → IsConserved (on_configured s l b)
  configured-IsConserved s starting true h = same_flow s _ refl refl refl refl h
  configured-IsConserved s starting false h = same_flow s _ refl refl refl refl h
  configured-IsConserved s looping b h = h
  configured-IsConserved s registering b h = h
  configured-IsConserved s exited b h = h

  stop-IsConserved : (s : State C S) (l : Loop) → IsConserved s → IsConserved (on_stop s l)
  stop-IsConserved s looping h = same_flow s _ refl refl refl refl h
  stop-IsConserved s starting h = h
  stop-IsConserved s registering h = h
  stop-IsConserved s exited h = h

  synced-IsConserved :
      (s : State C S) (r : Sync.State S × Bool) → IsConserved s → IsConserved (synced s r)
  synced-IsConserved s (t, true) h = same_flow s _ refl refl refl refl h
  synced-IsConserved s (t, false) h = same_flow s _ refl refl refl refl h

  module _ (k : Client C S) (nodes : Nodes S) (r : Registry S) (c : Config)
      (pods : FakePods.Client S) where
    tick-IsConserved :
        (s : State C S) (l : Loop) (attempts : List (Attempt S)) (now : ℕ) (hosts : ℕ → Host)
        → IsConserved s
        → IsConserved (on_tick k nodes r c pods s l attempts now hosts)
    tick-IsConserved s looping attempts now hosts h = synced-IsConserved s _ h
    tick-IsConserved s registering attempts now hosts h = synced-IsConserved s _ h
    tick-IsConserved s starting attempts now hosts h = h
    tick-IsConserved s exited attempts now hosts h = h

    task-IsConserved :
        (s : State C S) (i : ℕ) (o : Option (Task C))
        → get_elem? s.tasks i ≡ o
        → IsConserved s
        → IsConserved (on_task k nodes r c pods s i o)
    task-IsConserved s i none e h = h
    task-IsConserved s i (some (getting x)) e h =
        let a = k.get s.sync.server (k.name x) in
        same_flow s _ refl refl refl
          (same_cleanings s.tasks i (getting x) (on_got x a) e (on_got_same x a)) h
    task-IsConserved s i (some (creating x)) e h =
        same_flow s _ refl refl refl
          (same_cleanings s.tasks i (creating x) (ended x (k.create s.sync.server x).1) e refl) h
    task-IsConserved s i (some (ended x a)) e h = h

    step-IsConserved :
        (s : State C S) (e : Event S) → IsConserved s → IsConserved (step k nodes r c pods s e)
    unfolding step
    step-IsConserved s read h = read-IsConserved s s.reader refl h
    step-IsConserved s (configured b) h = configured-IsConserved s s.loop b h
    step-IsConserved s receive h = receive-IsConserved s s.loop s.cleaning_ch refl h
    step-IsConserved s (tick attempts now hosts) h = tick-IsConserved s s.loop attempts now hosts h
    step-IsConserved s stop h = stop-IsConserved s s.loop h
    step-IsConserved s (proceed i) h = task-IsConserved s i (get_elem? s.tasks i) refl h

    pub run-IsConserved :
        (s : State C S) (es : List (Event S))
        → IsConserved s
        → IsConserved (run k nodes r c pods s es)
    unfolding run
    run-IsConserved s [] h = h
    run-IsConserved s (e ∷ es) h =
        run-IsConserved (step k nodes r c pods s e) es (step-IsConserved s e h)

    -- In every interleaving of the reader, the loop and its goroutines: the cleanings for which
    -- the loop has started a goroutine, those in the channel and those that are yet to be sent
    -- are, in this order, all that were read; so are those recorded and those yet to be recorded;
    -- and the channel holds sixteen at most.
    pub run_from_start-IsConserved :
        (sync : Sync.State S) (es : List (Event S))
        → IsConserved (run k nodes r c pods (start all sync) es)
    run_from_start-IsConserved sync es =
        run-IsConserved (start all sync) es
          (record { in_order = refl; counted = refl; fits = omega arith })
