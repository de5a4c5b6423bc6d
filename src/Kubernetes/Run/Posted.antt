-- ===== src/Kubernetes/Run/Posted.antt =====
-- The loop of Run of pkg/kubernetes/kubernetes.go: the cleanings are on the API server in the end.
use mathlib.Core.Path.{subst}
use mathlib.Core.List.{append-nil}
use rocklet.Base.{
  ℕ, zero, suc, ◌≡◌, List, [], ◌∷◌, ◌++◌, Option, none, some, Bool, true, false, length, All,
  get_elem?, ltb, map, refl, sym, ap, ◌∙◌, Bool-cases, inl, inr,
}
use rocklet.Kubernetes.Cleanings.{Answer, done, not_found, failed, Client, IsClient}
use rocklet.Kubernetes.Node.Status.{Config, Host, Nodes}
use rocklet.Kubernetes.FakePods
use rocklet.Kubernetes.Sync
use rocklet.Kubernetes.Sync.{Registry, Attempt, sync_node_status}
use rocklet.Kubernetes.Sync.Keeps.{Keeps, AttemptsKeep, sync_node_status-keeps}
use rocklet.Kubernetes.Run.{
  Reader, sending, recording, Loop, starting, looping, registering, exited, Task, getting, creating,
  ended, State, Event, read, configured, receive, tick, stop, proceed, capacity, set_elem, on_read,
  on_configured, on_receive, on_stop, synced, on_tick, on_got, on_task, step, run, start,
}
use rocklet.Kubernetes.Run.Conserved.{cleaning_of, to_send, run_from_start-IsConserved}

-- A goroutine that has returned without an error.
abbrev pub EndedWell : {C : Type 0} → Task C → Type 0
EndedWell (ended c done) = Unit
EndedWell (ended c not_found) = ⊥
EndedWell (ended c failed) = ⊥
EndedWell (getting c) = ⊥
EndedWell (creating c) = ⊥

module _ {C S : Type 0} (k : Client C S) where
  -- The API server has a cleaning of this name.
  abbrev pub Has : List ℕ → S → Type 0
  Has name server = k.get server name ≡ done

  -- If the goroutine has returned without an error, its cleaning is there.
  abbrev pub TaskPosted : S → Task C → Type 0
  TaskPosted server (ended c done) = Has (k.name c) server
  TaskPosted server _ = Unit

  abbrev AllPosted : S → List (Task C) → Type 0
  AllPosted server ts = All (TaskPosted server) ts

  abbrev Stays : S → S → Type 0
  Stays s t = (name : List ℕ) → Has name s → Has name t

  task-Stays : (s t : S) (x : Task C) → Stays s t → TaskPosted s x → TaskPosted t x
  task-Stays s t (ended c done) h p = h (k.name c) p
  task-Stays s t (ended c not_found) h p = tt
  task-Stays s t (ended c failed) h p = tt
  task-Stays s t (getting c) h p = tt
  task-Stays s t (creating c) h p = tt

  all_stay : (s t : S) (xs : List (Task C)) → Stays s t → AllPosted s xs → AllPosted t xs
  all_stay s t [] h p = tt
  all_stay s t (x ∷ xs) h p = (task-Stays s t x h p.0, all_stay s t xs h p.1)

  all_with :
      (s : S) (xs : List (Task C)) (i : ℕ) (x : Task C)
      → TaskPosted s x
      → AllPosted s xs
      → AllPosted s (set_elem xs i x)
  all_with s [] i x p ps = tt
  all_with s (y ∷ ys) zero x p ps = (p, ps.1)
  all_with s (y ∷ ys) (suc i) x p ps = (ps.0, all_with s ys i x p ps.1)

  all_append :
      (s : S) (xs : List (Task C)) (x : Task C)
      → TaskPosted s x
      → AllPosted s xs
      → AllPosted s (xs ++ x ∷ [])
  all_append s [] x p ps = (p, tt)
  all_append s (y ∷ ys) x p ps = (ps.0, all_append s ys x p ps.1)

  got_posted : (s : S) (x : C) (a : Answer) → k.get s (k.name x) ≡ a → TaskPosted s (on_got x a)
  got_posted s x done e = e
  got_posted s x not_found e = tt
  got_posted s x failed e = tt

  ended_posted :
      (s : S) (x : C) (a : Answer) → (a ≡ done → Has (k.name x) s) → TaskPosted s (ended x a)
  ended_posted s x done h = h refl
  ended_posted s x not_found h = tt
  ended_posted s x failed h = tt

  all_posted :
      (s : S) (xs : List (Task C))
      → AllPosted s xs
      → All EndedWell xs
      → All (λ c. Has (k.name c) s) (map cleaning_of xs)
  all_posted s [] p e = tt
  all_posted s (ended c done ∷ xs) p e = (p.0, all_posted s xs p.1 e.1)
  all_posted s (ended c not_found ∷ xs) p e = absurd e.0
  all_posted s (ended c failed ∷ xs) p e = absurd e.0
  all_posted s (getting c ∷ xs) p e = absurd e.0
  all_posted s (creating c ∷ xs) p e = absurd e.0

  module _ (nodes : Nodes S) (r : Registry S) (c : Config) (pods : FakePods.Client S)
      (laws : IsClient k) (apart : (name : List ℕ) → Keeps nodes r pods (Has name)) where
    -- Others remove no cleaning between the attempts to register.
    abbrev pub EventKeeps : Event S → Type 0
    EventKeeps (tick attempts now hosts) = (name : List ℕ) → AttemptsKeep (Has name) attempts
    EventKeeps _ = Unit

    abbrev Good : State C S → Type 0
    Good s = AllPosted s.sync.server s.tasks

    read-Good : (s : State C S) (x : Reader C) → Good s → Good (on_read s x)
    read-Good s (sending []) h = h
    read-Good s (sending (y ∷ ys)) h = elim (Bool-cases (ltb (length s.cleaning_ch) capacity)) [
      | inl room ↦ rw room h
      | inr full ↦ rw full h
    ]
    read-Good s (recording y ys) h = h

    configured-Good : (s : State C S) (l : Loop) (b : Bool) → Good s → Good (on_configured s l b)
    configured-Good s starting true h = h
    configured-Good s starting false h = h
    configured-Good s looping b h = h
    configured-Good s registering b h = h
    configured-Good s exited b h = h

    receive-Good : (s : State C S) (l : Loop) (ch : List C) → Good s → Good (on_receive s l ch)
    receive-Good s looping [] h = h
    receive-Good s looping (y ∷ ys) h = all_append s.sync.server s.tasks (getting y) tt h
    receive-Good s starting ch h = h
    receive-Good s registering ch h = h
    receive-Good s exited ch h = h

    stop-Good : (s : State C S) (l : Loop) → Good s → Good (on_stop s l)
    stop-Good s looping h = h
    stop-Good s starting h = h
    stop-Good s registering h = h
    stop-Good s exited h = h

    synced-Good :
        (s : State C S) (x : Sync.State S × Bool)
        → Stays s.sync.server x.0.server
        → Good s
        → Good (synced s x)
    synced-Good s (t, true) stays h = all_stay s.sync.server t.server s.tasks stays h
    synced-Good s (t, false) stays h = all_stay s.sync.server t.server s.tasks stays h

    sync-Stays :
        (st : Sync.State S) (attempts : List (Attempt S)) (now : ℕ) (hosts : ℕ → Host)
        → ((name : List ℕ) → AttemptsKeep (Has name) attempts)
        → Stays st.server (sync_node_status nodes r c pods st attempts now hosts).0.server
    sync-Stays st attempts now hosts others name h =
        sync_node_status-keeps nodes r c pods (Has name) (apart name) st attempts now hosts
          (others name) h

    tick-Good :
        (s : State C S) (l : Loop) (attempts : List (Attempt S)) (now : ℕ) (hosts : ℕ → Host)
        → ((name : List ℕ) → AttemptsKeep (Has name) attempts)
        → Good s
        → Good (on_tick k nodes r c pods s l attempts now hosts)
    tick-Good s looping attempts now hosts others h =
        synced-Good s _ (sync-Stays s.sync attempts now hosts others) h
    tick-Good s registering attempts now hosts others h =
        synced-Good s _ (sync-Stays s.sync attempts now hosts others) h
    tick-Good s starting attempts now hosts others h = h
    tick-Good s exited attempts now hosts others h = h

    task-Good :
        (s : State C S) (i : ℕ) (o : Option (Task C))
        → Good s
        → Good (on_task k nodes r c pods s i o)
    task-Good s i none h = h
    task-Good s i (some (getting x)) h =
        all_with s.sync.server s.tasks i (on_got x (k.get s.sync.server (k.name x)))
          (got_posted s.sync.server x (k.get s.sync.server (k.name x)) refl) h
    task-Good s i (some (creating x)) h =
        let server = s.sync.server in
        let a = k.create server x in
        all_with a.0 s.tasks i (ended x a.1) (ended_posted a.0 x a.1 (laws.get-create server x))
          (all_stay server a.0 s.tasks (laws.get-create_other server x) h)
    task-Good s i (some (ended x a)) h = h

    step-Good :
        (s : State C S) (e : Event S) → EventKeeps e → Good s → Good (step k nodes r c pods s e)
    unfolding step
    step-Good s read q h = read-Good s s.reader h
    step-Good s (configured b) q h = configured-Good s s.loop b h
    step-Good s receive q h = receive-Good s s.loop s.cleaning_ch h
    step-Good s (tick attempts now hosts) q h = tick-Good s s.loop attempts now hosts q h
    step-Good s stop q h = stop-Good s s.loop h
    step-Good s (proceed i) q h = task-Good s i (get_elem? s.tasks i) h

    run-Good :
        (s : State C S) (es : List (Event S))
        → All EventKeeps es
        → Good s
        → Good (run k nodes r c pods s es)
    unfolding run
    run-Good s [] q h = h
    run-Good s (e ∷ es) q h = run-Good (step k nodes r c pods s e) es q.1 (step-Good s e q.0 h)

    -- Once all cleanings that were read have been sent, the channel is empty and each goroutine
    -- has returned without an error, the API server has every one of these cleanings, whatever
    -- order the steps of the reader, the loop with its ticks and the goroutines came in, provided
    -- that the calls for nodes and pods, and others between the attempts to register, remove no
    -- cleaning.
    pub run_from_start-posts :
        (all : List C) (sync : Sync.State S) (es : List (Event S))
        → All EventKeeps es
        → (run k nodes r c pods (start all sync) es).reader ≡ sending []
        → (run k nodes r c pods (start all sync) es).cleaning_ch ≡ []
        → All EndedWell (run k nodes r c pods (start all sync) es).tasks
        → All (λ x. Has (k.name x) (run k nodes r c pods (start all sync) es).sync.server) all
    run_from_start-posts all sync es others sent empty well =
        let s = run k nodes r c pods (start all sync) es in
        let flow = run_from_start-IsConserved all k nodes r c pods sync es in
        let whole : map cleaning_of s.tasks ≡ all =
          sym (append-nil (map cleaning_of s.tasks))
          ∙ (ap (λ x. map cleaning_of s.tasks ++ ([] ++ to_send x)) (sym sent)
              ∙ (ap (λ x. map cleaning_of s.tasks ++ (x ++ to_send s.reader)) (sym empty)
                  ∙ flow.in_order)) in
        subst (λ cs. All (λ x. Has (k.name x) s.sync.server) cs) whole
          (all_posted s.sync.server s.tasks (run-Good (start all sync) es others tt) well)
