-- ===== src/Kubernetes/Run/Exited.antt =====
-- Run of pkg/kubernetes/kubernetes.go after its end: what the reader of the cleanings still does.
use rocklet.Base.{
  ℕ, suc, ◌+◌, ◌≤◌, ◌≡◌, List, [], ◌∷◌, ◌++◌, Option, none, some, Bool, length, length-append,
  get_elem?, ltb, map, refl, sym, ap, ◌∙◌, arith, Bool-cases, inl, inr,
}
use rocklet.Kubernetes.Cleanings.{Client}
use rocklet.Kubernetes.Node.Status.{Config, Host, Nodes}
use rocklet.Kubernetes.FakePods
use rocklet.Kubernetes.Sync
use rocklet.Kubernetes.Sync.{Registry, Attempt}
use rocklet.Kubernetes.Run.{
  Reader, sending, recording, Loop, starting, looping, registering, exited, Task, getting, creating,
  ended, State, Event, read, configured, receive, tick, stop, proceed, capacity, on_read,
  on_configured, on_receive, on_stop, on_tick, on_got, on_task, step, run, start,
}
use rocklet.Kubernetes.Run.Conserved.{
  IsConserved, cleaning_of, to_send, to_record, same_cleanings, on_got_same, run-IsConserved,
  run_from_start-IsConserved,
}

length-map : {C : Type 0} → (ts : List (Task C)) → length (map cleaning_of ts) ≡ length ts
length-map [] = refl
length-map (t ∷ ts) = ap suc (length-map ts)

sent-le-recorded : {C : Type 0} → (x : Reader C) → length (to_send x) ≤ length (to_record x)
sent-le-recorded (sending cs) = omega arith
sent-le-recorded (recording c cs) = omega arith

module _ {C S : Type 0} where
  -- The loop has ended, and has started goroutines for the same cleanings.
  abbrev StaysExited : State C S → State C S → Type 0
  StaysExited s t = (t.loop ≡ exited) × (map cleaning_of t.tasks ≡ map cleaning_of s.tasks)

  read-StaysExited : (s : State C S) (r : Reader C) → s.loop ≡ exited → StaysExited s (on_read s r)
  read-StaysExited s (sending []) e = (e, refl)
  read-StaysExited s (sending (c ∷ cs)) e =
      elim (Bool-cases (ltb (length s.cleaning_ch) capacity)) [
        | inl room ↦ rw room (e, refl)
        | inr full ↦ rw full (e, refl)
      ]
  read-StaysExited s (recording c cs) e = (e, refl)

  receive-StaysExited :
      (s : State C S) (l : Loop) (ch : List C)
      → l ≡ exited
      → s.loop ≡ exited
      → StaysExited s (on_receive s l ch)
  receive-StaysExited s looping ch x e = ground (arith, x)
  receive-StaysExited s starting ch x e = (e, refl)
  receive-StaysExited s registering ch x e = (e, refl)
  receive-StaysExited s exited ch x e = (e, refl)

  configured-StaysExited :
      (s : State C S) (l : Loop) (b : Bool)
      → l ≡ exited
      → s.loop ≡ exited
      → StaysExited s (on_configured s l b)
  configured-StaysExited s starting b x e = ground (arith, x)
  configured-StaysExited s looping b x e = (e, refl)
  configured-StaysExited s registering b x e = (e, refl)
  configured-StaysExited s exited b x e = (e, refl)

  stop-StaysExited : (s : State C S) (l : Loop) → s.loop ≡ exited → StaysExited s (on_stop s l)
  stop-StaysExited s looping e = (refl, refl)
  stop-StaysExited s starting e = (e, refl)
  stop-StaysExited s registering e = (e, refl)
  stop-StaysExited s exited e = (e, refl)

  module _ (k : Client C S) (nodes : Nodes S) (r : Registry S) (c : Config)
      (pods : FakePods.Client S) where
    tick-StaysExited :
        (s : State C S) (l : Loop) (attempts : List (Attempt S)) (now : ℕ) (hosts : ℕ → Host)
        → l ≡ exited
        → s.loop ≡ exited
        → StaysExited s (on_tick k nodes r c pods s l attempts now hosts)
    tick-StaysExited s looping attempts now hosts x e = ground (arith, x)
    tick-StaysExited s registering attempts now hosts x e = ground (arith, x)
    tick-StaysExited s starting attempts now hosts x e = (e, refl)
    tick-StaysExited s exited attempts now hosts x e = (e, refl)

    task-StaysExited :
        (s : State C S) (i : ℕ) (o : Option (Task C))
        → get_elem? s.tasks i ≡ o
        → s.loop ≡ exited
        → StaysExited s (on_task k nodes r c pods s i o)
    task-StaysExited s i none g e = (e, refl)
    task-StaysExited s i (some (getting x)) g e =
        let a = k.get s.sync.server (k.name x) in
        (e, same_cleanings s.tasks i (getting x) (on_got x a) g (on_got_same x a))
    task-StaysExited s i (some (creating x)) g e =
        (e, same_cleanings s.tasks i (creating x) (ended x (k.create s.sync.server x).1) g refl)
    task-StaysExited s i (some (ended x a)) g e = (e, refl)

    step-StaysExited :
        (s : State C S) (e : Event S) → s.loop ≡ exited → StaysExited s (step k nodes r c pods s e)
    unfolding step
    step-StaysExited s read x = read-StaysExited s s.reader x
    step-StaysExited s (configured b) x = configured-StaysExited s s.loop b x x
    step-StaysExited s receive x = receive-StaysExited s s.loop s.cleaning_ch x x
    step-StaysExited s (tick attempts now hosts) x =
        tick-StaysExited s s.loop attempts now hosts x x
    step-StaysExited s stop x = stop-StaysExited s s.loop x
    step-StaysExited s (proceed i) x = task-StaysExited s i (get_elem? s.tasks i) refl x

    run-StaysExited :
        (s : State C S) (es : List (Event S))
        → s.loop ≡ exited
        → StaysExited s (run k nodes r c pods s es)
    unfolding run
    run-StaysExited s [] x = (x, refl)
    run-StaysExited s (e ∷ es) x =
        let (still, same) = step-StaysExited s e x in
        let (kept, later) = run-StaysExited (step k nodes r c pods s e) es still in
        (kept, later ∙ same)

    -- When Run has ended, early because a client could not be made or by k.stopCh, the loop starts
    -- no further goroutine, whatever happens, and the reader gets no further than sixteen
    -- cleanings beyond those that the loop has taken; the rest is never recorded either.
    pub exited_reader_stops :
        (all : List C) (sync : Sync.State S) (es fs : List (Event S))
        → (run k nodes r c pods (start all sync) es).loop ≡ exited
        → let s = run k nodes r c pods (start all sync) es in
          let t = run k nodes r c pods s fs in
          (map cleaning_of t.tasks ≡ map cleaning_of s.tasks)
          × (length t.recorded ≤ length s.tasks + 16)
    exited_reader_stops all sync es fs x =
        let s = run k nodes r c pods (start all sync) es in
        let t = run k nodes r c pods s fs in
        let (_, same) = run-StaysExited s fs x in
        let flow : IsConserved all t =
          run-IsConserved all k nodes r c pods s fs
            (run_from_start-IsConserved all k nodes r c pods sync es) in
        (
          same,
          omega (
            arith,
            flow.fits,
            ap length (flow.counted ∙ sym flow.in_order),
            length-append t.recorded (to_record t.reader),
            length-append (map cleaning_of t.tasks) (t.cleaning_ch ++ to_send t.reader),
            length-append t.cleaning_ch (to_send t.reader),
            ap length same,
            length-map s.tasks,
            sent-le-recorded t.reader,
          ),
        )
