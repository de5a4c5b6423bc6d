-- ===== src/Kubernetes/Run.antt =====
-- pkg/kubernetes/kubernetes.go: the loop of Run, with the goroutines that it starts for
-- ensureCleaning of pkg/kubernetes/cleanings.go, and the goroutine in Run of
-- pkg/rockrobo/rockrobo.go that reads the cleanings, sends them to the loop and records their area
-- and duration. All are interleaved: an event is one step of one of them. `C` is a
-- v1alpha1.Cleaning, `S` what the API server holds.
pub mod Conserved
pub mod Exited
pub mod Posted
mod Tests
use rocklet.Base.{
  ℕ, zero, suc, ◌+◌, ◌<◌, List, [], ◌∷◌, ◌++◌, Option, none, some, Bool, true, false, length,
  get_elem?, ltb, if◌then◌else◌,
}
use rocklet.Kubernetes.Cleanings.{Answer, done, not_found, failed, Client}
use rocklet.Kubernetes.Node.Status.{Config, Host, Nodes}
use rocklet.Kubernetes.FakePods
use rocklet.Kubernetes.Sync
use rocklet.Kubernetes.Sync.{Registry, Attempt, sync_node_status}

-- The reader with the cleanings that it has yet to send, or with one that it has sent and has yet
-- to record.
pub data Reader (C : Type 0) : Type 0 where
  sending : List C → Reader C
  recording : C → List C → Reader C

-- The goroutine of Run: before its loop, in it, in the loop of registerWithAPIServer below it, and
-- after it.
pub data Loop : Type 0 where
  starting : Loop
  looping : Loop
  registering : Loop
  exited : Loop

-- A goroutine of ensureCleaning: before Get, before Create, at its end.
pub data Task (C : Type 0) : Type 0 where
  getting : C → Task C
  creating : C → Task C
  ended : C → Answer → Task C

pub record State (C S : Type 0) : Type 0 where
  pub reader : Reader C
  pub cleaning_ch : List C
  pub loop : Loop
  pub tasks : List (Task C)
  pub sync : Sync.State S
  pub recorded : List C

-- `configured` tells whether the clients could be made. A tick is the ticker's case, with the
-- attempts to register that are made until something else happens; `stop` is that of k.stopCh.
pub data Event (S : Type 0) : Type 0 where
  read : Event S
  configured : Bool → Event S
  receive : Event S
  tick : List (Attempt S) → ℕ → (ℕ → Host) → Event S
  stop : Event S
  proceed : ℕ → Event S

-- The capacity of r.cleaningCh.
abbrev pub capacity : ℕ
capacity = 16

abbrev pub set_elem : {A : Type 0} → List A → ℕ → A → List A
set_elem [] i a = []
set_elem (x ∷ xs) zero a = a ∷ xs
set_elem (x ∷ xs) (suc i) a = x ∷ set_elem xs i a

abbrev pub on_got : {C : Type 0} → C → Answer → Task C
on_got x done = ended x done
on_got x not_found = creating x
on_got x failed = ended x failed

module _ {C S : Type 0} where
  -- The channel has room, or the reader waits.
  abbrev pub on_read : State C S → Reader C → State C S
  on_read s (sending []) = s
  on_read s (sending (c ∷ cs)) =
      if ltb (length s.cleaning_ch) capacity
      then record s { reader = recording c cs; cleaning_ch = s.cleaning_ch ++ c ∷ [] }
      else s
  on_read s (recording c cs) = record s { reader = sending cs; recorded = s.recorded ++ c ∷ [] }

  abbrev pub on_configured : State C S → Loop → Bool → State C S
  on_configured s starting true = record s { loop = looping }
  on_configured s starting false = record s { loop = exited }
  on_configured s _ b = s

  abbrev pub on_receive : State C S → Loop → List C → State C S
  on_receive s looping (c ∷ cs) = record s { cleaning_ch = cs; tasks = s.tasks ++ getting c ∷ [] }
  on_receive s _ ch = s

  abbrev pub on_stop : State C S → Loop → State C S
  on_stop s looping = record s { loop = exited }
  on_stop s _ = s

  abbrev pub synced : State C S → Sync.State S × Bool → State C S
  synced s (t, true) = record s { loop = looping; sync = t }
  synced s (t, false) = record s { loop = registering; sync = t }

  module _ (k : Client C S) (nodes : Nodes S) (r : Registry S) (c : Config)
      (pods : FakePods.Client S) where
    abbrev pub on_tick : State C S → Loop → List (Attempt S) → ℕ → (ℕ → Host) → State C S
    on_tick s looping attempts now hosts =
        synced s (sync_node_status nodes r c pods s.sync attempts now hosts)
    on_tick s registering attempts now hosts =
        synced s (sync_node_status nodes r c pods s.sync attempts now hosts)
    on_tick s _ attempts now hosts = s

    abbrev pub with_server : State C S → S → State C S
    with_server s server = record s { sync = record s.sync { server = server } }

    -- A step of ensureCleaning.
    abbrev pub on_task : State C S → ℕ → Option (Task C) → State C S
    on_task s i none = s
    on_task s i (some (getting x)) = record s {
      tasks = set_elem s.tasks i (on_got x (k.get s.sync.server (k.name x)));
    }
    on_task s i (some (creating x)) =
        let a = k.create s.sync.server x in
        record (with_server s a.0) { tasks = set_elem s.tasks i (ended x a.1) }
    on_task s i (some (ended x a)) = s

    unfoldable pub step : State C S → Event S → State C S
    step s read = on_read s s.reader
    step s (configured b) = on_configured s s.loop b
    step s receive = on_receive s s.loop s.cleaning_ch
    step s (tick attempts now hosts) = on_tick s s.loop attempts now hosts
    step s stop = on_stop s s.loop
    step s (proceed i) = on_task s i (get_elem? s.tasks i)

    unfoldable pub run : State C S → List (Event S) → State C S
    unfolding step
    run s [] = s
    run s (e ∷ es) = run (step s e) es

-- Before the first step, with the cleanings that ListCleanings has returned; none for an error.
abbrev pub start : {C S : Type 0} → List C → Sync.State S → State C S
start cleanings sync = record {
  reader = sending cleanings;
  cleaning_ch = [];
  loop = starting;
  tasks = [];
  sync = sync;
  recorded = [];
}
