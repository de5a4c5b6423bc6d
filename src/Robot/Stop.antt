-- ===== src/Robot/Stop.antt =====
-- pkg/rockrobo/rockrobo.go, the start and the end of the program: New, Listen, Run, CloudStart and
-- runSignalHandling, with runRPCServer of pkg/rockrobo/rpc.go, as far as r.stopCh and r.waitGroup
-- go. The goroutines are interleaved: an event is one step of one of them. `<-r.stopCh` is two
-- steps: the field is read, and then the channel that it held, if any, is received from.
pub mod Weights
pub mod Sound
pub mod Ends
pub mod Goroutines
pub mod Unread
pub mod Late
pub mod Early
mod Tests
use rocklet.Base.{
  ℕ, zero, suc, ◌+◌, ◌-◌, List, [], ◌∷◌, ◌++◌, Option, none, some, Bool, true, false, ◌&&◌, ◌||◌,
  not, ◌==◌, if◌then◌else◌, get_elem?,
}

-- The goroutines that wait for r.stopCh or count in r.waitGroup. A closer waits for r.stopCh and
-- then closes a socket; the others end when their socket is closed. The loop of the maps waits on
-- a channel of its own that is never set.
pub data Task : Type 0 where
  cloud_closer : Task
  local_closer : Task
  http_closer : Task
  rpc_closer : Task
  status_loop : Task
  rpc_server : Task
  http_server : Task
  local_handler : Task
  cloud_receiver : Task
  maps_loop : Task

-- At work; in a receive from the channel; in a receive from the nil channel; at its end.
pub data Progress : Type 0 where
  running : Progress
  holding : Progress
  stuck : Progress
  ended : Progress

pub record Goroutine : Type 0 where
  pub task : Task
  pub progress : Progress

-- Where Run is.
pub data Main : Type 0 where
  starting : List Task → Main
  before_stop : Main
  in_stop : Main
  in_nil_stop : Main
  in_wait : Main
  returned : Main
  failed : Main

pub record State : Type 0 where
  -- whether r.stopCh is set, and whether the channel that New has made is closed
  pub stop_ch : Bool
  pub closed : Bool
  -- whether runSignalHandling has closed the channel and has yet to set r.stopCh to nil
  pub clearing : Bool
  pub wait_group : ℕ
  pub goroutines : List Goroutine
  pub main : Main
  -- a close of a closed channel, or a Done below zero
  pub panicked : Bool

pub data Event : Type 0 where
  main_step : Event
  bind_fails : Event  -- a socket cannot be bound, and Run returns the error
  signal : Event  -- SIGINT or SIGTERM: the test and the close
  clear : Event  -- r.stopCh is set to nil
  evaluate : ℕ → Event  -- a goroutine reads r.stopCh
  receive : ℕ → Event  -- and receives from the channel
  tick : ℕ → Event  -- the status loop takes a tick instead
  socket_closed : ℕ → Event  -- a server finds its socket closed

-- Add(1) stands before the go statement, and Done is deferred.
abbrev pub counted : Task → Bool
counted rpc_closer = true
counted rpc_server = true
counted http_server = true
counted local_handler = true
counted cloud_receiver = true
counted _ = false

abbrev pub waits : Task → Bool
waits cloud_closer = true
waits local_closer = true
waits http_closer = true
waits rpc_closer = true
waits status_loop = true
waits _ = false

-- A socket is bound before the go statement of its closer.
abbrev pub binds : Task → Bool
binds status_loop = false
binds t = waits t

pub data Socket : Type 0 where
  cloud_connection : Socket
  local_listener : Socket
  http_listener : Socket
  unix_listener : Socket

-- The socket that a closer closes at its end.
abbrev pub closes : Task → Option Socket
closes cloud_closer = some cloud_connection
closes local_closer = some local_listener
closes http_closer = some http_listener
closes rpc_closer = some unix_listener
closes _ = none

-- The socket whose end is the end of a server.
abbrev pub serves : Task → Option Socket
serves cloud_receiver = some cloud_connection
serves local_handler = some local_listener
serves http_server = some http_listener
serves rpc_server = some unix_listener
serves _ = none

abbrev pub same : Socket → Socket → Bool
same cloud_connection cloud_connection = true
same local_listener local_listener = true
same http_listener http_listener = true
same unix_listener unix_listener = true
same _ _ = false

abbrev pub same_socket : Option Socket → Option Socket → Bool
same_socket (some a) (some b) = same a b
same_socket _ _ = false

-- The go statements of Run and of what it calls, in order.
abbrev pub program : Bool → Bool → List Task
program kubernetes cloud =
    cloud_closer
    ∷ local_closer
    ∷ http_closer
    ∷ ((if kubernetes then status_loop ∷ [] else [])
        ++ (rpc_closer
            ∷ rpc_server
            ∷ http_server
            ∷ maps_loop
            ∷ local_handler
            ∷ (if cloud then cloud_receiver ∷ [] else [])))

-- New, and Run at its start.
abbrev pub start : Bool → Bool → State
start kubernetes cloud = record {
  stop_ch = true;
  closed = false;
  clearing = false;
  wait_group = 0;
  goroutines = [];
  main = starting (program kubernetes cloud);
  panicked = false;
}

abbrev pub set_progress : List Goroutine → ℕ → Progress → List Goroutine
set_progress [] i p = []
set_progress (g ∷ gs) zero p = record g { progress = p } ∷ gs
set_progress (g ∷ gs) (suc i) p = g ∷ set_progress gs i p

abbrev pub moved : State → ℕ → Progress → State
moved s i p = record s { goroutines = set_progress s.goroutines i p }

-- The end of a goroutine, with its Done.
abbrev pub finished : State → ℕ → Task → State
finished s i t =
    if counted t
    then (if s.wait_group == 0 then record s { panicked = true } else record s {
      goroutines = set_progress s.goroutines i ended;
      wait_group = s.wait_group - 1;
    })
    else moved s i ended

abbrev pub is_ended : Progress → Bool
is_ended ended = true
is_ended _ = false

-- Whether the socket of a server is closed.
abbrev pub socket_gone : List Goroutine → Task → Bool
socket_gone [] t = false
socket_gone (g ∷ gs) t =
    same_socket (closes g.task) (serves t) && is_ended g.progress || socket_gone gs t

abbrev pub on_evaluate : State → ℕ → Task → Progress → State
on_evaluate s i t running = if waits t then moved s i (if s.stop_ch then holding else stuck) else s
on_evaluate s i t _ = s

abbrev pub on_receive : State → ℕ → Task → Progress → State
on_receive s i t holding = if s.closed then finished s i t else s
on_receive s i t _ = s

abbrev pub is_status_loop : Task → Bool
is_status_loop status_loop = true
is_status_loop _ = false

-- The next pass of a loop reads r.stopCh again.
abbrev pub next_pass : State → ℕ → Progress → State
next_pass s i holding = moved s i running
next_pass s i stuck = moved s i running
next_pass s i _ = s

abbrev pub on_tick : State → ℕ → Task → Progress → State
on_tick s i t p = if is_status_loop t then next_pass s i p else s

abbrev pub on_socket_closed : State → ℕ → Task → Progress → State
on_socket_closed s i t running = if socket_gone s.goroutines t then finished s i t else s
on_socket_closed s i t _ = s

abbrev pub at_goroutine : (Task → Progress → State) → State → Option Goroutine → State
at_goroutine f s none = s
at_goroutine f s (some g) = f g.task g.progress

-- The next statement of Run.
abbrev pub on_main : State → Main → State
on_main s (starting []) = record s { main = before_stop }
on_main s (starting (t ∷ ts)) = record s {
  wait_group = if counted t then s.wait_group + 1 else s.wait_group;
  goroutines = s.goroutines ++ record { task = t; progress = running } ∷ [];
  main = starting ts;
}
on_main s before_stop = record s { main = if s.stop_ch then in_stop else in_nil_stop }
on_main s in_stop = if s.closed then record s { main = in_wait } else s
on_main s in_wait = if s.wait_group == 0 then record s { main = returned } else s
on_main s _ = s

abbrev pub on_bind_fails : State → Main → State
on_bind_fails s (starting (t ∷ ts)) = if binds t then record s { main = failed } else s
on_bind_fails s _ = s

-- The body of the loop of runSignalHandling up to the close; the next signal is taken after it.
abbrev pub close_channel : State → State
close_channel s =
    if s.closed then record s { panicked = true } else record s { closed = true; clearing = true }

abbrev pub on_signal : State → State
on_signal s = if s.clearing then s else if s.stop_ch then close_channel s else s

-- The rest of the body, r.stopCh = nil.
abbrev pub on_clear : State → State
on_clear s = if s.clearing then record s { stop_ch = false; clearing = false } else s

-- One step. An event of a goroutine that is not there, or not at this point, changes nothing.
unfoldable pub step : State → Event → State
step s main_step = on_main s s.main
step s bind_fails = on_bind_fails s s.main
step s signal = on_signal s
step s clear = on_clear s
step s (evaluate i) = at_goroutine (on_evaluate s i) s (get_elem? s.goroutines i)
step s (receive i) = at_goroutine (on_receive s i) s (get_elem? s.goroutines i)
step s (tick i) = at_goroutine (on_tick s i) s (get_elem? s.goroutines i)
step s (socket_closed i) = at_goroutine (on_socket_closed s i) s (get_elem? s.goroutines i)

unfoldable pub run : State → List Event → State
run s [] = s
run s (e ∷ es) = run (step s e) es
