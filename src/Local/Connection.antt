-- ===== src/Local/Connection.antt =====
-- pkg/rockrobo/local_connection.go, localConnection.handle: the goroutine that reads a connection
-- and the goroutine that writes to it. An event is one step of one of them; where a select has
-- several ways to go on, the event chooses.
pub mod Ready
use rocklet.Base.{ℕ, suc, ◌+◌, List, [], ◌∷◌, ◌++◌, Bool, true, false, ltb, if◌then◌else◌}
use rocklet.Protocol.{Method}
use rocklet.Local.Queues.{Queues, Action, signal_ready, ignore, drop, deliver, on_message}

-- What the writing goroutine is at: the first select, the loop on one of the two queues, or ended.
pub data Writer : Type 0 where
  waiting : Writer
  internal : Writer
  app_proxy : Writer
  ended : Writer

pub record Connection : Type 0 where
  pub ready_sent : Bool
  pub ready_closes : ℕ  -- how often readyCh was closed
  pub closed : Bool  -- closeCh
  pub writer : Writer
  pub delivered : List (ℕ × Method)
  pub sent : List Method

abbrev pub new : Connection
new = record {
  ready_sent = false;
  ready_closes = 0;
  closed = false;
  writer = waiting;
  delivered = [];
  sent = [];
}

pub data Event : Type 0 where
  received : Queues → Method → Event  -- the decoder returns a message; the table at this moment
  input_ended : Event  -- the decoder returns io.EOF or an error
  see_ready : Event  -- the first select: readyCh is closed
  see_second : Event  -- the first select: one second has passed
  see_closed : Event  -- either select: closeCh is closed
  take_internal : Method → Event  -- a message from outgoingQueueInternal
  take_app_proxy : Method → Event  -- a message from outgoingQueueAppProxy

perform : Connection → Action → Connection
perform c signal_ready = record c { ready_closes = c.ready_closes + 1 }
perform c ignore = c
perform c drop = c
perform c (deliver ch m) = record c { delivered = c.delivered ++ (ch, m) ∷ [] }

read_message : Connection → Queues → Method → Connection
unfolding perform on_message
read_message c q m =
    let (ready_sent, action) = on_message q c.ready_sent m in
    perform (record c { ready_sent = ready_sent }) action

-- The writing goroutine; an event that its select does not offer changes nothing.
write_event : Writer → Event → Connection → Connection
write_event waiting see_ready c = if ltb 0 c.ready_closes then record c { writer = internal } else c
write_event waiting see_second c = record c { writer = app_proxy }
write_event waiting see_closed c = if c.closed then record c { writer = ended } else c
write_event internal (take_internal m) c = record c { sent = c.sent ++ m ∷ [] }
write_event internal see_closed c = if c.closed then record c { writer = ended } else c
write_event app_proxy (take_app_proxy m) c = record c { sent = c.sent ++ m ∷ [] }
write_event app_proxy see_closed c = if c.closed then record c { writer = ended } else c
write_event w e c = c

-- After the input has ended the reading goroutine is gone.
unfoldable pub step : Connection → Event → Connection
unfolding read_message write_event
step c (received q m) = if c.closed then c else read_message c q m
step c input_ended = record c { closed = true }
step c see_ready = write_event c.writer see_ready c
step c see_second = write_event c.writer see_second c
step c see_closed = write_event c.writer see_closed c
step c (take_internal m) = write_event c.writer (take_internal m) c
step c (take_app_proxy m) = write_event c.writer (take_app_proxy m) c

unfoldable pub run : Connection → List Event → Connection
run c [] = c
run c (e ∷ es) = run (step c e) es
