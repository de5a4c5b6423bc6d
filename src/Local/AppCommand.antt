-- ===== src/Local/AppCommand.antt =====
-- pkg/rockrobo/rockrobo.go: AppCommand with retrieveAppProxy and retrieve, as steps between those
-- of the local connections and of other calls. r.rand.Int() is a parameter of the call.
pub mod Answered
mod Tests
use rocklet.Base.{ℕ, List, [], ◌∷◌, ◌++◌, Option, none, some, Bool, ◌==◌, if◌then◌else◌}
use rocklet.Base.Int.{pos}
use rocklet.Protocol.{Method}
use rocklet.Local.Queues.{
  Queues, Call, register, unregister, Action, signal_ready, ignore, drop, deliver, on_message,
}
use rocklet.Local.Queues.Routing.{Step}
use rocklet.Local.Queues.Routing

pub data Error : Type 0 where
  no_callback : Error

-- Where retrieve stands: it writes to outgoingQueueAppProxy, it reads its channel, or it is over.
pub data Phase : Type 0 where
  sending : Phase
  waiting : Phase
  returned : Option Error → Phase

-- The table of channels, what a connection has taken from outgoingQueueAppProxy, and the messages
-- whose goroutines write to the channel of the call.
pub record State : Type 0 where
  pub incoming_queues : Queues
  pub phase : Phase
  pub sent : List Method
  pub delivering : List Method

pub data Event : Type 0 where
  take : Event  -- a connection takes the request
  received : Bool → Method → Event  -- a connection reads a message, with its readySent
  get : Event  -- the call reads its channel
  other : Step → Event  -- another call of retrieve begins or ends

-- The call of retrieve that AppCommand makes with a random number.
abbrev pub app_call : List ℕ → List ℕ → ℕ → ℕ → Call
app_call command args random channel = record {
  request = record {
    method = command;
    params = args;
    result = [];
    id = pos random;
    partner_id = [];
  };
  response = [];
  channel = channel;
}

abbrev started : Queues → Option Queues → State
started q none = record {
  incoming_queues = q;
  phase = returned (some no_callback);
  sent = [];
  delivering = [];
}
started q (some r) = record { incoming_queues = r; phase = sending; sent = []; delivering = [] }

-- AppCommand up to the write.
unfoldable pub app_command : Queues → Call → State
app_command q c = started q (register q c)

module _ (c : Call) where
  abbrev pub on_take : State → Phase → State
  on_take s sending = record s { phase = waiting; sent = s.sent ++ c.request ∷ [] }
  on_take s waiting = s
  on_take s (returned e) = s

  abbrev pub on_action : State → Action → State
  on_action s signal_ready = s
  on_action s ignore = s
  on_action s drop = s
  on_action s (deliver channel m) =
      if channel == c.channel then record s { delivering = s.delivering ++ m ∷ [] } else s

  -- The answer is not looked at; the deferred functions run.
  abbrev pub on_get : State → Phase → List Method → State
  on_get s waiting (m ∷ ms) = record s {
    incoming_queues = unregister s.incoming_queues c;
    phase = returned none;
    delivering = ms;
  }
  on_get s waiting [] = s
  on_get s sending ms = s
  on_get s (returned e) ms = s

  unfoldable pub step : State → Event → State
  step s take = on_take s s.phase
  step s (received ready_sent m) = on_action s (on_message s.incoming_queues ready_sent m).1
  step s get = on_get s s.phase s.delivering
  step s (other e) = record s { incoming_queues = Routing.step s.incoming_queues e }

  unfoldable pub run : State → List Event → State
  unfolding step
  run s [] = s
  run s (e ∷ es) = run (step s e) es
