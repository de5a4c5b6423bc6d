-- ===== src/Ui.antt =====
-- cmd/ui.go: the terminal of the remote control. A float64 is a value of the parameter `F` with
-- the arithmetic `Floats`. The handlers of the keys run one after the other; the goroutine of
-- tickerRC is interleaved with them, its test of remoteControl and its call being two steps. A
-- call is the RPC call of Local/Commands, and its answer is part of the event.
pub mod Limits
pub mod Race
mod Tests
use rocklet.Base.{ℕ, zero, suc, ◌+◌, List, [], ◌∷◌, ◌++◌, Bool, true, false, if◌then◌else◌, ◌≡◌}
use rocklet.Base.Int.{ℤ, pos}
use rocklet.Local.Commands.{
  Call, app_rc_move, app_rc_start, app_rc_end, app_start, app_stop, app_pause, app_spot, app_charge,
}

pub record Floats (F : Type 0) : Type 0 where
  pub zero : F
  pub plus : F → F → F
  pub minus : F → F → F
  pub less : F → F → Bool

-- What holds of float64, a NaN included: nothing is below itself, and adding or subtracting a step
-- that is not negative moves a value to one side.
pub record IsFloats {F : Type 0} (fl : Floats F) : Type 0 where
  pub less_self : (a : F) → fl.less a a ≡ false
  pub less-plus :
      (a b step : F)
      → fl.less step fl.zero ≡ false
      → fl.less a b ≡ false
      → fl.less (fl.plus a step) b ≡ false
  pub less-minus :
      (a b step : F)
      → fl.less step fl.zero ≡ false
      → fl.less a b ≡ false
      → fl.less a (fl.minus b step) ≡ false

-- steeringAxis; stepReduce is not used, and Reduce returns its receiver.
pub record SteeringAxis (F : Type 0) : Type 0 where
  pub value : F
  pub max : F
  pub min : F
  pub start : F
  pub step : F

-- A key of the keyboard that has a handler.
pub data Key : Type 0 where
  q : Key
  s : Key
  a : Key
  d : Key
  x : Key
  c : Key
  v : Key
  b : Key
  n : Key
  left : Key
  right : Key
  down : Key
  up : Key

-- The goroutine of tickerRC: waiting for a tick, or past its test of remoteControl.
pub data Ticker : Type 0 where
  idle : Ticker
  checked : Ticker

-- The command: in termui.Loop, returned, or ended by logger.Fatal, which runs no deferred
-- function.
pub data Phase : Type 0 where
  looping : Phase
  returned : Phase
  killed : Phase

pub record State (F : Type 0) : Type 0 where
  pub direction_value : SteeringAxis F
  pub speed_value : SteeringAxis F
  pub remote_control : Bool
  pub ticker : Ticker
  pub phase : Phase
  -- the RPC calls so far
  pub calls : List (Call F)

-- A step, with whether the RPC call that it makes, if any, succeeds.
pub data Event : Type 0 where
  key : Key → Bool → Event
  tick : Event  -- a tick arrives, and remoteControl is read
  move : Event  -- the goroutine of tickerRC makes its call

module _ {F : Type 0} (fl : Floats F) where
  -- Add and Sub as one step each; the goroutine of tickerRC takes no lock and may read the value
  -- before it is clamped.
  unfoldable pub add : SteeringAxis F → SteeringAxis F
  add axis =
      let value = fl.plus axis.value axis.step in
      record axis { value = if fl.less axis.max value then axis.max else value }

  unfoldable pub sub : SteeringAxis F → SteeringAxis F
  sub axis =
      let value = fl.minus axis.value axis.step in
      record axis { value = if fl.less value axis.min then axis.min else value }

  abbrev pub reset : SteeringAxis F → SteeringAxis F
  reset axis = record axis { value = axis.start }

  -- rpcProxy: a failure is fatal.
  abbrev pub proxy : State F → Call F → Bool → State F
  proxy st call true = record st { calls = st.calls ++ call ∷ [] }
  proxy st call false = record st { calls = st.calls ++ call ∷ []; phase = killed }

  abbrev pub rc_start : State F → Bool → State F
  rc_start st true = record st { calls = st.calls ++ app_rc_start ∷ []; remote_control = true }
  rc_start st false = proxy st app_rc_start false

  abbrev pub rc_end : State F → Bool → State F
  rc_end st true = record st { calls = st.calls ++ app_rc_end ∷ []; remote_control = false }
  rc_end st false = proxy st app_rc_end false

  -- Loop returns, and the deferred function stops the remote control; its failure is logged.
  abbrev pub leave : State F → State F
  leave st = record st {
    calls = if st.remote_control then st.calls ++ app_rc_end ∷ [] else st.calls;
    phase = returned;
  }

  unfoldable pub on_key : State F → Key → Bool → State F
  unfolding add sub
  on_key st q succeeds = leave st
  on_key st s succeeds = record st {
    direction_value = reset st.direction_value;
    speed_value = reset st.speed_value;
  }
  on_key st a succeeds = rc_start st succeeds
  on_key st d succeeds = rc_end st succeeds
  on_key st x succeeds = proxy st app_spot succeeds
  on_key st c succeeds = proxy st app_charge succeeds
  on_key st v succeeds = proxy st app_start succeeds
  on_key st b succeeds = proxy st app_pause succeeds
  on_key st n succeeds = proxy st app_stop succeeds
  on_key st left succeeds = record st { direction_value = add st.direction_value }
  on_key st right succeeds = record st { direction_value = sub st.direction_value }
  on_key st down succeeds = record st { speed_value = sub st.speed_value }
  on_key st up succeeds = record st { speed_value = add st.speed_value }

  abbrev pub on_tick : State F → Ticker → State F
  on_tick st idle = if st.remote_control then record st { ticker = checked } else st
  on_tick st checked = st

  -- Duration is 500; the error of the call is logged.
  abbrev pub on_move : State F → Ticker → State F
  on_move st checked = record st {
    ticker = idle;
    calls = st.calls ++ app_rc_move st.speed_value.value st.direction_value.value (pos 500) ∷ [];
  }
  on_move st idle = st

  -- The handlers and the ticker end with the loop; a goroutine that is past its test may still
  -- call.
  abbrev pub while_looping : Phase → State F → State F → State F
  while_looping looping st next = next
  while_looping _ st next = st

  abbrev pub unless_killed : Phase → State F → State F → State F
  unless_killed killed st next = st
  unless_killed _ st next = next

  unfoldable pub step : State F → Event → State F
  unfolding on_key
  step st (key k succeeds) = while_looping st.phase st (on_key st k succeeds)
  step st tick = while_looping st.phase st (on_tick st st.ticker)
  step st move = unless_killed st.phase st (on_move st st.ticker)

  unfoldable pub run : State F → List Event → State F
  unfolding step
  run st [] = st
  run st (e ∷ es) = run (step st e) es

  abbrev pub new : SteeringAxis F → SteeringAxis F → State F
  new direction speed = record {
    direction_value = direction;
    speed_value = speed;
    remote_control = false;
    ticker = idle;
    phase = looping;
    calls = [];
  }

-- The connection to the RPC server: `answer n` is whether the dial after n failures succeeds, and
-- `more` how often it is tried again.
pub data Dialed : Type 0 where
  connected : ℕ → Dialed
  gave_up : ℕ → Dialed

unfoldable pub dial : (ℕ → Bool) → ℕ → ℕ → Dialed
dial answer tries zero = if answer tries then connected tries else gave_up tries
dial answer tries (suc more) =
    let rest = dial answer (tries + 1) more in if answer tries then connected tries else rest
