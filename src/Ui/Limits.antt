-- ===== src/Ui/Limits.antt =====
-- cmd/ui.go, steeringAxis: the values that are sent to the robot.
use rocklet.Base.{List, [], ◌∷◌, ◌++◌, Bool, true, false, if◌then◌else◌, ◌≡◌, refl, sym, All}
use mathlib.Core.Path.{subst}
use rocklet.Local.Commands.{
  Call, app_rc_move, app_rc_start, app_rc_end, app_start, app_stop, app_pause, app_spot, app_charge,
}
use rocklet.Ui.{
  Floats, IsFloats, SteeringAxis, Key, q, s, a, d, x, c, v, b, n, left, right, down, up, Ticker,
  idle, checked, Phase, looping, returned, killed, State, Event, key, tick, move, add, sub, reset,
  proxy, on_key, on_tick, on_move, new, while_looping, unless_killed, step, run,
}

module _ {F : Type 0} (fl : Floats F) (laws : IsFloats fl) where
  abbrev pub Within : F → F → F → Type 0
  Within lo hi value = (fl.less hi value ≡ false) × (fl.less value lo ≡ false)

  -- The limits are in order, the step is not negative, and start and value are between the limits.
  pub record IsSteering (axis : SteeringAxis F) : Type 0 where
    pub in_order : fl.less axis.max axis.min ≡ false
    pub forward : fl.less axis.step fl.zero ≡ false
    pub start_within : Within axis.min axis.max axis.start
    pub value_within : Within axis.min axis.max axis.value

  cut_above :
      (lo hi value : F) (t : Bool)
      → fl.less hi value ≡ t
      → fl.less hi lo ≡ false
      → fl.less value lo ≡ false
      → Within lo hi (if t then hi else value)
  cut_above lo hi value true e o h = (laws.less_self hi, o)
  cut_above lo hi value false e o h = (e, h)

  cut_below :
      (lo hi value : F) (t : Bool)
      → fl.less value lo ≡ t
      → fl.less hi lo ≡ false
      → fl.less hi value ≡ false
      → Within lo hi (if t then lo else value)
  cut_below lo hi value true e o h = (o, laws.less_self lo)
  cut_below lo hi value false e o h = (h, e)

  add-IsSteering : (axis : SteeringAxis F) → IsSteering axis → IsSteering (add fl axis)
  unfolding add
  add-IsSteering axis h = record {
    in_order = h.in_order;
    forward = h.forward;
    start_within = h.start_within;
    value_within =
        cut_above axis.min axis.max (fl.plus axis.value axis.step) _ refl h.in_order
          (laws.less-plus axis.value axis.min axis.step h.forward h.value_within.1);
  }

  sub-IsSteering : (axis : SteeringAxis F) → IsSteering axis → IsSteering (sub fl axis)
  unfolding sub
  sub-IsSteering axis h = record {
    in_order = h.in_order;
    forward = h.forward;
    start_within = h.start_within;
    value_within =
        cut_below axis.min axis.max (fl.minus axis.value axis.step) _ refl h.in_order
          (laws.less-minus axis.max axis.value axis.step h.forward h.value_within.0);
  }

  reset-IsSteering : (axis : SteeringAxis F) → IsSteering axis → IsSteering (reset fl axis)
  reset-IsSteering axis h = record {
    in_order = h.in_order;
    forward = h.forward;
    start_within = h.start_within;
    value_within = h.start_within;
  }

  -- An axis that is in order and has its limits from another one.
  pub record Follows (origin axis : SteeringAxis F) : Type 0 where
    pub steering : IsSteering axis
    pub same_min : axis.min ≡ origin.min
    pub same_max : axis.max ≡ origin.max

  Follows-Within :
      (origin axis : SteeringAxis F) → Follows origin axis → Within origin.min origin.max axis.value
  Follows-Within origin axis h =
      subst (λ hi. Within origin.min hi axis.value) h.same_max
        (subst (λ lo. Within lo axis.max axis.value) h.same_min h.steering.value_within)

  All-append_one :
      (P : Call F → Type 0) (cs : List (Call F)) (call : Call F)
      → All P cs
      → P call
      → All P (cs ++ call ∷ [])
  All-append_one P [] call h k = (k, tt)
  All-append_one P (e ∷ cs) call h k = (h.0, All-append_one P cs call h.1 k)

  module _ (direction speed : SteeringAxis F) where
    -- A move has a velocity and an angle between the limits of the two axes.
    abbrev pub MoveWithin : Call F → Type 0
    MoveWithin (app_rc_move velocity omega_speed duration) =
        Within speed.min speed.max velocity × Within direction.min direction.max omega_speed
    MoveWithin _ = Unit

    pub record Steers (st : State F) : Type 0 where
      pub direction_follows : Follows direction st.direction_value
      pub speed_follows : Follows speed st.speed_value
      pub moves : All MoveWithin st.calls

    abbrev adds :
        (axis origin : SteeringAxis F) → Follows origin axis → Follows origin (add fl axis)
    unfolding add
    adds axis origin h = record {
      steering = add-IsSteering axis h.steering;
      same_min = h.same_min;
      same_max = h.same_max;
    }

    abbrev subs :
        (axis origin : SteeringAxis F) → Follows origin axis → Follows origin (sub fl axis)
    unfolding sub
    subs axis origin h = record {
      steering = sub-IsSteering axis h.steering;
      same_min = h.same_min;
      same_max = h.same_max;
    }

    abbrev resets :
        (axis origin : SteeringAxis F) → Follows origin axis → Follows origin (reset fl axis)
    resets axis origin h = record {
      steering = reset-IsSteering axis h.steering;
      same_min = h.same_min;
      same_max = h.same_max;
    }

    -- A step that makes one more call and leaves the axes.
    sends :
        (st next : State F) (call : Call F)
        → next.direction_value ≡ st.direction_value
        → next.speed_value ≡ st.speed_value
        → next.calls ≡ st.calls ++ call ∷ []
        → MoveWithin call
        → Steers st
        → Steers next
    sends st next call e f g m h = record {
      direction_follows = subst (Follows direction) (sym e) h.direction_follows;
      speed_follows = subst (Follows speed) (sym f) h.speed_follows;
      moves = subst (All MoveWithin) (sym g) (All-append_one MoveWithin st.calls call h.moves m);
    }

    proxy-Steers :
        (st : State F) (call : Call F) (ok : Bool)
        → MoveWithin call
        → Steers st
        → Steers (proxy fl st call ok)
    proxy-Steers st call true m h = sends st _ call refl refl refl m h
    proxy-Steers st call false m h = sends st _ call refl refl refl m h

    key-Steers : (st : State F) (k : Key) (ok : Bool) → Steers st → Steers (on_key fl st k ok)
    unfolding on_key
    key-Steers st q ok h = record {
      direction_follows = h.direction_follows;
      speed_follows = h.speed_follows;
      moves =
          elim st.remote_control
            as (λ r. All MoveWithin (if r then st.calls ++ app_rc_end ∷ [] else st.calls)) [
              | true ↦ All-append_one MoveWithin st.calls app_rc_end h.moves tt
              | false ↦ h.moves
            ];
    }
    key-Steers st s ok h = record {
      direction_follows = resets _ direction h.direction_follows;
      speed_follows = resets _ speed h.speed_follows;
      moves = h.moves;
    }
    key-Steers st a true h = sends st _ app_rc_start refl refl refl tt h
    key-Steers st a false h = sends st _ app_rc_start refl refl refl tt h
    key-Steers st d true h = sends st _ app_rc_end refl refl refl tt h
    key-Steers st d false h = sends st _ app_rc_end refl refl refl tt h
    key-Steers st x ok h = proxy-Steers st app_spot ok tt h
    key-Steers st c ok h = proxy-Steers st app_charge ok tt h
    key-Steers st v ok h = proxy-Steers st app_start ok tt h
    key-Steers st b ok h = proxy-Steers st app_pause ok tt h
    key-Steers st n ok h = proxy-Steers st app_stop ok tt h
    key-Steers st left ok h = record {
      direction_follows = adds _ direction h.direction_follows;
      speed_follows = h.speed_follows;
      moves = h.moves;
    }
    key-Steers st right ok h = record {
      direction_follows = subs _ direction h.direction_follows;
      speed_follows = h.speed_follows;
      moves = h.moves;
    }
    key-Steers st down ok h = record {
      direction_follows = h.direction_follows;
      speed_follows = subs _ speed h.speed_follows;
      moves = h.moves;
    }
    key-Steers st up ok h = record {
      direction_follows = h.direction_follows;
      speed_follows = adds _ speed h.speed_follows;
      moves = h.moves;
    }

    looping-Steers :
        (p : Phase) (st next : State F)
        → Steers st
        → Steers next
        → Steers (while_looping fl p st next)
    looping-Steers looping st next h k = k
    looping-Steers returned st next h k = h
    looping-Steers killed st next h k = h

    killed-Steers :
        (p : Phase) (st next : State F)
        → Steers st
        → Steers next
        → Steers (unless_killed fl p st next)
    killed-Steers looping st next h k = k
    killed-Steers returned st next h k = k
    killed-Steers killed st next h k = h

    tick-Steers : (st : State F) (t : Ticker) → Steers st → Steers (on_tick fl st t)
    tick-Steers st idle h =
        elim st.remote_control as (λ r. Steers (if r then record st { ticker = checked } else st)) [
          | true ↦ record {
            direction_follows = h.direction_follows;
            speed_follows = h.speed_follows;
            moves = h.moves;
          }
          | false ↦ h
        ]
    tick-Steers st checked h = h

    move-Steers : (st : State F) (t : Ticker) → Steers st → Steers (on_move fl st t)
    move-Steers st checked h =
        sends st _ _ refl refl refl
          (
            Follows-Within speed st.speed_value h.speed_follows,
            Follows-Within direction st.direction_value h.direction_follows,
          )
          h
    move-Steers st idle h = h

    step-Steers : (st : State F) (e : Event) → Steers st → Steers (step fl st e)
    unfolding step
    step-Steers st (key k ok) h = looping-Steers st.phase st _ h (key-Steers st k ok h)
    step-Steers st tick h = looping-Steers st.phase st _ h (tick-Steers st st.ticker h)
    step-Steers st move h = killed-Steers st.phase st _ h (move-Steers st st.ticker h)

    run-Steers : (st : State F) (es : List Event) → Steers st → Steers (run fl st es)
    unfolding run
    run-Steers st [] h = h
    run-Steers st (e ∷ es) h = run-Steers (step fl st e) es (step-Steers st e h)

  -- Whatever keys are pressed and however the ticker's goroutine runs: each move that is sent to
  -- the robot has a velocity and an angle between the limits of the two axes, if the axes are in
  -- order at the start.
  pub moves_within :
      (direction speed : SteeringAxis F) (es : List Event)
      → IsSteering direction
      → IsSteering speed
      → All (MoveWithin direction speed) (run fl (new fl direction speed) es).calls
  moves_within direction speed es h k =
      (run-Steers direction speed (new fl direction speed) es (record {
        direction_follows = record { steering = h; same_min = refl; same_max = refl };
        speed_follows = record { steering = k; same_min = refl; same_max = refl };
        moves = tt;
      })).moves
