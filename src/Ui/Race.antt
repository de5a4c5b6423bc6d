-- ===== src/Ui/Race.antt =====
-- cmd/ui.go, the remote control: what has been called when the command is left, and the test of
-- remoteControl that takes no lock.
use rocklet.Base.{List, [], ◌∷◌, ◌++◌, Bool, true, false, if◌then◌else◌, ◌≡◌, refl, sym, ◌∙◌}
use mathlib.Core.Path.{subst}
use rocklet.Base.Int.{pos}
use rocklet.Local.Commands.{
  Call, app_rc_move, app_rc_start, app_rc_end, app_start, app_stop, app_pause, app_spot, app_charge,
}
use rocklet.Ui.{
  Floats, SteeringAxis, Key, q, s, a, d, x, c, v, b, n, left, right, down, up, Ticker, idle,
  checked, Phase, looping, returned, killed, State, Event, key, tick, move, proxy, on_key, on_tick,
  on_move, while_looping, unless_killed, step, run, new,
}

module _ {F : Type 0} where
  abbrev after_call : Bool → Call F → Bool
  after_call on app_rc_start = true
  after_call on app_rc_end = false
  after_call on _ = on

  -- Whether the last start or end of the remote control was a start.
  abbrev pub is_on : Bool → List (Call F) → Bool
  is_on on [] = on
  is_on on (call ∷ cs) = is_on (after_call on call) cs

  is_on-append :
      (cs : List (Call F)) (call : Call F) (on : Bool)
      → is_on on (cs ++ call ∷ []) ≡ after_call (is_on on cs) call
  is_on-append [] call on = refl
  is_on-append (e ∷ cs) call on = is_on-append cs call (after_call on e)

module _ {F : Type 0} (fl : Floats F) where
  -- While the loop runs, remoteControl says what has been called; after it, nothing is left on.
  abbrev Agrees : Phase → List (Call F) → Bool → Type 0
  Agrees looping cs rc = is_on false cs ≡ rc
  Agrees returned cs rc = is_on false cs ≡ false
  Agrees killed cs rc = Unit

  abbrev Consistent : State F → Type 0
  Consistent st = Agrees st.phase st.calls st.remote_control

  in_loop :
      (p : Phase) (cs : List (Call F)) (rc : Bool)
      → p ≡ looping
      → is_on false cs ≡ rc
      → Agrees p cs rc
  in_loop p cs rc e h = subst (λ p. Agrees p cs rc) (sym e) h

  turned_off :
      (cs : List (Call F)) (rc : Bool)
      → is_on false cs ≡ rc
      → is_on false (if rc then cs ++ app_rc_end ∷ [] else cs) ≡ false
  turned_off cs true h = is_on-append cs app_rc_end false
  turned_off cs false h = h

  -- A call that neither starts nor ends the remote control.
  proxy-Consistent :
      (st : State F) (call : Call F) (ok : Bool)
      → st.phase ≡ looping
      → after_call (is_on false st.calls) call ≡ is_on false st.calls
      → is_on false st.calls ≡ st.remote_control
      → Consistent (proxy fl st call ok)
  proxy-Consistent st call true p m h =
      in_loop st.phase _ st.remote_control p (is_on-append st.calls call false ∙ (m ∙ h))
  proxy-Consistent st call false p m h = tt

  key-Consistent :
      (st : State F) (k : Key) (ok : Bool)
      → st.phase ≡ looping
      → is_on false st.calls ≡ st.remote_control
      → Consistent (on_key fl st k ok)
  unfolding on_key
  key-Consistent st q ok p h = turned_off st.calls st.remote_control h
  key-Consistent st s ok p h = in_loop st.phase st.calls st.remote_control p h
  key-Consistent st a true p h =
      in_loop st.phase _ true p (is_on-append st.calls app_rc_start false)
  key-Consistent st a false p h = tt
  key-Consistent st d true p h = in_loop st.phase _ false p (is_on-append st.calls app_rc_end false)
  key-Consistent st d false p h = tt
  key-Consistent st x ok p h = proxy-Consistent st app_spot ok p refl h
  key-Consistent st c ok p h = proxy-Consistent st app_charge ok p refl h
  key-Consistent st v ok p h = proxy-Consistent st app_start ok p refl h
  key-Consistent st b ok p h = proxy-Consistent st app_pause ok p refl h
  key-Consistent st n ok p h = proxy-Consistent st app_stop ok p refl h
  key-Consistent st left ok p h = in_loop st.phase st.calls st.remote_control p h
  key-Consistent st right ok p h = in_loop st.phase st.calls st.remote_control p h
  key-Consistent st down ok p h = in_loop st.phase st.calls st.remote_control p h
  key-Consistent st up ok p h = in_loop st.phase st.calls st.remote_control p h

  looping-Consistent :
      (p : Phase) (st next : State F)
      → st.phase ≡ p
      → Consistent st
      → (st.phase ≡ looping → is_on false st.calls ≡ st.remote_control → Consistent next)
      → Consistent (while_looping fl p st next)
  looping-Consistent looping st next e h k =
      k e (subst (λ p. Agrees p st.calls st.remote_control) e h)
  looping-Consistent returned st next e h k = h
  looping-Consistent killed st next e h k = h

  tick-Consistent : (st : State F) (t : Ticker) → Consistent st → Consistent (on_tick fl st t)
  tick-Consistent st idle h =
      elim st.remote_control
        as (λ r. Consistent (if r then record st { ticker = checked } else st)) [
          | true ↦ h
          | false ↦ h
        ]
  tick-Consistent st checked h = h

  one_more_move :
      (p : Phase) (cs : List (Call F)) (w y : F) (rc : Bool)
      → Agrees p cs rc
      → Agrees p (cs ++ app_rc_move w y (pos 500) ∷ []) rc
  one_more_move looping cs w y rc h = is_on-append cs (app_rc_move w y (pos 500)) false ∙ h
  one_more_move returned cs w y rc h = is_on-append cs (app_rc_move w y (pos 500)) false ∙ h
  one_more_move killed cs w y rc h = tt

  move-Consistent : (st : State F) (t : Ticker) → Consistent st → Consistent (on_move fl st t)
  move-Consistent st checked h =
      one_more_move st.phase st.calls st.speed_value.value st.direction_value.value
        st.remote_control h
  move-Consistent st idle h = h

  killed-Consistent :
      (p : Phase) (st next : State F)
      → Consistent st
      → Consistent next
      → Consistent (unless_killed fl p st next)
  killed-Consistent looping st next h k = k
  killed-Consistent returned st next h k = k
  killed-Consistent killed st next h k = h

  step-Consistent : (st : State F) (e : Event) → Consistent st → Consistent (step fl st e)
  unfolding step
  step-Consistent st (key k ok) h =
      looping-Consistent st.phase st (on_key fl st k ok) refl h (key-Consistent st k ok)
  step-Consistent st tick h =
      looping-Consistent st.phase st (on_tick fl st st.ticker) refl h
        (λ p on. tick-Consistent st st.ticker h)
  step-Consistent st move h =
      killed-Consistent st.phase st (on_move fl st st.ticker) h (move-Consistent st st.ticker h)

  run-Consistent : (st : State F) (es : List Event) → Consistent st → Consistent (run fl st es)
  unfolding run
  run-Consistent st [] h = h
  run-Consistent st (e ∷ es) h = run-Consistent (step fl st e) es (step-Consistent st e h)

  -- When the command is left by its key, the remote control is off: whatever keys were pressed
  -- before, the last call that started or ended it, if any, ended it. A call that fails ends the
  -- command at once, and this does not hold then.
  pub left_turned_off :
      (direction speed : SteeringAxis F) (es : List Event)
      → (run fl (new fl direction speed) es).phase ≡ returned
      → is_on false (run fl (new fl direction speed) es).calls ≡ false
  left_turned_off direction speed es e =
      let st = run fl (new fl direction speed) es in
      subst (λ p. Agrees p st.calls st.remote_control) e
        (run-Consistent (new fl direction speed) es refl)

  -- The goroutine of tickerRC reads remoteControl without its lock: if the remote control is ended
  -- between its test and its call, a move is sent after the end.
  pub move_after_end :
      (st : State F)
      → st.phase ≡ looping
      → st.remote_control ≡ true
      → st.ticker ≡ idle
      → (run fl st (tick ∷ key d true ∷ move ∷ [])).calls
        ≡ (st.calls ++ app_rc_end ∷ [])
          ++ app_rc_move st.speed_value.value st.direction_value.value (pos 500) ∷ []
  unfolding run step on_key
  move_after_end st p r i = rw (p, r, i) refl
