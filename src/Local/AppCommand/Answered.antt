-- ===== src/Local/AppCommand/Answered.antt =====
-- AppCommand of pkg/rockrobo/rockrobo.go: the answer.
use rocklet.Base.{
  ==_self, List, [], ◌∷◌, ◌++◌, none, some, Bool, true, false, ◌||◌, ◌&&◌, not, ◌≡◌, ◌≢◌, ◌⊎◌, inl,
  inr, bytes_eq, if◌then◌else◌, ◌==◌, refl, sym, ap, ◌∙◌, arith, Bool-cases,
}
use mathlib.Core.Path.{subst}
use rocklet.Base.Assoc.{lookup, insert, string_eq}
use rocklet.Base.Int.{int_eq, int_eq_iff}
use rocklet.Protocol.{Method, method_hello}
use rocklet.Local.Queues.{
  Queues, Call, id_key, has_id, has_name, register, route, Action, signal_ready, ignore, drop,
  deliver, on_message,
}
use rocklet.Local.Queues.Routing
use rocklet.Local.Queues.Routing.{
  Step, call_of, lookup-step, lookup-register, owns, owns_other_id, owns_own_id,
}
use rocklet.Local.AppCommand.{
  Phase, sending, waiting, returned, State, Event, take, received, get, other, app_command, on_take,
  on_action, on_get, step, run,
}

-- Another call has another id and does not name the text of this one as its response.
abbrev pub LeavesId : Call → Event → Type 0
LeavesId c take = Unit
LeavesId c (received ready_sent m) = Unit
LeavesId c get = Unit
LeavesId c (other e) =
    ((call_of e).request.id ≢ c.request.id) × ((call_of e).response ≢ id_key c.request.id)

abbrev pub AllLeaveId : Call → List Event → Type 0
AllLeaveId c [] = Unit
AllLeaveId c (e ∷ es) = LeavesId c e × AllLeaveId c es

-- The request is taken.
abbrev pub is_take : Event → Bool
is_take take = true
is_take (received ready_sent m) = false
is_take get = false
is_take (other e) = false

abbrev pub is_answer_to : Call → Method → Bool
is_answer_to c m = int_eq m.id c.request.id && not (bytes_eq m.method method_hello)

-- A message with the id of the request is read.
abbrev pub is_answer : Call → Event → Bool
is_answer c take = false
is_answer c (received ready_sent m) = is_answer_to c m
is_answer c get = false
is_answer c (other e) = false

unfoldable pub taken : List Event → Bool
taken [] = false
taken (e ∷ es) = is_take e || taken es

unfoldable pub answered : Call → List Event → Bool
answered c [] = false
answered c (e ∷ es) = is_answer c e || answered c es

or_shuffle : (x y z : Bool) → y || (x || z) ≡ (x || y) || z
or_shuffle true true z = refl
or_shuffle true false z = refl
or_shuffle false y z = refl

abbrev Filled : Bool → List Method → Type 0
Filled true [] = ⊥
Filled true (m ∷ ms) = Unit
Filled false ms = Unit

Filled-append : (b : Bool) (ms : List Method) (m : Method) → Filled b (ms ++ m ∷ [])
Filled-append true [] m = tt
Filled-append true (x ∷ ms) m = tt
Filled-append false ms m = tt

module _ (c : Call) where
  abbrev Registered : Queues → Type 0
  Registered q = lookup (id_key c.request.id) q ≡ some c.channel

  -- The call is over without an error, or it is registered and stands where the events so far have
  -- brought it.
  abbrev RunsAt : Bool → Bool → Phase → Queues → List Method → Type 0
  RunsAt t a sending q ms = (t ≡ false) × Registered q × Filled a ms
  RunsAt t a waiting q ms = (t ≡ true) × Registered q × Filled a ms
  RunsAt t a (returned none) q ms = Unit
  RunsAt t a (returned (some e)) q ms = ⊥

  abbrev Runs : Bool → Bool → State → Type 0
  Runs t a s = RunsAt t a s.phase s.incoming_queues s.delivering

  stays :
      (t a b : Bool) (p : Phase) (q q' : Queues) (ms ms' : List Method)
      → RunsAt t a p q ms
      → (Registered q → Registered q')
      → (Filled a ms → Filled b ms')
      → RunsAt t b p q' ms'
  stays t a b sending q q' ms ms' (x, found, filled) f g = (x, f found, g filled)
  stays t a b waiting q q' ms ms' (x, found, filled) f g = (x, f found, g filled)
  stays t a b (returned none) q q' ms ms' h f g = tt
  stays t a b (returned (some e)) q q' ms ms' h f g = h

  take-Runs :
      (t a : Bool) (s : State) (p : Phase) → s.phase ≡ p → Runs t a s → Runs true a (on_take c s p)
  take-Runs t a s sending e h =
      let (_, found, filled) = subst (λ p. RunsAt t a p s.incoming_queues s.delivering) e h in
      (refl, found, filled)
  take-Runs t a s waiting e h =
      let (_, found, filled) = subst (λ p. RunsAt t a p s.incoming_queues s.delivering) e h in
      subst (λ p. RunsAt true a p s.incoming_queues s.delivering) (sym e) (refl, found, filled)
  take-Runs t a s (returned none) e h =
      subst (λ p. RunsAt true a p s.incoming_queues s.delivering) (sym e) tt
  take-Runs t a s (returned (some x)) e h =
      absurd (subst (λ p. RunsAt t a p s.incoming_queues s.delivering) e h)

  get-Runs :
      (t a : Bool) (s : State) (p : Phase) (ms : List Method)
      → Runs t a s
      → Runs t a (on_get c s p ms)
  get-Runs t a s waiting (m ∷ ms) h = tt
  get-Runs t a s waiting [] h = h
  get-Runs t a s sending ms h = h
  get-Runs t a s (returned e) ms h = h

  any_action-Runs : (t a : Bool) (s : State) (x : Action) → Runs t a s → Runs t a (on_action c s x)
  any_action-Runs t a s signal_ready h = h
  any_action-Runs t a s ignore h = h
  any_action-Runs t a s drop h = h
  any_action-Runs t a s (deliver channel m) h = elim (Bool-cases (channel == c.channel)) [
    | inl own ↦ rw own (
        stays t a a s.phase s.incoming_queues s.incoming_queues s.delivering
          (s.delivering ++ m ∷ []) h (λ x. x) (λ x. Filled-append a s.delivering m))
    | inr not_own ↦ rw not_own h
  ]

  answer-Runs :
      (t a b : Bool) (s : State) (m : Method)
      → Runs t a s
      → Runs t b (on_action c s (deliver c.channel m))
  answer-Runs t a b s m h = rw (==_self c.channel) (
      stays t a b s.phase s.incoming_queues s.incoming_queues s.delivering (s.delivering ++ m ∷ [])
        h (λ x. x) (λ x. Filled-append b s.delivering m))

  when_not_over :
      (t a : Bool) (p : Phase) (q : Queues) (ms : List Method)
      → RunsAt t a p q ms
      → Registered q ⊎ (p ≡ returned none)
  when_not_over t a sending q ms (_, found, _) = inl found
  when_not_over t a waiting q ms (_, found, _) = inl found
  when_not_over t a (returned none) q ms h = inr refl
  when_not_over t a (returned (some e)) q ms h = absurd h

  over-Runs : (t a : Bool) (s : State) → s.phase ≡ returned none → Runs t a s
  over-Runs t a s over = subst (λ p. RunsAt t a p s.incoming_queues s.delivering) (sym over) tt

  on_action-phase : (s : State) (x : Action) → (on_action c s x).phase ≡ s.phase
  on_action-phase s signal_ready = refl
  on_action-phase s ignore = refl
  on_action-phase s drop = refl
  on_action-phase s (deliver channel m) = elim (Bool-cases (channel == c.channel)) [
    | inl own ↦ rw own refl
    | inr not_own ↦ rw not_own refl
  ]

  answer_parts :
      (m : Method)
      → is_answer_to c m ≡ true
      → (m.id ≡ c.request.id) × (bytes_eq m.method method_hello ≡ false)
  answer_parts m answer = ground (arith, answer, int_eq_iff m.id c.request.id)

  answer_delivered :
      (q : Queues) (ready_sent : Bool) (m : Method)
      → has_id c.request ≡ true
      → is_answer_to c m ≡ true
      → Registered q
      → (on_message q ready_sent m).1 ≡ deliver c.channel m
  unfolding on_message route
  answer_delivered q ready_sent m has answer found =
      let (same, not_hello) = answer_parts m answer in rw (not_hello, same, has, found) refl

  -- What an event is to the call; the answers are told by `is_answer`.
  step-Runs :
      (t a : Bool) (s : State) (e : Event)
      → has_id c.request ≡ true
      → LeavesId c e
      → Runs t a s
      → Runs (is_take e || t) (is_answer c e || a) (step c s e)
  unfolding step
  step-Runs t a s take has leaves h = take-Runs t a s s.phase refl h
  step-Runs t a s get has leaves h = get-Runs t a s s.phase s.delivering h
  step-Runs t a s (other e) has leaves h =
      stays t a a s.phase s.incoming_queues (Routing.step s.incoming_queues e) s.delivering
        s.delivering h
        (λ found.
          lookup-step s.incoming_queues e (id_key c.request.id)
            (owns_other_id (call_of e) c.request.id leaves.0 leaves.1)
          ∙ found)
        (λ x. x)
  step-Runs t a s (received ready_sent m) has leaves h = elim (Bool-cases (is_answer_to c m)) [
    | inl answer ↦ rw answer (elim (when_not_over t a s.phase s.incoming_queues s.delivering h) [
      | inl found ↦
          subst (λ x. Runs t true (on_action c s x))
            (sym (answer_delivered s.incoming_queues ready_sent m has answer found))
            (answer-Runs t a true s m h)
      | inr over ↦
          let x = (on_message s.incoming_queues ready_sent m).1 in
          over-Runs t true (on_action c s x) (on_action-phase s x ∙ over)
    ])
    | inr not_answer ↦
        rw not_answer (any_action-Runs t a s (on_message s.incoming_queues ready_sent m).1 h)
  ]

  run-Runs :
      (es : List Event) (t a : Bool) (s : State)
      → has_id c.request ≡ true
      → AllLeaveId c es
      → Runs t a s
      → Runs (taken es || t) (answered c es || a) (run c s es)
  unfolding run taken answered
  run-Runs [] t a s has leaves h = h
  run-Runs (e ∷ es) t a s has (now, later) h =
      subst (λ x. Runs x ((is_answer c e || answered c es) || a) (run c (step c s e) es))
        (or_shuffle (is_take e) (taken es) t)
        (subst (λ x. Runs (taken es || (is_take e || t)) x (run c (step c s e) es))
          (or_shuffle (is_answer c e) (answered c es) a)
          (run-Runs es (is_take e || t) (is_answer c e || a) (step c s e) has later
            (step-Runs t a s e has now h)))

  register_with_id : (q : Queues) → has_id c.request ≡ true → (r : Queues) × (register q c ≡ some r)
  unfolding register
  register_with_id q has = (
    let own = insert (id_key c.request.id) c.channel q in
        if has_name c.response then insert c.response c.channel own else own,
    ground arith,
  )

  started-Runs : (q : Queues) → has_id c.request ≡ true → Runs false false (app_command q c)
  unfolding app_command
  started-Runs q has =
      let (r, reg) = register_with_id q has in
      rw reg
        (refl, (lookup-register q r c (id_key c.request.id) reg ∙ rw (owns_own_id c has) refl), tt)

  last_get :
      (s : State) (p : Phase)
      → s.phase ≡ p
      → RunsAt true true p s.incoming_queues s.delivering
      → (on_get c s p s.delivering).phase ≡ returned none
  last_get s sending e h = absurd cc
  last_get s waiting e (_, _, filled) = by_list s.delivering filled
    where
      by_list : (ms : List Method) → Filled true ms → (on_get c s waiting ms).phase ≡ returned none
      by_list [] none_there = absurd none_there
      by_list (m ∷ ms) there = refl
  last_get s (returned none) e h = e
  last_get s (returned (some x)) e h = absurd h

  get_over :
      (t a : Bool) (s : State)
      → t ≡ true
      → a ≡ true
      → Runs t a s
      → (step c s get).phase ≡ returned none
  unfolding step
  get_over t a s is_taken is_answered h = last_get s s.phase refl (
      subst (λ x. RunsAt x true s.phase s.incoming_queues s.delivering) is_taken
        (subst (λ x. RunsAt t x s.phase s.incoming_queues s.delivering) is_answered h))

  run-append_get :
      (es : List Event) (s : State) → run c s (es ++ get ∷ []) ≡ step c (run c s es) get
  unfolding run
  run-append_get [] s = refl
  run-append_get (e ∷ es) s = run-append_get es (step c s e)

  -- If the random number is not 0, then once a connection has taken the request and a connection
  -- has read a message with its id that is no hello, AppCommand returns without an error the next
  -- time it reads its channel, whatever the message says. This holds in whatever order these come,
  -- with other messages and other calls of retrieve between them, if these calls have other ids
  -- and do not name the text `id=…` of this one as their response.
  pub app_command-returns :
      (q : Queues) (es : List Event)
      → has_id c.request ≡ true
      → AllLeaveId c es
      → taken es ≡ true
      → answered c es ≡ true
      → (run c (app_command q c) (es ++ get ∷ [])).phase ≡ returned none
  app_command-returns q es has leaves is_taken is_answered =
      ap (λ s. s.phase) (run-append_get es (app_command q c))
      ∙ get_over (taken es || false) (answered c es || false) (run c (app_command q c) es)
          (rw is_taken refl) (rw is_answered refl)
          (run-Runs es false false (app_command q c) has leaves (started-Runs q has))
