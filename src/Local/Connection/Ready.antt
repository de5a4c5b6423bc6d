-- ===== src/Local/Connection/Ready.antt =====
-- localConnection.handle of pkg/rockrobo/local_connection.go: which queue a connection serves.
use native.Mathlib.Nat.{add_assoc}
use rocklet.Base.{
  ℕ, ◌+◌, ◌≤◌, ◌<◌, ◌≡◌, ◌⊎◌, List, [], ◌∷◌, Bool, true, false, bytes_eq, if◌then◌else◌, arith,
}
use rocklet.Protocol.{method_hello}
use rocklet.Local.Connection.{
  internal, app_proxy, ended, Connection, new, Event, received, input_ended, see_ready, see_second,
  see_closed, take_internal, take_app_proxy, step, run,
}

-- The hello messages that are read before the input ends.
abbrev hello : Event → ℕ
hello (received q m) = if bytes_eq m.method method_hello then 1 else 0
hello _ = 0

abbrev pub hellos : List Event → ℕ
hellos [] = 0
hellos (e ∷ es) = hello e + hellos es

abbrev as_number : Bool → ℕ
as_number true = 1
as_number false = 0

-- readyCh is closed once if a hello was read, and never else; the internal queue is served only
-- then.
record Inv (n : ℕ) (c : Connection) : Type 0 where
  once : c.ready_closes ≡ as_number c.ready_sent
  greeted : c.ready_sent ≡ true → 0 < n
  served : c.writer ≡ internal → c.ready_sent ≡ true

step-Inv : (n : ℕ) (c : Connection) (e : Event) → Inv n c → Inv (n + hello e) (step c e)
unfolding step
step-Inv n c (received q m) h = ground arith
step-Inv n c input_ended h = ground arith
step-Inv n c see_ready h = ground arith
step-Inv n c see_second h = ground arith
step-Inv n c see_closed h = ground arith
step-Inv n c (take_internal m) h = ground arith
step-Inv n c (take_app_proxy m) h = ground arith

run-Inv : (n : ℕ) (c : Connection) (es : List Event) → Inv n c → Inv (n + hellos es) (run c es)
unfolding run
run-Inv n c [] h = record {
  once = h.once;
  greeted = λ r. omega (arith, h.greeted r);
  served = h.served;
}
run-Inv n c (e ∷ es) h =
    rw (← add_assoc n (hello e) (hellos es))
      (run-Inv (n + hello e) (step c e) es (step-Inv n c e h))

Inv-new : Inv 0 new
Inv-new = ground arith

-- Whatever is read and however the goroutines run, readyCh is closed at most once, so its close
-- never panics.
pub ready_closes-le-one : (es : List Event) → (run new es).ready_closes ≤ 1
ready_closes-le-one es = ground (arith, run-Inv 0 new es Inv-new)

-- A connection serves the internal queue only after it has sent a hello message.
pub internal_needs_hello : (es : List Event) → (run new es).writer ≡ internal → 0 < hellos es
internal_needs_hello es h = ground (arith, run-Inv 0 new es Inv-new)

step_role :
    (c : Connection) (e : Event)
    → (c.writer ≡ app_proxy) ⊎ (c.writer ≡ ended)
    → ((step c e).writer ≡ app_proxy) ⊎ ((step c e).writer ≡ ended)
unfolding step
step_role c (received q m) h = ground arith
step_role c input_ended h = ground arith
step_role c see_ready h = ground arith
step_role c see_second h = ground arith
step_role c see_closed h = ground arith
step_role c (take_internal m) h = ground arith
step_role c (take_app_proxy m) h = ground arith

-- A connection that has been taken for the app proxy stays that until it ends, also if it says
-- hello later.
pub app_proxy_for_good :
    (es : List Event) (c : Connection)
    → (c.writer ≡ app_proxy) ⊎ (c.writer ≡ ended)
    → ((run c es).writer ≡ app_proxy) ⊎ ((run c es).writer ≡ ended)
unfolding run
app_proxy_for_good [] c h = h
app_proxy_for_good (e ∷ es) c h = app_proxy_for_good es (step c e) (step_role c e h)
