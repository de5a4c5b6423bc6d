-- ===== src/Robot/Stop/Goroutines.antt =====
-- The goroutines of pkg/rockrobo/rockrobo.go in their list, and the sockets they serve.
use rocklet.Base.{
  ℕ, zero, suc, ◌≡◌, List, [], ◌∷◌, ◌++◌, Option, ==_ne, none, some, true, false, ◌==◌,
  if◌then◌else◌, get_elem?, refl, arith,
}
use rocklet.Robot.Stop.{
  Task, cloud_closer, local_closer, http_closer, rpc_closer, rpc_server, http_server, local_handler,
  cloud_receiver, maps_loop, Progress, Goroutine, waits, closes, serves, same_socket, Socket,
  set_progress, socket_gone, status_loop,
}

suc_eq : (i j : ℕ) → (suc i == suc j) ≡ (i == j)
suc_eq i j = ground arith

pub get_elem?-set_progress :
    (gs : List Goroutine) (i j : ℕ) (p : Progress) (g : Goroutine)
    → get_elem? gs i ≡ some g
    → get_elem? (set_progress gs j p) i
      ≡ some (record { task = g.task; progress = if i == j then p else g.progress })
get_elem?-set_progress [] i j p g e = ground (arith, e)
get_elem?-set_progress (x ∷ gs) zero zero p g e = let first : x ≡ g = cc e in rw first refl
get_elem?-set_progress (x ∷ gs) zero (suc j) p g e = rw (==_ne 0 (suc j) (λ z. omega (arith, z))) e
get_elem?-set_progress (x ∷ gs) (suc i) zero p g e = rw (==_ne (suc i) 0 (λ z. omega (arith, z))) e
get_elem?-set_progress (x ∷ gs) (suc i) (suc j) p g e =
    rw (suc_eq i j) (get_elem?-set_progress gs i j p g e)

pub get_elem?_left :
    (gs : List Goroutine) (h g : Goroutine) (i : ℕ)
    → get_elem? gs i ≡ some g
    → get_elem? (gs ++ h ∷ []) i ≡ some g
get_elem?_left [] h g i e = ground (arith, e)
get_elem?_left (x ∷ gs) h g zero e = e
get_elem?_left (x ∷ gs) h g (suc i) e = get_elem?_left gs h g i e

-- A goroutine that waits for the channel has no socket that ends it.
serves_nothing : (t : Task) → waits t ≡ true → serves t ≡ none
serves_nothing cloud_closer w = refl
serves_nothing local_closer w = refl
serves_nothing http_closer w = refl
serves_nothing rpc_closer w = refl
serves_nothing status_loop w = refl
serves_nothing rpc_server w = ground (arith, w)
serves_nothing http_server w = ground (arith, w)
serves_nothing local_handler w = ground (arith, w)
serves_nothing cloud_receiver w = ground (arith, w)
serves_nothing maps_loop w = refl

same_socket-none : (o : Option Socket) → same_socket o none ≡ false
same_socket-none none = refl
same_socket-none (some a) = refl

pub socket_gone-waits : (gs : List Goroutine) (t : Task) → waits t ≡ true → socket_gone gs t ≡ false
socket_gone-waits [] t w = refl
socket_gone-waits (g ∷ gs) t w =
    rw (serves_nothing t w, same_socket-none (closes g.task)) (socket_gone-waits gs t w)
