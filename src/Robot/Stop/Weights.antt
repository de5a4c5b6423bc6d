-- ===== src/Robot/Stop/Weights.antt =====
-- The end of the program in pkg/rockrobo/rockrobo.go: what a goroutine counts for in the wait
-- group.
use rocklet.Base.{
  ℕ, zero, suc, ◌+◌, ◌≡◌, List, [], ◌∷◌, ◌++◌, some, Bool, true, false, ◌&&◌, not, if◌then◌else◌,
  get_elem?, refl, sym, arith,
}
use rocklet.Robot.Stop.{Progress, ended, Goroutine, counted, set_progress, is_ended}

-- A goroutine with a Done before it.
abbrev pub weight : Goroutine → ℕ
weight g = if counted g.task && not (is_ended g.progress) then 1 else 0

abbrev pub live : List Goroutine → ℕ
live [] = 0
live (g ∷ gs) = weight g + live gs

pub live-append : (gs : List Goroutine) (g : Goroutine) → live (gs ++ g ∷ []) ≡ live gs + weight g
live-append [] g = omega arith
live-append (h ∷ gs) g = omega (arith, live-append gs g)

pub live-set_progress :
    (gs : List Goroutine) (i : ℕ) (p : Progress) (g : Goroutine)
    → get_elem? gs i ≡ some g
    → live (set_progress gs i p) + weight g ≡ live gs + weight (record g { progress = p })
live-set_progress [] i p g e = ground (arith, e)
live-set_progress (h ∷ gs) zero p g e = let first : h ≡ g = cc e in rw (sym first) (omega arith)
live-set_progress (h ∷ gs) (suc i) p g e = omega (arith, live-set_progress gs i p g e)

ended_weight : (b : Bool) → ◌≡◌ {A = ℕ} (if b && false then 1 else 0) 0
ended_weight true = refl
ended_weight false = refl

-- A goroutine that ends takes its own weight with it.
pub live-ended :
    (gs : List Goroutine) (i : ℕ) (g : Goroutine)
    → get_elem? gs i ≡ some g
    → live (set_progress gs i ended) + weight g ≡ live gs
live-ended gs i g e = omega (arith, live-set_progress gs i ended g e, ended_weight (counted g.task))

pub counted_weight :
    (g : Goroutine) → counted g.task ≡ true → is_ended g.progress ≡ false → weight g ≡ 1
counted_weight g c not_yet = rw (c, not_yet) refl

pub free_weight :
    (g : Goroutine) (p : Progress) → counted g.task ≡ false → weight (record g { progress = p }) ≡ 0
free_weight g p c = rw c refl

-- A goroutine keeps its weight until it ends.
pub same_weight :
    (g : Goroutine) (p : Progress)
    → is_ended g.progress ≡ false
    → is_ended p ≡ false
    → weight (record g { progress = p }) ≡ weight g
same_weight g p e f = rw (e, f) refl
