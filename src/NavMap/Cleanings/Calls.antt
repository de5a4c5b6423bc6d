-- ===== src/NavMap/Cleanings/Calls.antt =====
-- ListCleanings of pkg/navmap/robotdb.go: chains of calls that can fail, and the update of one
-- cleaning.
use rocklet.Base.{
  ℕ, zero, suc, ◌≡◌, sym, ◌∙◌, map, List, [], ◌∷◌, Option, none, some, refl, ap, arith, Outcome, ok,
  err, panic, ◌>>=◌, get_elem?,
}
use rocklet.NavMap.Reader as Reader
use rocklet.NavMap.RobotDb.{Converted, Images}
use rocklet.NavMap.RobotDb.Total.{Ends, Returns}
use rocklet.NavMap.Cleanings.{Cleaning, Error, or_error, set_elem, update}

pub bind_ext :
    {A B : Type 0} (m : Outcome Error A) (f g : A → Outcome Error B)
    → ((a : A) → m ≡ ok a → f a ≡ g a)
    → (m >>= f) ≡ (m >>= g)
bind_ext (ok a) f g h = h a refl
bind_ext (err e) f g h = refl
bind_ext panic f g h = refl

pub bind_ok :
    {A B : Type 0} (m : Outcome Error A) (f : A → Outcome Error B) (b : B)
    → (m >>= f) ≡ ok b
    → (a : A) × (m ≡ ok a) × (f a ≡ ok b)
bind_ok (ok a) f b h = (a, refl, h)
bind_ok (err e) f b h = ground (arith, h)
bind_ok panic f b h = ground (arith, h)

-- A cleaning less what comes from a map.
abbrev pub base : {F : Type 0} → Cleaning F → Cleaning F
base c = record c { map = none; path = []; charger = none }

pub update-base :
    {F : Type 0} (c d : Cleaning F) (r : Option (Outcome Reader.Error (Converted F)))
    → update c r ≡ ok d
    → base d ≡ base c
unfolding update
update-base c d none e = ground (arith, e)
update-base c d (some (ok v)) e =
    sym (ap (λ r. elim r [ ok x ↦ base x | err x ↦ base c | panic ↦ base c ]) e)
update-base c d (some (err x)) e = ground (arith, e)
update-base c d (some panic) e = ground (arith, e)

pub map-set_elem :
    {F : Type 0} (cs : List (Cleaning F)) (n : ℕ) (c d : Cleaning F)
    → get_elem? cs n ≡ some c
    → base d ≡ base c
    → map base (set_elem cs n d) ≡ map base cs
unfolding set_elem
map-set_elem [] n c d g e = refl
map-set_elem (x ∷ cs) zero c d g e =
    let first : c ≡ x = cc g in ap (λ y. y ∷ map base cs) (e ∙ ap base first)
map-set_elem (x ∷ cs) (suc n) c d g e = ap (λ ys. base x ∷ ys) (map-set_elem cs n c d g e)

module _ (images : Images) where
  -- A panic is neither a result nor an error.
  pub update-Returns :
      {F : Type 0} (c : Cleaning F) (r : Option (Outcome Reader.Error (Converted F)))
      → Ends images r
      → Returns images (update c r)
  unfolding update
  update-Returns c none h = absurd h
  update-Returns c (some (ok v)) h = tt
  update-Returns c (some (err e)) h = tt
  update-Returns c (some panic) h = h

  pub bind_Returns :
      {A B : Type 0} (m : Outcome Error A) (f : A → Outcome Error B)
      → Returns images m
      → ((a : A) → m ≡ ok a → Returns images (f a))
      → Returns images (m >>= f)
  bind_Returns (ok a) f h k = k a refl
  bind_Returns (err e) f h k = tt
  bind_Returns panic f h k = h

  pub or_error-Returns : {A : Type 0} (o : Option A) (e : Error) → Returns images (or_error o e)
  or_error-Returns none e = tt
  or_error-Returns (some a) e = tt

pub or_error-ok : {A : Type 0} (o : Option A) (e : Error) (a : A) → or_error o e ≡ ok a → o ≡ some a
or_error-ok none e a h = ground (arith, h)
or_error-ok (some b) e a h = ap some (cc h)
