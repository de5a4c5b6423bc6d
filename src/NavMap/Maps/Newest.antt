-- ===== src/NavMap/Maps/Newest.antt =====
-- lookupMaps of pkg/navmap/navmap.go: the file that is read.
use rocklet.Base.{
  Bool, true, false, Option, if◌then◌else◌, ℕ, ◌≤◌, ◌≡◌, ◌⊎◌, inl, inr, List, [], ◌∷◌, none, some,
  Bool-cases, ltb, refl, sym, ap, ◌<◌, arith,
}
use rocklet.NavMap.Maps.{Files, newest}

-- A file with its time is among the matches.
abbrev pub Listed : List ℕ → ℕ → Files → Type 0
Listed path t [] = ⊥
Listed path t ((q, s) ∷ rest) = ((q ≡ path) × (s ≡ some t)) ⊎ Listed path t rest

newest_ge : (fs : Files) (file : List ℕ) (time : ℕ) → time ≤ (newest file time fs).1
unfolding newest
newest_ge [] file time = omega arith
newest_ge ((p, none) ∷ rest) file time = newest_ge rest file time
newest_ge ((p, some t) ∷ rest) file time = elim (Bool-cases (ltb t time)) [
  | inl older ↦ rw older (newest_ge rest file time)
  | inr newer ↦ rw newer (ground (arith, newest_ge rest p t))
]

newest-Listed :
    (fs : Files) (file : List ℕ) (time : ℕ) (path : List ℕ) (t : ℕ)
    → Listed path t fs
    → t ≤ (newest file time fs).1
unfolding newest
newest-Listed [] file time path t h = elim h [ ]
newest-Listed ((p, none) ∷ rest) file time path t (inl h) = absurd cc
newest-Listed ((p, none) ∷ rest) file time path t (inr h) = newest-Listed rest file time path t h
newest-Listed ((p, some s) ∷ rest) file time path t (inl h) = elim (Bool-cases (ltb s time)) [
  | inl older ↦ rw older (ground (arith, h.1, older, newest_ge rest file time))
  | inr newer ↦ rw newer (ground (arith, h.1, newest_ge rest p s))
]
newest-Listed ((p, some s) ∷ rest) file time path t (inr h) = elim (Bool-cases (ltb s time)) [
  | inl older ↦ rw older (newest-Listed rest file time path t h)
  | inr newer ↦ rw newer (newest-Listed rest p s path t h)
]

-- A choice among the matches, or the start.
abbrev IsChosen : List ℕ → ℕ → Files → List ℕ × ℕ → Type 0
IsChosen file time fs r = ((r.0 ≡ file) × (r.1 ≡ time)) ⊎ Listed r.0 r.1 fs

IsChosen-if :
    (file : List ℕ) (time : ℕ) (fs : Files) (b : Bool) (q r : List ℕ × ℕ)
    → IsChosen file time fs q
    → IsChosen file time fs r
    → IsChosen file time fs (if b then q else r)
IsChosen-if file time fs true q r h k = h
IsChosen-if file time fs false q r h k = k

IsChosen-later :
    (file : List ℕ) (time : ℕ) (p : List ℕ) (s : Option ℕ) (fs : Files) (r : List ℕ × ℕ)
    → IsChosen file time fs r
    → IsChosen file time ((p, s) ∷ fs) r
IsChosen-later file time p s fs r (inl h) = inl h
IsChosen-later file time p s fs r (inr h) = inr (inr h)

IsChosen-first :
    (file : List ℕ) (time : ℕ) (p : List ℕ) (s : ℕ) (fs : Files) (r : List ℕ × ℕ)
    → IsChosen p s fs r
    → IsChosen file time ((p, some s) ∷ fs) r
IsChosen-first file time p s fs r (inl h) = inr (inl (sym h.0, ap some (sym h.1)))
IsChosen-first file time p s fs r (inr h) = inr (inr h)

newest-IsChosen :
    (fs : Files) (file : List ℕ) (time : ℕ) → IsChosen file time fs (newest file time fs)
unfolding newest
newest-IsChosen [] file time = inl (refl, refl)
newest-IsChosen ((p, none) ∷ rest) file time =
    IsChosen-later file time p none rest _ (newest-IsChosen rest file time)
newest-IsChosen ((p, some s) ∷ rest) file time =
    IsChosen-if file time ((p, some s) ∷ rest) (ltb s time) _ _
      (IsChosen-later file time p (some s) rest _ (newest-IsChosen rest file time))
      (IsChosen-first file time p s rest _ (newest-IsChosen rest p s))

-- If a match has a time after the zero time, the file that lookupMaps chooses is a match with its
-- time, and no match is newer.
pub newest_lem :
    (fs : Files) (path : List ℕ) (t : ℕ)
    → 0 < t
    → Listed path t fs
    → Listed (newest [] 0 fs).0 (newest [] 0 fs).1 fs × (t ≤ (newest [] 0 fs).1)
newest_lem fs path t some_time h = elim (newest-IsChosen fs [] 0) [
  | inl unset ↦ absurd (omega (arith, unset.1, some_time, newest-Listed fs [] 0 path t h))
  | inr listed ↦ (listed, newest-Listed fs [] 0 path t h)
]
