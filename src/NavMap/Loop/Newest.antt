-- ===== src/NavMap/Loop/Newest.antt =====
-- LoopMaps of pkg/navmap/navmap.go: which map is the latest one.
use rocklet.Base.{
  ℕ, ◌≡◌, List, [], ◌∷◌, ◌++◌, Option, none, some, Bool, true, false, ◌&&◌, ◌==◌, bytes_eq,
  bytes_eq→≡, if◌then◌else◌, Outcome, ok, err, panic, refl, sym, ap, ◌∙◌, arith, ◌<◌, ◌≤◌,
}
use mathlib.Core.Path.{subst}
use rocklet.NavMap.Maps.{
  Image, Picture, LatestMap, Error, newest, new_map, encoded, recolored, keep_or_set, lookup_maps,
}
use rocklet.NavMap.Maps.Newest.{Listed, newest_lem}
use rocklet.NavMap.Loop.{Directory, lookup, ticks, loop_maps}

module _ (encode : Image → Option (List ℕ)) (content : List ℕ → ℕ → Option Picture) where
  -- What is read from the newest file depends on its path and time only.
  abbrev pub IsStable : Directory → Type 0
  IsStable d = let (path, time) = newest [] 0 d.files in d.decode path ≡ content path time

  abbrev pub AreStable : List Directory → Type 0
  AreStable [] = Unit
  AreStable (d ∷ ds) = IsStable d × AreStable ds

  -- A pass that reads the newest file whether it is known or not.
  abbrev pub read_anew : Option LatestMap → Directory → Option LatestMap
  read_anew latest d =
      let (path, time) = newest [] 0 d.files in
      (keep_or_set latest (new_map encode (content path time) path time)).0

  abbrev pub all_anew : Option LatestMap → List Directory → Option LatestMap
  all_anew latest [] = latest
  all_anew latest (d ∷ ds) = all_anew (read_anew latest d) ds

  -- The latest map is what its path and time say.
  abbrev pub IsRead : Option LatestMap → Type 0
  IsRead none = Unit
  IsRead (some m) = new_map encode (content m.path m.m_time) m.path m.m_time ≡ ok m

  path_of : Outcome Error LatestMap → List ℕ
  path_of (ok m) = m.path
  path_of (err e) = []
  path_of panic = []

  time_of : Outcome Error LatestMap → ℕ
  time_of (ok m) = m.m_time
  time_of (err e) = 0
  time_of panic = 0

  encoded-path :
      (o : Option (List ℕ)) (path : List ℕ) (time : ℕ) (image : Image) (m : LatestMap)
      → encoded path time image o ≡ ok m
      → (m.path ≡ path) × (m.m_time ≡ time)
  unfolding path_of time_of
  encoded-path none path time image m h = absurd cc
  encoded-path (some bytes) path time image m h = (sym (ap path_of h), sym (ap time_of h))

  new_map-path :
      (o : Option Picture) (path : List ℕ) (time : ℕ) (m : LatestMap)
      → new_map encode o path time ≡ ok m
      → (m.path ≡ path) × (m.m_time ≡ time)
  unfolding new_map
  new_map-path none path time m h = absurd cc
  new_map-path (some p) path time m h =
      encoded-path (encode (recolored p)) path time (recolored p) m h

  same_file :
      (m : LatestMap) (path : List ℕ) (time : ℕ)
      → bytes_eq m.path path && m.m_time == time ≡ true
      → (m.path ≡ path) × (m.m_time ≡ time)
  same_file m path time both = ground (arith, both, bytes_eq→≡ m.path path)

  -- The file of the map m is read again.
  read_path :
      (m : LatestMap) (path : List ℕ) (time : ℕ)
      → (m.path ≡ path) × (m.m_time ≡ time)
      → new_map encode (content m.path m.m_time) m.path m.m_time
        ≡ new_map encode (content path time) path time
  read_path m path time (p, t) =
      ap (λ q. new_map encode (content q m.m_time) q m.m_time) p
      ∙ ap (λ s. new_map encode (content path s) path s) t

  kept-IsRead :
      (latest : Option LatestMap) (path : List ℕ) (time : ℕ) (r : Outcome Error LatestMap)
      → new_map encode (content path time) path time ≡ r
      → IsRead latest
      → IsRead (keep_or_set latest r).0
  kept-IsRead latest path time (ok m) eq h =
      read_path m path time (new_map-path (content path time) path time m eq) ∙ eq
  kept-IsRead latest path time (err e) eq h = h
  kept-IsRead latest path time panic eq h = h

  pub read_anew-IsRead :
      (latest : Option LatestMap) (d : Directory) → IsRead latest → IsRead (read_anew latest d)
  read_anew-IsRead latest d h =
      let (path, time) = newest [] 0 d.files in kept-IsRead latest path time _ refl h

  unless_known :
      (m : LatestMap) (r : Outcome Error LatestMap) (known : Bool)
      → (known ≡ true → r ≡ ok m)
      → (if known then (some m, none) else keep_or_set (some m) r).0 ≡ (keep_or_set (some m) r).0
  unless_known m r true h = sym (ap (λ q. (keep_or_set (some m) q).0) (h refl))
  unless_known m r false h = refl

  pub lookup-read_anew :
      (latest : Option LatestMap) (d : Directory)
      → IsStable d
      → IsRead latest
      → lookup encode latest d ≡ read_anew latest d
  unfolding lookup lookup_maps
  lookup-read_anew none d stable h =
      let (path, time) = newest [] 0 d.files in
      ap (λ o. (keep_or_set none (new_map encode o path time)).0) stable
  lookup-read_anew (some m) d stable h =
      let path = (newest [] 0 d.files).0 in
      let time = (newest [] 0 d.files).1 in
      let read = ap (λ o. new_map encode o path time) stable in
      unless_known m _ (bytes_eq m.path path && m.m_time == time)
        (λ known. read ∙ (sym (read_path m path time (same_file m path time known)) ∙ h))
      ∙ ap (λ r. (keep_or_set (some m) r).0) read

  ticks-all_anew :
      (ds : List Directory) (latest : Option LatestMap)
      → AreStable ds
      → IsRead latest
      → ticks encode latest ds ≡ all_anew latest ds
  unfolding ticks
  ticks-all_anew [] latest stable h = refl
  ticks-all_anew (d ∷ ds) latest (now, later) h =
      ap (λ l. ticks encode l ds) (lookup-read_anew latest d now h)
      ∙ ticks-all_anew ds (read_anew latest d) later (read_anew-IsRead latest d h)

  -- If what is read from the newest file depends on its path and time only, then after the first
  -- pass and any ticks the latest map is that of a loop that reads the newest file in each pass
  -- whether it is known or not, and that keeps the map it has when this fails.
  pub loop_maps-all_anew :
      (d : Directory) (ds : List Directory)
      → AreStable (d ∷ ds)
      → loop_maps encode none d ds ≡ all_anew none (d ∷ ds)
  unfolding loop_maps ticks
  loop_maps-all_anew d ds stable = ticks-all_anew (d ∷ ds) none stable tt

  all_anew-IsRead :
      (ds : List Directory) (latest : Option LatestMap)
      → IsRead latest
      → IsRead (all_anew latest ds)
  all_anew-IsRead [] latest h = h
  all_anew-IsRead (d ∷ ds) latest h =
      all_anew-IsRead ds (read_anew latest d) (read_anew-IsRead latest d h)

  ticks-append :
      (ds : List Directory) (latest : Option LatestMap) (e : Directory)
      → ticks encode latest (ds ++ e ∷ []) ≡ lookup encode (ticks encode latest ds) e
  unfolding ticks
  ticks-append [] latest e = refl
  ticks-append (d ∷ ds) latest e = ticks-append ds (lookup encode latest d) e

  -- If what is read from the newest file depends on its path and time only, the last tick finds a
  -- match with a time after the zero time, and the file it chooses can be read and encoded, then
  -- the latest map is the one of this file, which is a match with its time, and no match is newer.
  pub loop_maps-newest :
      (d : Directory) (ds : List Directory) (e : Directory) (path : List ℕ) (t : ℕ) (m : LatestMap)
      → AreStable (d ∷ ds)
      → IsStable e
      → 0 < t
      → Listed path t e.files
      → new_map encode
          (e.decode (newest [] 0 e.files).0)
          (newest [] 0 e.files).0
          (newest [] 0 e.files).1
        ≡ ok m
      → (loop_maps encode none d (ds ++ e ∷ []) ≡ some m)
        × Listed m.path m.m_time e.files
        × (t ≤ m.m_time)
  unfolding loop_maps ticks
  loop_maps-newest d ds e path t m stable last some_time listed reads =
      let before = all_anew none (d ∷ ds) in
      let file = (newest [] 0 e.files).0 in
      let time = (newest [] 0 e.files).1 in
      let (p, s) = new_map-path (e.decode file) file time m reads in
      let (chosen, latest) = newest_lem e.files path t some_time listed in
      (
        ticks-append (d ∷ ds) none e
            ∙ (ap (λ l. lookup encode l e) (loop_maps-all_anew d ds stable)
                ∙ (lookup-read_anew before e last (all_anew-IsRead (d ∷ ds) none tt)
                    ∙ ap (λ r. (keep_or_set before r).0)
                        (sym (ap (λ o. new_map encode o file time) last) ∙ reads))),
        subst (λ x. Listed m.path x e.files) (sym s)
            (subst (λ q. Listed q time e.files) (sym p) chosen),
        subst (λ x. t ≤ x) (sym s) latest,
      )
