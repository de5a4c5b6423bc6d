-- ===== src/NavMap/Loop.antt =====
-- pkg/navmap/navmap.go: LoopMaps, one pass of lookupMaps at the start and one for each tick.
-- Nothing sets n.stopCh, so the case of the stop is never taken; the log lines are left out.
pub mod Newest
mod Tests
use rocklet.Base.{ℕ, List, [], ◌∷◌, Option}
use rocklet.NavMap.Maps.{Files, Image, Picture, LatestMap, lookup_maps}

-- The runtime directory as one pass finds it: the matches, and what is read from a path.
pub record Directory : Type 0 where
  pub files : Files
  pub decode : List ℕ → Option Picture

module _ (encode : Image → Option (List ℕ)) where
  -- The function lookup: an error of lookupMaps is only logged.
  unfoldable pub lookup : Option LatestMap → Directory → Option LatestMap
  lookup latest d = (lookup_maps encode d.decode d.files latest).0

  -- One pass for each tick.
  unfoldable pub ticks : Option LatestMap → List Directory → Option LatestMap
  ticks latest [] = latest
  ticks latest (d ∷ ds) = ticks (lookup latest d) ds

  unfoldable pub loop_maps : Option LatestMap → Directory → List Directory → Option LatestMap
  unfolding ticks
  loop_maps latest d ds = ticks (lookup latest d) ds
