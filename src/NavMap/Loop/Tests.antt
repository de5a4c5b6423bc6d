-- ===== src/NavMap/Loop/Tests.antt =====
-- LoopMaps of pkg/navmap/navmap.go on two states of a directory.
use rocklet.Base.{
  ℕ, ◌≡◌, ◌≤◌, List, [], ◌∷◌, Option, none, some, ◌&&◌, ◌==◌, if◌then◌else◌, inl, refl, arith,
}
use rocklet.Base.Text.{codes}
use rocklet.NavMap.Maps.{
  Picture, Image, LatestMap, newest, new_map, recolored, used_area, scan, scan_row, visit,
  update_min_max, recolor, gray, white,
}
use rocklet.NavMap.Maps.Newest.{Listed}
use rocklet.NavMap.Loop.{Directory, loop_maps}
use rocklet.NavMap.Loop.Newest.{loop_maps-newest}

-- One white pixel at (x, 2).
abbrev picture : ℕ → Picture
picture u = record {
  x0 = 0;
  y0 = 0;
  x1 = 4;
  y1 = 4;
  at = λ x y. if x == u && y == 2 then white else gray;
}

abbrev encode : Image → Option (List ℕ)
encode image = some (image.box.min_x ∷ image.box.min_y ∷ [])

abbrev content : List ℕ → ℕ → Option Picture
content path time = some (picture time)

abbrev first : Directory
first = record { files = (codes "navmap0.ppm", some 1) ∷ []; decode = λ p. some (picture 1) }

abbrev second : Directory
second = record {
  files =
      (codes "navmap0.ppm", some 1)
      ∷ (codes "navmap1.ppm", none)
      ∷ (codes "navmap2.ppm", some 3)
      ∷ [];
  decode = λ p. some (picture 3);
}

abbrev latest : LatestMap
latest = record {
  path = codes "navmap2.ppm";
  m_time = 3;
  image = recolored (picture 3);
  kubernetes_map = record { contents = 3 ∷ 2 ∷ []; width = 0; height = 0; left = 3; top = 2 };
}

newest_second : newest [] 0 second.files ≡ (codes "navmap2.ppm", 3)
unfolding newest
newest_second = refl

loop_maps-newest_example :
    (loop_maps encode none first (first ∷ second ∷ []) ≡ some latest)
    × Listed latest.path latest.m_time second.files
    × (1 ≤ latest.m_time)
loop_maps-newest_example =
    loop_maps-newest encode content first (first ∷ []) second (codes "navmap0.ppm") 1 latest
      (unfold newest in (refl, (refl, tt))) (unfold newest in refl) (omega arith) (inl (refl, refl))
      (unfold newest new_map recolored used_area scan scan_row visit update_min_max recolor in refl)
