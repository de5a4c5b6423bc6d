-- ===== src/NavMap/Maps/Tests.antt =====
-- NewMap and lookupMaps of pkg/navmap/navmap.go on a small image and three files.
use rocklet.Base.{[], ◌∷◌, none, some, ◌&&◌, ◌==◌, if◌then◌else◌}
use rocklet.Base.Text.{codes}
use rocklet.NavMap.Maps.{Files, Picture, gray, white}

-- One white pixel at (1, 2).
abbrev picture : Picture
picture = record {
  x0 = 0;
  y0 = 0;
  x1 = 4;
  y1 = 4;
  at = λ x y. if x == 1 && y == 2 then white else gray;
}

abbrev files : Files
files =
    (codes "navmap0.ppm", some 5) ∷ (codes "navmap1.ppm", none) ∷ (codes "navmap2.ppm", some 4) ∷ []
