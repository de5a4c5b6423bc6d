-- ===== src/NavMap/Cleanings/Tests.antt =====
-- ListCleanings of pkg/navmap/robotdb.go on a database of three records, two of them with the same
-- begin, and two maps, one of them of an unknown cleaning.
use rocklet.Base.{ℕ, ◌≡◌, List, [], ◌∷◌, ◌++◌, Option, some, true, ok, refl, replicate}
use rocklet.Base.Bytes.{le16, le32, le_value}
use rocklet.Base.Assoc.{lookup, insert}
use rocklet.Base.Decimal.{itoa}
use rocklet.Base.Int.{ℤ, pos, int_equality}
use rocklet.NavMap.Tests.{naturals, encoder, blocks}
use rocklet.NavMap.RobotDb.{
  new_rgba, convert_map, read_blocks, read_block, place, set_rgba, color_convert, draw_byte,
  draw_bytes, read_points, position_in_map_dimensions,
}
use rocklet.NavMap.RobotDb.Blocks.{all_bytes}
use rocklet.NavMap.Cleanings.{Record, MapRow, Cleaning, Database, list_cleanings, new_cleaning}

abbrev row : ℕ → ℕ → Record
row begin area = record {
  begin = pos begin;
  daybegin = pos 0;
  end = pos 900;
  code = pos 0;
  duration = pos 60;
  area = pos area;
  errcode = pos 0;
  complete = pos 1;
}

abbrev map_row : ℕ → MapRow
map_row begin = record {
  begin = pos begin;
  daybegin = pos 0;
  map_data = replicate 20 0 ++ all_bytes blocks;
}

abbrev database : Database
database = record {
  opens = true;
  cleanrecords = some (some (row 100 7) ∷ some (row 200 8) ∷ some (row 100 9) ∷ []);
  cleanmaps = some (some (map_row 100) ∷ some (map_row 300) ∷ []);
}

abbrev whole : List ℕ → Option (List ℕ)
whole text = some text

abbrev no_text : ℤ → List ℕ
no_text n = []

abbrev with_map : Cleaning ℕ
with_map = record (new_cleaning naturals encoder whole no_text (7 ∷ []) (row 100 9)) {
  map = some (record { contents = 3 ∷ 2 ∷ 7 ∷ []; width = 3; height = 2; left = 6; top = 5 });
  path = record { x = 0; y = 5 } ∷ [];
  charger = some (record { x = 0; y = 5 });
}

abbrev result : List (Cleaning ℕ)
result =
    new_cleaning naturals encoder whole no_text (7 ∷ []) (row 100 7)
    ∷ new_cleaning naturals encoder whole no_text (7 ∷ []) (row 200 8)
    ∷ with_map
    ∷ []

result_lem : list_cleanings naturals encoder whole no_text (7 ∷ []) database ≡ ok result
unfolding list_cleanings lookup insert itoa convert_map read_blocks read_block set_rgba
    color_convert le16 le32 le_value place position_in_map_dimensions read_points draw_bytes
    draw_byte new_rgba
result_lem = refl
