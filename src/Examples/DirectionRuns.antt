-- ===== src/Examples/DirectionRuns.antt =====
-- Four tiles of a screen, and which of them are to the right of the first.
use pinnacle.Common.{
  ◌≡◌, refl, ℕ, Bool, true, false, ◌&&◌, List, [], ◌∷◌, ◌++◌, ◌+◌, get_elem?, if◌then◌else◌,
}
use pinnacle.Common.Int.{ℤ, pos, pos_part, leb_ℤ, ltb_ℤ, max_ℤ, min_ℤ, ◌-ᵢ◌}
use pinnacle.Geometry.{Rectangle}
use pinnacle.InDirection.{
  Direction, Measures, Class, Numbered, ids, top, bottom, left_side, right_side, closest_in_dir,
}
use pinnacle.InDirection.Sorted.{times_in}
use pinnacle.InDirection.Chosen.{is_chosen, one_chosen, InOrder, closest_in_dir_lem}

abbrev span : ℤ → ℤ → ℤ
span a b = max_ℤ a b -ᵢ min_ℤ a b

-- The tests that smithay documents, and a distance along the axes.
abbrev measures : Measures
measures = record {
  contains_rect = λ a b.
      leb_ℤ (left_side a) (left_side b)
      && leb_ℤ (top a) (top b)
      && leb_ℤ (right_side b) (right_side a)
      && leb_ℤ (bottom b) (bottom a);
  contains = λ a p.
      leb_ℤ (left_side a) p.x
      && leb_ℤ (top a) p.y
      && ltb_ℤ p.x (right_side a)
      && ltb_ℤ p.y (bottom a);
  overlaps = λ a b.
      ltb_ℤ (left_side a) (right_side b)
      && ltb_ℤ (left_side b) (right_side a)
      && ltb_ℤ (top a) (bottom b)
      && ltb_ℤ (top b) (bottom a);
  bounding_size = λ a b. record { w = span a.x b.x; h = span a.y b.y };
  distance = λ a b. pos_part (span a.x b.x) + pos_part (span a.y b.y);
}

abbrev tile_at : (x y : ℕ) → Rectangle
tile_at x y = record {
  loc = record { x = pos x; y = pos y };
  size = record { w = pos 100; h = pos 100 };
}

abbrev tiles : List Rectangle
tiles = tile_at 0 0 ∷ tile_at 200 0 ∷ tile_at 100 0 ∷ tile_at 0 100 ∷ []

right_of_first : closest_in_dir measures (tile_at 0 0) tiles Direction.right ≡ 2 ∷ 1 ∷ []
unfolding closest_in_dir pinnacle.Common.Int.◌+ᵢ◌ pinnacle.Common.Int.◌-ᵢ◌
    pinnacle.InDirection.is_beyond pinnacle.InDirection.class_of pinnacle.InDirection.is_kept
right_of_first = refl

closest_in_dir_lem_example :
    ((i : ℕ)
      → times_in i (closest_in_dir measures (tile_at 0 0) tiles Direction.right)
        ≡ one_chosen (is_chosen measures Direction.right (tile_at 0 0)) (get_elem? tiles i))
    × ((vs : Class → List Numbered) × (closest_in_dir measures (tile_at 0 0) tiles Direction.right
          ≡ ids (vs Class.inside ++ vs Class.overlap ++ vs Class.enclosing ++ vs Class.no_overlap))
        × ((c : Class) → InOrder measures (tile_at 0 0) tiles Direction.right c (vs c)))
closest_in_dir_lem_example = closest_in_dir_lem measures (tile_at 0 0) tiles Direction.right
