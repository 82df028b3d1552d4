-- ===== src/Examples/GrabRuns.antt =====
-- A window dragged by its left edge, within and beyond its limits.
use pinnacle.Common.{◌≡◌, ◌⊎◌, refl, true, false, ◌&&◌, Option, none, some}
use pinnacle.Common.Int.{pos, negsuc}
use pinnacle.Geometry.{Point, Size}
use pinnacle.Grab.{ResizeEdge, new_window_size, last_window_size}
use pinnacle.Grab.Limits.{Kept, has_room, last_window_size_lem}

abbrev from_size : Size
from_size = record { w = pos 300; h = pos 200 }

abbrev least_size : Size
least_size = record { w = pos 100; h = pos 0 }

abbrev no_limit : Size
no_limit = record { w = pos 0; h = pos 0 }

abbrev narrow_size : Size
narrow_size = record { w = pos 50; h = pos 50 }

abbrev far_right : Point
far_right = record { x = pos 250; y = negsuc 0 }

held_at_least :
    last_window_size ResizeEdge.left from_size far_right least_size no_limit
    ≡ some (record { w = pos 100; h = pos 200 })
unfolding last_window_size pinnacle.Common.Int.◌-ᵢ◌
held_at_least = refl

grows_to_the_left :
    last_window_size ResizeEdge.top_left from_size
      (record { x = negsuc 9; y = pos 20 })
      least_size
      no_limit
    ≡ some (record { w = pos 310; h = pos 180 })
unfolding last_window_size pinnacle.Common.Int.◌-ᵢ◌
grows_to_the_left = refl

limits_exclude : last_window_size ResizeEdge.left from_size far_right least_size narrow_size ≡ none
unfolding last_window_size pinnacle.Common.Int.◌-ᵢ◌
limits_exclude = refl

last_window_size_lem_example :
    (((has_room (pos 100) (pos 0) && has_room (pos 0) (pos 0)) ≡ true)
      × ((s : Size) × (last_window_size ResizeEdge.left from_size far_right least_size no_limit
            ≡ some s)
          × Kept (pos 100) (pos 0) (new_window_size ResizeEdge.left from_size far_right).w s.w
          × Kept (pos 0) (pos 0) (new_window_size ResizeEdge.left from_size far_right).h s.h))
    ⊎ (((has_room (pos 100) (pos 0) && has_room (pos 0) (pos 0)) ≡ false)
        × (last_window_size ResizeEdge.left from_size far_right least_size no_limit ≡ none))
last_window_size_lem_example =
    last_window_size_lem ResizeEdge.left from_size far_right least_size no_limit
