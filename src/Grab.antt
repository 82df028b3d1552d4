-- ===== src/Grab.antt =====
-- src/grab/resize_grab.rs: the sizes that dragging an edge of a window asks for. The client's limits are
-- an argument: they come from smithay's cached state or from the X11 surface. The sums and differences
-- of widths and pointer positions are integers without a bound: those of a screen are far below 2 ^ 31.
pub mod Limits
use pinnacle.Common.{Bool, true, false, Option, none, some, if◌then◌else◌, not}
use pinnacle.Common.Int.{ℤ, pos, max_ℤ, leb_ℤ, ltb_ℤ, eqb_ℤ, ◌+ᵢ◌, ◌-ᵢ◌}
use pinnacle.Geometry.{Point, Size, Rectangle}

pub data ResizeEdge : Type 0 where
  none_edge top bottom left top_left bottom_left right top_right bottom_right : ResizeEdge

abbrev pub at_left : ResizeEdge → Bool
at_left ResizeEdge.left = true
at_left ResizeEdge.top_left = true
at_left ResizeEdge.bottom_left = true
at_left _ = false

abbrev pub at_right : ResizeEdge → Bool
at_right ResizeEdge.right = true
at_right ResizeEdge.top_right = true
at_right ResizeEdge.bottom_right = true
at_right _ = false

abbrev pub at_top : ResizeEdge → Bool
at_top ResizeEdge.top = true
at_top ResizeEdge.top_right = true
at_top ResizeEdge.top_left = true
at_top _ = false

abbrev pub at_bottom : ResizeEdge → Bool
at_bottom ResizeEdge.bottom = true
at_bottom ResizeEdge.bottom_right = true
at_bottom ResizeEdge.bottom_left = true
at_bottom _ = false

-- The size that the pointer asks for; no edge is on two opposite sides.
unfoldable pub new_window_size : ResizeEdge → (initial : Size) → (delta : Point) → Size
new_window_size edge initial delta = record {
  w =
      if at_right edge
      then initial.w +ᵢ delta.x
      else if at_left edge
      then initial.w -ᵢ delta.x
      else initial.w;
  h =
      if at_bottom edge
      then initial.h +ᵢ delta.y
      else if at_top edge
      then initial.h -ᵢ delta.y
      else initial.h;
}

-- `i32::clamp`, which panics where the least is above the most.
unfoldable pub clamp : (least most : ℤ) → ℤ → Option ℤ
clamp least most a =
    if leb_ℤ least most
    then some (if ltb_ℤ a least then least else if ltb_ℤ most a then most else a)
    else none

abbrev pub least_of : ℤ → ℤ
least_of n = max_ℤ (pos 1) n

-- A most of 0 is none at all.
abbrev pub most_of : ℤ → ℤ
most_of n = if not (eqb_ℤ n (pos 0)) then n else pos 2147483647

abbrev pub both_sides : Option ℤ → Option ℤ → Option Size
both_sides (some w) (some h) = some (record { w = w; h = h })
both_sides (some w) none = none
both_sides none h = none

-- `last_window_size`, which a floating window gets.
unfoldable pub last_window_size :
    ResizeEdge → (initial : Size) → (delta : Point) → (min_size max_size : Size) → Option Size
unfolding new_window_size clamp
last_window_size edge initial delta min_size max_size =
    let asked = new_window_size edge initial delta in
    both_sides (clamp (least_of min_size.w) (most_of max_size.w) asked.w)
      (clamp (least_of min_size.h) (most_of max_size.h) asked.h)

pub data ResizeDir : Type 0 where
  ahead behind : ResizeDir

-- Into which directions a tiled window is resized.
abbrev pub resize_dirs : ResizeEdge → ResizeDir × ResizeDir
resize_dirs ResizeEdge.top = (ahead, behind)
resize_dirs ResizeEdge.left = (behind, ahead)
resize_dirs ResizeEdge.top_left = (behind, behind)
resize_dirs ResizeEdge.bottom_left = (behind, ahead)
resize_dirs ResizeEdge.top_right = (ahead, behind)
resize_dirs _ = (ahead, ahead)
