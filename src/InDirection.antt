-- ===== src/InDirection.antt =====
-- src/util/rect.rs: the rectangles that are closest in a direction. The tests and the bounding box of
-- smithay's rectangles are arguments, and so is the distance, of which only the order of `f32::total_cmp` is used.
-- The ratio of two sides is compared with 1 exactly; so is an `f32` while sides are below 2 ^ 24.

pub mod Sorted
pub mod Chosen
use pinnacle.Common.{
  Bool, true, false, not, ◌&&◌, ◌||◌, List, [], ◌∷◌, ◌++◌, ◌+◌, ◌/◌, ℕ, suc, leb, retain, map,
  if◌then◌else◌,
}
use pinnacle.Common.Int.{ℤ, pos, negsuc, sub_ℕ, leb_ℤ, ltb_ℤ, eqb_ℤ, ◌+ᵢ◌}
use pinnacle.Geometry.{Point, Size, Rectangle}

pub data Direction : Type 0 where
  left right up down : Direction

-- What smithay and the floating-point unit compute.
pub record Measures : Type 0 where
  pub contains_rect : Rectangle → Rectangle → Bool
  pub contains : Rectangle → Point → Bool
  pub overlaps : Rectangle → Rectangle → Bool
  pub bounding_size : Point → Point → Size
  pub distance : Point → Point → ℕ

-- Half of an `i32`, towards 0.
abbrev half_i32 : ℤ → ℤ
half_i32 (pos n) = pos (n / 2)
half_i32 (negsuc n) = sub_ℕ 0 (suc n / 2)

abbrev pub top : Rectangle → ℤ
top r = r.loc.y

abbrev pub bottom : Rectangle → ℤ
bottom r = r.loc.y +ᵢ r.size.h

abbrev pub left_side : Rectangle → ℤ
left_side r = r.loc.x

abbrev pub right_side : Rectangle → ℤ
right_side r = r.loc.x +ᵢ r.size.w

abbrev pub center : Rectangle → Point
center r = record { x = r.loc.x +ᵢ half_i32 r.size.w; y = r.loc.y +ᵢ half_i32 r.size.h }

abbrev same_rect : Rectangle → Rectangle → Bool
same_rect a b =
    eqb_ℤ a.loc.x b.loc.x
    && eqb_ℤ a.loc.y b.loc.y
    && eqb_ℤ a.size.w b.size.w
    && eqb_ℤ a.size.h b.size.h

-- Whether the center of the other rectangle lies in the direction.
unfoldable pub is_beyond : Direction → (rect other : Rectangle) → Bool
is_beyond Direction.left rect other = ltb_ℤ (center other).x (center rect).x
is_beyond Direction.right rect other = ltb_ℤ (center rect).x (center other).x
is_beyond Direction.up rect other = ltb_ℤ (center other).y (center rect).y
is_beyond Direction.down rect other = ltb_ℤ (center rect).y (center other).y

abbrev pub is_wide_enough : Direction → Size → Bool
is_wide_enough Direction.left s = leb_ℤ s.h s.w
is_wide_enough Direction.right s = leb_ℤ s.h s.w
is_wide_enough Direction.up s = leb_ℤ s.w s.h
is_wide_enough Direction.down s = leb_ℤ s.w s.h

abbrev pub is_more_in_direction : Measures → (rect other : Rectangle) → Direction → Bool
is_more_in_direction m rect other dir =
    is_wide_enough dir (m.bounding_size (center other) (center rect))

abbrev spans_upright : (rect other : Rectangle) → Bool
spans_upright rect other = leb_ℤ (bottom rect) (bottom other) && leb_ℤ (top other) (top rect)

abbrev spans_across : (rect other : Rectangle) → Bool
spans_across rect other =
    leb_ℤ (left_side other) (left_side rect) && leb_ℤ (right_side rect) (right_side other)

abbrev pub spans_side : Direction → (rect other : Rectangle) → Bool
spans_side Direction.left = spans_upright
spans_side Direction.right = spans_upright
spans_side Direction.up = spans_across
spans_side Direction.down = spans_across

abbrev level_upright : (rect other : Rectangle) → Bool
level_upright rect other = leb_ℤ (top rect) (center other).y && leb_ℤ (center other).y (bottom rect)

abbrev level_across : (rect other : Rectangle) → Bool
level_across rect other =
    leb_ℤ (left_side rect) (center other).x && leb_ℤ (center other).x (right_side rect)

abbrev pub center_is_to_side : Direction → (rect other : Rectangle) → Bool
center_is_to_side Direction.left = level_upright
center_is_to_side Direction.right = level_upright
center_is_to_side Direction.up = level_across
center_is_to_side Direction.down = level_across

abbrev pub past_edge : Direction → (rect other : Rectangle) → Bool
past_edge Direction.left rect other = ltb_ℤ (right_side other) (left_side rect)
past_edge Direction.right rect other = ltb_ℤ (right_side rect) (left_side other)
past_edge Direction.up rect other = ltb_ℤ (bottom other) (top rect)
past_edge Direction.down rect other = ltb_ℤ (bottom rect) (top other)

-- Into which of the four vectors a rectangle goes.
pub data Class : Type 0 where
  inside overlap enclosing no_overlap : Class

abbrev pub is_class : Class → Class → Bool
is_class Class.inside Class.inside = true
is_class Class.overlap Class.overlap = true
is_class Class.enclosing Class.enclosing = true
is_class Class.no_overlap Class.no_overlap = true
is_class _ _ = false

unfoldable pub class_of : Measures → (rect other : Rectangle) → Class
class_of m rect other =
    if m.contains_rect rect other
    then Class.inside
    else if m.contains_rect other rect
    then Class.enclosing
    else if m.overlaps rect other
    then Class.overlap
    else Class.no_overlap

-- Which rectangles of a vector are kept.
unfoldable pub is_kept : Measures → Direction → (rect : Rectangle) → Class → Rectangle → Bool
is_kept m dir rect Class.inside other = is_more_in_direction m rect other dir
is_kept m dir rect Class.enclosing other = is_more_in_direction m rect other dir
is_kept m dir rect Class.overlap other =
    if m.contains rect (center other)
    then is_more_in_direction m rect other dir
    else spans_side dir rect other
      || center_is_to_side dir rect other
      || is_more_in_direction m rect other dir
is_kept m dir rect Class.no_overlap other =
    spans_side dir rect other
    || center_is_to_side dir rect other
    || (past_edge dir rect other && is_more_in_direction m rect other dir)

-- By what a vector is sorted.
abbrev pub apart : Measures → (rect : Rectangle) → Class → Rectangle → ℕ
apart m rect Class.no_overlap other = m.distance rect.loc other.loc
apart m rect _ other = m.distance (center rect) (center other)

abbrev pub Numbered : Type 0
Numbered = ℕ × Rectangle

abbrev pub numbered : ℕ → List Rectangle → List Numbered
numbered n [] = []
numbered n (r ∷ rs) = (n, r) ∷ numbered (suc n) rs

-- `sort_by` is stable: what comes first stays before its equals.
abbrev pub insert_by : (Rectangle → ℕ) → Numbered → List Numbered → List Numbered
insert_by key e [] = e ∷ []
insert_by key e (x ∷ xs) =
    let rest = insert_by key e xs in if leb (key e.1) (key x.1) then e ∷ x ∷ xs else x ∷ rest

abbrev pub sort_by : (Rectangle → ℕ) → List Numbered → List Numbered
sort_by key [] = []
sort_by key (e ∷ es) = insert_by key e (sort_by key es)

abbrev pub is_candidate : Direction → (rect other : Rectangle) → Bool
is_candidate dir rect other = not (same_rect rect other) && is_beyond dir rect other

-- One of the vectors, when it is sorted.
abbrev pub vector_of : Measures → Direction → Rectangle → Class → List Numbered → List Numbered
vector_of m dir rect class es = sort_by (apart m rect class) (
    retain (λ e. is_kept m dir rect class e.1)
      (retain (λ e. is_class class (class_of m rect e.1)) es))

abbrev pub ids : List Numbered → List ℕ
ids [] = []
ids (e ∷ es) = e.0 ∷ ids es

unfoldable pub closest_in_dir : Measures → Rectangle → List Rectangle → Direction → List ℕ
closest_in_dir m rect rects dir =
    let es = retain (λ e. is_candidate dir rect e.1) (numbered 0 rects) in
    ids (
      vector_of m dir rect Class.inside es
      ++ vector_of m dir rect Class.overlap es
      ++ vector_of m dir rect Class.enclosing es
      ++ vector_of m dir rect Class.no_overlap es)
