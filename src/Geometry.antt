-- ===== src/Geometry.antt =====
-- Points, sizes and rectangles of the compositor's logical space, with `i32` coordinates.
use pinnacle.Common.Int.{ℤ, pos, ◌+ᵢ◌}

pub record Point : Type 0 where
  pub x : ℤ
  pub y : ℤ

pub record Size : Type 0 where
  pub w : ℤ
  pub h : ℤ

pub record Rectangle : Type 0 where
  pub loc : Point
  pub size : Size

-- `a + b` on points.
abbrev pub add_point : Point → Point → Point
add_point a b = record { x = a.x +ᵢ b.x; y = a.y +ᵢ b.y }

-- Rust's `Default` of the two.
abbrev pub origin : Point
origin = record { x = pos 0; y = pos 0 }

abbrev pub no_size : Size
no_size = record { w = pos 0; h = pos 0 }
