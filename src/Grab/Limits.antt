-- ===== src/Grab/Limits.antt =====
-- src/grab/resize_grab.rs: the sizes of a resize stay within the client's limits.
use pinnacle.Common.{
  ◌≡◌, ◌⊎◌, inl, inr, refl, Bool, true, false, ◌&&◌, Bool-cases, Option, none, some, arith,
}
use pinnacle.Common.Int.{ℤ, pos, negsuc, leb_ℤ, ltb_ℤ}
use pinnacle.Geometry.{Point, Size}
use pinnacle.Grab.{
  ResizeEdge, new_window_size, clamp, least_of, most_of, both_sides, last_window_size,
}

-- Between the least and the most and at least 1: what was asked for, or the limit that it passes.
abbrev Held : (least most asked a : ℤ) → Type 0
Held least most asked a =
    (leb_ℤ least a ≡ true)
    × (leb_ℤ a most ≡ true)
    × (leb_ℤ (pos 1) a ≡ true)
    × ((a ≡ asked)
        ⊎ ((ltb_ℤ asked least ≡ true) × (a ≡ least))
        ⊎ ((ltb_ℤ most asked ≡ true) × (a ≡ most)))

leb_refl : (a : ℤ) → leb_ℤ a a ≡ true
leb_refl (pos n) = ground arith
leb_refl (negsuc n) = ground arith

not_below : (a b : ℤ) → ltb_ℤ a b ≡ false → leb_ℤ b a ≡ true
not_below (pos a) (pos b) h = ground (arith, h)
not_below (pos a) (negsuc b) h = ground (arith, h)
not_below (negsuc a) (pos b) h = ground (arith, h)
not_below (negsuc a) (negsuc b) h = ground (arith, h)

least_positive : (n : ℤ) → leb_ℤ (pos 1) (least_of n) ≡ true
least_positive (pos n) = ground arith
least_positive (negsuc n) = ground arith

positive_from : (a b : ℤ) → leb_ℤ (pos 1) a ≡ true → leb_ℤ a b ≡ true → leb_ℤ (pos 1) b ≡ true
positive_from (pos a) (pos b) h e = ground (arith, h, e)
positive_from (pos a) (negsuc b) h e = ground (arith, h, e)
positive_from (negsuc a) b h e = ground (arith, h, e)

clamp_holds :
    (least most asked : ℤ)
    → leb_ℤ (pos 1) least ≡ true
    → leb_ℤ least most ≡ true
    → (a : ℤ) × (clamp least most asked ≡ some a) × Held least most asked a
unfolding clamp
clamp_holds least most asked one h = elim (Bool-cases (ltb_ℤ asked least)) [
  | inl e ↦ (least, rw (h, e) refl, (leb_refl least, h, one, inr (inl (e, refl))))
  | inr e ↦ elim (Bool-cases (ltb_ℤ most asked)) [
    | inl f ↦ (
      most,
      rw (h, e, f) refl,
      (h, leb_refl most, positive_from least most one h, inr (inr (f, refl))),
    )
    | inr f ↦
        let low = not_below asked least e in
        (
          asked,
          rw (h, e, f) refl,
          (low, not_below most asked f, positive_from least asked one low, inl refl),
        )
  ]
]

clamp_panics : (least most asked : ℤ) → leb_ℤ least most ≡ false → clamp least most asked ≡ none
unfolding clamp
clamp_panics least most asked h = rw (h) refl

no_second : (w : Option ℤ) → both_sides w none ≡ none
no_second none = refl
no_second (some w) = refl

-- What is held to the limits of a client: min_size and max_size of one side.
abbrev pub Kept : (min_size max_size asked a : ℤ) → Type 0
Kept min_size max_size asked a = Held (least_of min_size) (most_of max_size) asked a

abbrev pub has_room : (min_size max_size : ℤ) → Bool
has_room min_size max_size = leb_ℤ (least_of min_size) (most_of max_size)

-- A resize of a window computes a size if on both sides the client's least size, or 1 if that is
-- larger, is at most its most size, which is 2 ^ 31 - 1 if it is 0; if not, it panics. The size is
-- 1 or more and within the limits on both sides, and is on each what the pointer asks for, or the
-- limit that this passes.
pub last_window_size_lem :
    (edge : ResizeEdge) (initial : Size) (delta : Point) (min_size max_size : Size)
    → let asked = new_window_size edge initial delta in
      let size = last_window_size edge initial delta min_size max_size in
      (((has_room min_size.w max_size.w && has_room min_size.h max_size.h) ≡ true)
        × ((s : Size) × (size ≡ some s)
            × Kept min_size.w max_size.w asked.w s.w
            × Kept min_size.h max_size.h asked.h s.h))
      ⊎ (((has_room min_size.w max_size.w && has_room min_size.h max_size.h) ≡ false)
          × (size ≡ none))
unfolding last_window_size
last_window_size_lem edge initial delta min_size max_size =
    let asked = new_window_size edge initial delta in
    elim (Bool-cases (has_room min_size.w max_size.w)) [
      | inr u ↦
          inr (
            rw (u) refl,
            rw (clamp_panics (least_of min_size.w) (most_of max_size.w) asked.w u) refl,
          )
      | inl u ↦ elim (Bool-cases (has_room min_size.h max_size.h)) [
        | inr v ↦ inr (
          rw (u, v) refl,
          rw (clamp_panics (least_of min_size.h) (most_of max_size.h) asked.h v)
              (no_second (clamp (least_of min_size.w) (most_of max_size.w) asked.w)),
        )
        | inl v ↦
            let (w, e, p) =
              clamp_holds (least_of min_size.w) (most_of max_size.w) asked.w
                (least_positive min_size.w) u in
            let (h, f, q) =
              clamp_holds (least_of min_size.h) (most_of max_size.h) asked.h
                (least_positive min_size.h) v in
            inl (rw (u, v) refl, (record { w = w; h = h }, rw (e, f) refl, p, q))
      ]
    ]
