-- ===== src/Client/Generators/Fair/Tiles.antt =====
-- api/rust/src/layout/generators.rs: `Fair` shares out every window.
use native.Mathlib.Nat.{mul_comm, zero-mul, one-mul, add-mul, lt_of_mul-lt-mul_left}
use pinnacle.Common.{
  ap, ltb, ◌*◌, ◌≤◌, ℕ, zero, suc, ◌+◌, ◌-◌, ◌<◌, ◌≡◌, ◌⊎◌, inl, inr, refl, List, [], ◌∷◌, ◌++◌,
  Option, none, some, length, get_elem?, arith, ap₂, sym, ◌∙◌, Bool-cases, ◌==◌,
}
use pinnacle.Client.Node.{LayoutDir, row, column, set_dir, Node, node, nil, cons, Floats}
use pinnacle.Client.Sent.{node_tiles, nodes_tiles}
use pinnacle.Client.Generators.{line_layout}
use pinnacle.Client.Generators.Tiles.{
  node_tiles-node, node_tiles-line, node_tiles-leaf, nodes_tiles-one_child,
  nodes_tiles-two_children,
}
use pinnacle.Client.Generators.Fair.{
  Fair, horizontal, vertical, fair_root, Quotients, count_at, count_in_line, max_per_line,
  wins_per_line, with_line_label, fair_line, fair_lines, fair_layout,
}

-- Up to 2 ^ 24 an `f32` holds a number exactly. A root of such a number is then at most 2 ^ 12, and a
-- quotient of two, rounded up, is that of the numbers: it falls short of an integer by more than the
-- float's precision, if it does.
abbrev pub exact : ℕ
exact = 16777216

pub record IsRounded (q : Quotients) : Type 0 where
  pub root : (n : ℕ) → n ≤ exact → q.sqrt_round n ≤ 4096
  pub enough :
      (i most : ℕ) → i ≤ exact → 0 < most → most ≤ exact → i ≤ q.quotient_ceil i most * most
  pub least :
      (i most : ℕ) → i ≤ exact → 0 < most → most ≤ exact → q.quotient_ceil i most * most < i + most

smaller : (a b m : ℕ) → a * m < b * m → a < b
smaller a b m h = lt_of_mul-lt-mul_left m (omega (arith, mul_comm a m, mul_comm b m, h))

-- The quotients begin at 1, and grow by at most one at a time.
first_line : (k m : ℕ) → 0 < m → 1 ≤ k * m → k * m < 1 + m → k ≡ 1
first_line zero m h e f = absurd (omega (arith, zero-mul m, e))
first_line (suc k) m h e f =
    let two : 2 * m ≡ m + m = omega arith in
    let below = smaller (suc k) 2 m (omega (arith, two, f, h)) in omega (arith, below)

next_line :
    (i m k l : ℕ)
    → 0 < m
    → i ≤ k * m
    → k * m < i + m
    → suc i ≤ l * m
    → l * m < suc i + m
    → (l ≡ k) ⊎ (l ≡ suc k)
next_line i m k l h a b c d =
    let up : (l + 1) * m ≡ l * m + m = add-mul l 1 m ∙ ap (λ x. l * m + x) (one-mul m) in
    let up2 : (k + 2) * m ≡ k * m + 2 * m = add-mul k 2 m in
    let low = smaller k (l + 1) m (omega (arith, up, b, c)) in
    let high = smaller l (k + 2) m (omega (arith, up2, a, d, h)) in
    elim (Bool-cases (l == k)) [
      | inl e ↦ inl (ground (arith, e))
      | inr e ↦ inr (ground (arith, e, low, high))
    ]

abbrev pub sum_of : List ℕ → ℕ
sum_of [] = 0
sum_of (c ∷ cs) = c + sum_of cs

abbrev pub AllPositive : List ℕ → Type 0
AllPositive [] = Unit
AllPositive (c ∷ cs) = (0 < c) × AllPositive cs

-- The lines after a round.
abbrev Counted : List ℕ → Option (List ℕ) → (len : ℕ) → Type 0
Counted lines next len =
    (r : List ℕ) × (next ≡ some r)
    × (sum_of r ≡ suc (sum_of lines))
    × (length r ≡ len)
    × (AllPositive lines → AllPositive r)

count_there :
    (lines : List ℕ) (i : ℕ)
    → i < length lines
    → Counted lines (count_at i lines) (length lines) × ((c : ℕ) × (get_elem? lines i ≡ some c))
count_there [] i h = absurd (omega arith)
count_there (c ∷ cs) zero h =
    (((c + 1) ∷ cs, refl, omega arith, refl, λ p. (omega arith, p.1)), (c, refl))
count_there (c ∷ cs) (suc i) h =
    let ((r, e, s, l, p), got) = count_there cs i (omega arith) in
    ((c ∷ r, rw e refl, omega (arith, s), omega (arith, l), λ a. (a.0, p a.1)), got)

count_new :
    (lines : List ℕ)
    → Counted lines (count_at (length lines) (lines ++ 0 ∷ [])) (suc (length lines))
      × (get_elem? lines (length lines) ≡ none)
count_new [] = ((1 ∷ [], refl, refl, refl, λ p. (omega arith, tt)), refl)
count_new (c ∷ cs) =
    let ((r, e, s, l, p), got) = count_new cs in
    ((c ∷ r, rw e refl, omega (arith, s), omega (arith, l), λ a. (a.0, p a.1)), got)

-- A round on the last line, or on a new one after it.
count_in_line_lem :
    (lines : List ℕ) (i : ℕ)
    → (suc i ≡ length lines) ⊎ (i ≡ length lines)
    → Counted lines (count_in_line i lines) (suc i)
count_in_line_lem lines i (inl e) =
    let ((r, f, s, l, p), (c, got)) = count_there lines i (omega (arith, e)) in
    (r, rw got f, s, l ∙ sym e, p)
count_in_line_lem lines i (inr e) =
    let ((r, f, s, l, p), got) = count_new lines in rw e (r, rw got f, s, l, p)

-- What the loop has made up to a window.
abbrev Shared : Quotients → (most i : ℕ) → Type 0
Shared q most i =
    (lines : List ℕ) × (wins_per_line q most (suc i) ≡ some lines)
    × (sum_of lines ≡ suc i)
    × (length lines ≡ q.quotient_ceil (suc i) most)
    × AllPositive lines

length_pos : (lines : List ℕ) → 0 < sum_of lines → 0 < length lines
length_pos [] h = absurd (omega arith)
length_pos (c ∷ cs) h = omega arith

-- The loop never counts past the end, and shares every window out.
pub wins_per_line_lem :
    (q : Quotients) (most i : ℕ)
    → IsRounded q
    → 0 < most
    → most ≤ exact
    → suc i ≤ exact
    → Shared q most i
unfolding wins_per_line
wins_per_line_lem q most zero r h m b =
    let e : q.quotient_ceil 1 most ≡ 1 =
      first_line (q.quotient_ceil 1 most) most h (r.enough 1 most b h m) (r.least 1 most b h m) in
    (1 ∷ [], rw e refl, refl, omega (arith, e), (omega arith, tt))
wins_per_line_lem q most (suc i) r h m b =
    let before : suc i ≤ exact = omega (arith, b) in
    let (lines, e, s, l, p) = wins_per_line_lem q most i r h m before in
    let at = q.quotient_ceil (suc (suc i)) most - 1 in
    let some_line = length_pos lines (omega (arith, s)) in
    let steps =
      next_line (suc i) most (q.quotient_ceil (suc i) most) (q.quotient_ceil (suc (suc i)) most) h
        (r.enough (suc i) most before h m) (r.least (suc i) most before h m)
        (r.enough (suc (suc i)) most b h m) (r.least (suc (suc i)) most b h m) in
    let where_to : (suc at ≡ length lines) ⊎ (at ≡ length lines) = elim steps [
      | inl f ↦ inl (omega (arith, f, l, some_line))
      | inr f ↦ inr (omega (arith, f, l))
    ] in
    let (next, f, t, n, pos) = count_in_line_lem lines at where_to in
    let grown : 0 < q.quotient_ceil (suc (suc i)) most = elim steps [
      | inl g ↦ omega (arith, g, l, some_line)
      | inr g ↦ omega (arith, g)
    ] in
    (next, rw e f, omega (arith, s, t), omega (arith, n, grown), pos p)

max_per_line_le : (q : Quotients) (n : ℕ) → IsRounded q → n ≤ exact → max_per_line q n ≤ exact
max_per_line_le q n r h = elim (Bool-cases (ltb (q.sqrt_round n * q.sqrt_round n) n)) [
  | inl e ↦ rw e (omega (arith, r.root n h))
  | inr e ↦ rw e (omega (arith, r.root n h))
]

max_per_line_pos : (q : Quotients) (n : ℕ) → 0 < max_per_line q (suc n)
max_per_line_pos q n = elim (Bool-cases (q.sqrt_round (suc n) == 0)) [
  | inl e ↦
      let none_yet : q.sqrt_round (suc n) ≡ 0 = ground (arith, e) in rw none_yet (ground arith)
  | inr e ↦ ground (arith, e)
]

module _ {F : Type 0} ⦃fl : Floats F⦄ where
  node_tiles-with_line_label :
      (i : ℕ) (n : Node F) → node_tiles (with_line_label i n) ≡ node_tiles n
  unfolding node_tiles
  node_tiles-with_line_label i (node d nil) = refl
  node_tiles-with_line_label i (node d (cons n ns)) = refl

  nodes_tiles-fair_lines :
      (f : Fair F) (i : ℕ) (lines : List ℕ)
      → AllPositive lines
      → nodes_tiles (fair_lines f i lines) ≡ sum_of lines
  unfolding fair_lines node_tiles
  nodes_tiles-fair_lines f i [] p = refl
  nodes_tiles-fair_lines f i (c ∷ cs) p =
      ap₂ ◌+◌
        (node_tiles-with_line_label i (line_layout (fair_line f) c)
          ∙ node_tiles-line (fair_line f) c p.0)
        (nodes_tiles-fair_lines f (i + 1) cs p.1)

  -- `Fair` makes a layout for any number of windows from one on and up to 2 ^ 24, where its square roots
  -- and quotients are those of whole numbers, rounded: no count of a line is out of bounds, and the
  -- layout has one tile for each window.
  pub fair_layout_lem :
      (q : Quotients) (f : Fair F) (n : ℕ)
      → IsRounded q
      → suc n ≤ exact
      → (t : Node F) × (fair_layout q f (suc n) ≡ some t) × (node_tiles t ≡ suc n)
  unfolding fair_layout
  fair_layout_lem q f zero r b = (_, refl, nodes_tiles-one_child _ _ ∙ node_tiles-leaf _)
  fair_layout_lem q f (suc zero) r b =
      (_, refl, nodes_tiles-two_children _ _ _ ∙ ap₂ ◌+◌ (node_tiles-leaf _) (node_tiles-leaf _))
  fair_layout_lem q f (suc (suc n)) r b =
      let (lines, e, s, l, p) =
        wins_per_line_lem q (max_per_line q (suc (suc (suc n)))) (suc (suc n)) r
          (max_per_line_pos q (suc (suc n))) (max_per_line_le q (suc (suc (suc n))) r b) b in
      let direction : LayoutDir = elim f.axis [ horizontal ↦ column | vertical ↦ row ] in
      (
        node (set_dir direction (fair_root f)) (fair_lines f 0 lines),
        rw e refl,
        node_tiles-node _ _ (suc (suc n)) (nodes_tiles-fair_lines f 0 lines p ∙ s),
      )
