-- ===== src/Client/Generators/Fair.antt =====
-- api/rust/src/layout/generators.rs: `Fair`, which shares the windows out among lines. The square root
-- and the quotient are of `f32`s, rounded to integers: a parameter.
pub mod Tiles
use pinnacle.Common.{
  ℕ, zero, suc, ◌+◌, ◌*◌, ◌-◌, List, [], ◌∷◌, ◌++◌, Option, ◌>>=◌, none, some, map, ltb,
  if◌then◌else◌, get_elem?, false,
}
use pinnacle.Layout.Tree.{numbered, text}
use pinnacle.Client.Node.{
  LayoutDir, row, column, Gaps, LayoutNodeInner, Node, Nodes, node, nil, cons, Floats, uniform,
  new_inner, new_with_label, set_dir, set_gaps, one_child, two_children,
}
use pinnacle.Client.Generators.{Line, line_layout}

pub data Axis : Type 0 where
  horizontal vertical : Axis

pub record Fair (F : Type 0) : Type 0 where
  pub outer_gaps : Gaps F
  pub inner_gaps : Gaps F
  pub axis : Axis

-- `(n as f32).sqrt().round() as u32` and `(i as f32 / n as f32).ceil() as usize`.
pub record Quotients : Type 0 where
  pub sqrt_round : ℕ → ℕ
  pub quotient_ceil : ℕ → ℕ → ℕ

-- `wins_per_line[index] += 1`, which panics past the end.
abbrev pub count_at : ℕ → List ℕ → Option (List ℕ)
count_at i [] = none
count_at zero (c ∷ cs) = some ((c + 1) ∷ cs)
count_at (suc i) (c ∷ cs) = do rest ← count_at i cs; some (c ∷ rest)

-- A line that is not there yet is pushed.
abbrev pub with_line : Option ℕ → List ℕ → List ℕ
with_line none lines = lines ++ 0 ∷ []
with_line (some c) lines = lines

-- A round of the loop.
abbrev pub count_in_line : ℕ → List ℕ → Option (List ℕ)
count_in_line index lines = count_at index (with_line (get_elem? lines index) lines)

abbrev pub max_per_line : Quotients → ℕ → ℕ
max_per_line q win_count =
    let line_count = q.sqrt_round win_count in
    if ltb (line_count * line_count) win_count then line_count + 1 else line_count

-- The loop over the windows, up to window `i`.
unfoldable pub wins_per_line : Quotients → (most : ℕ) → (i : ℕ) → Option (List ℕ)
wins_per_line q most zero = some []
wins_per_line q most (suc i) = do
  lines ← wins_per_line q most i
  count_in_line (q.quotient_ceil (suc i) most - 1) lines

module _ {F : Type 0} ⦃fl : Floats F⦄ where
  abbrev pub fair_child : Fair F → ℕ → Node F
  fair_child f i =
      node (set_gaps f.inner_gaps (new_inner (some (numbered "builtin.fair.line" (i ∷ []))) 0)) nil

  abbrev pub fair_line : Fair F → Line F
  fair_line f = record {
    outer_gaps = uniform fl.zero_f32;
    inner_gaps = f.inner_gaps;
    direction = elim f.axis [ horizontal ↦ row | vertical ↦ column ];
    reversed = false;
  }

  abbrev pub with_line_label : ℕ → Node F → Node F
  with_line_label i (node n ns) =
      node (record n { label = some (numbered "builtin.fair.line" (i ∷ [])) }) ns

  unfoldable pub fair_lines : Fair F → (from : ℕ) → List ℕ → Nodes F
  unfolding line_layout
  fair_lines f i [] = nil
  fair_lines f i (c ∷ cs) =
      cons (with_line_label i (line_layout (fair_line f) c)) (fair_lines f (i + 1) cs)

  abbrev pub fair_root : Fair F → LayoutNodeInner F
  fair_root f = set_gaps f.outer_gaps (new_with_label "builtin.fair")

  unfoldable pub fair_layout : Quotients → Fair F → ℕ → Option (Node F)
  unfolding fair_lines wins_per_line
  fair_layout q f zero = some (node (fair_root f) nil)
  fair_layout q f (suc zero) = some (node (fair_root f) (one_child (fair_child f 0)))
  fair_layout q f (suc (suc zero)) =
      some (node (fair_root f) (two_children (fair_child f 0) (fair_child f 1)))
  fair_layout q f (suc (suc (suc n))) = do
    lines ← wins_per_line q (max_per_line q (suc (suc (suc n)))) (suc (suc (suc n)))
    some (
        node (set_dir (elim f.axis [ horizontal ↦ column | vertical ↦ row ]) (fair_root f))
          (fair_lines f 0 lines))
