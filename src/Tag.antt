-- ===== src/Tag.antt =====
-- src/tag.rs: tags. A `Tag` is an `Arc`, so two tags are equal when their pointers are.
pub mod Api
pub mod Move
use Prim.Native.String.{String}
use pinnacle.Common.{
  ℕ, ◌+◌, ◌%◌, Bool, true, false, not, ◌&&◌, ◌||◌, List, [], ◌∷◌, Option, none, some, find, retain,
  ◌==◌, if◌then◌else◌,
}
use pinnacle.Deps.{IndexSet}
use pinnacle.State.{Pinnacle, TagInner, update}

-- `TagId::next`: the counter's value, and the counter moved on (`fetch_add` on a `u32` wraps).
unfoldable pub next_tag_id : Pinnacle → ℕ × Pinnacle
next_tag_id p =
    (p.tag_id_counter, record p { tag_id_counter = (p.tag_id_counter + 1) % 4294967296 })

unfoldable pub reset_tag_ids : Pinnacle → Pinnacle
reset_tag_ids p = record p { tag_id_counter = 0 }

-- `Tag::new`.
unfoldable pub new_tag : String → Pinnacle → ℕ × Pinnacle
unfolding next_tag_id
new_tag name p =
    let (id, q) = next_tag_id p in
    (
      q.next_tag,
      record q {
        tag_cells =
            update q.tag_cells q.next_tag
              (record { id = id; name = name; active = false; defunct = false });
        next_tag = q.next_tag + 1;
      },
    )

-- `tag_names.into_iter().map(Tag::new).collect()`.
unfoldable pub new_tags : List String → Pinnacle → List ℕ × Pinnacle
unfolding new_tag
new_tags [] p = ([], p)
new_tags (name ∷ names) p =
    let (tag, q) = new_tag name p in let (tags, r) = new_tags names q in (tag ∷ tags, r)

-- `Tag::replace`: the contents of the other tag, not defunct.
unfoldable pub replace_tag : ℕ → ℕ → Pinnacle → Pinnacle
replace_tag tag new_tag p =
    let inner = p.tag_cells new_tag in
    record p { tag_cells = update p.tag_cells tag (record inner { defunct = false }) }

abbrev differs : Bool → Bool → Bool
differs true b = not b
differs false b = b

-- `Tag::set_active`: also whether the state changed.
unfoldable pub set_tag_active : ℕ → Bool → Pinnacle → Pinnacle × Bool
set_tag_active tag active p =
    let inner = p.tag_cells tag in
    (
      record p { tag_cells = update p.tag_cells tag (record inner { active = active }) },
      differs inner.active active,
    )

unfoldable pub make_defunct : ℕ → Pinnacle → Pinnacle
make_defunct tag p =
    let inner = p.tag_cells tag in
    record p { tag_cells = update p.tag_cells tag (record inner { defunct = true }) }

-- `TagId::tag`: the first tag with that id on some output that is not defunct.
abbrev find_tag : ℕ → List ℕ → Pinnacle → Option ℕ
find_tag id [] p = none
find_tag id (output ∷ outputs) p =
    let rest = find_tag id outputs p in
    elim (find (λ t. (p.tag_cells t).id == id)
      (retain (λ t. not (p.tag_cells t).defunct) (p.output_states output).tags)) [
        | some t ↦ some t
        | none ↦ rest
      ]

unfoldable pub tag_of_id : ℕ → Pinnacle → Option ℕ
tag_of_id id p = find_tag id p.outputs p

module _ ⦃ix : IndexSet⦄ where
  -- `Tag::output`.
  unfoldable pub tag_output : ℕ → Pinnacle → Option ℕ
  tag_output tag p = find (λ o. ix.contains (p.output_states o).tags tag) p.outputs
