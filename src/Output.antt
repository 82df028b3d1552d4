-- ===== src/Output.antt =====
-- src/output.rs: the tags of an output.
pub mod AddTags
use Prim.Native.String.{String}
use text.Mathlib.Text.{◌==◌ as str_eq}
use pinnacle.Common.{
  ℕ, Bool, true, false, not, List, [], ◌∷◌, ◌++◌, Option, none, some, find, retain, if◌then◌else◌,
}
use pinnacle.Deps.{IndexSet}
use pinnacle.State.{Pinnacle, OutputState, modify_output}
use pinnacle.Tag.{replace_tag}

-- `OutputName::output`.
unfoldable pub output_by_name : String → Pinnacle → Option ℕ
output_by_name name p = find (λ o. str_eq (p.output_states o).name name) p.outputs

unfoldable pub focused_tags : ℕ → Pinnacle → List ℕ
focused_tags output p = retain (λ t. (p.tag_cells t).active) (p.output_states output).tags

-- `self.tags.iter().skip_while(|tag| !tag.defunct())`.
unfoldable pub skip_to_defunct : Pinnacle → List ℕ → List ℕ
skip_to_defunct p [] = []
skip_to_defunct p (t ∷ ts) =
    let rest = skip_to_defunct p ts in if not (p.tag_cells t).defunct then rest else t ∷ ts

module _ ⦃ix : IndexSet⦄ where
  -- `IndexSet::extend`, and `collect` into a set.
  unfoldable pub extend : List ℕ → List ℕ → List ℕ
  extend s [] = s
  extend s (x ∷ xs) = extend (ix.insert s x).0 xs

  -- The loop of `add_tags` over the tags from the first defunct one on, and the `extend` by what is
  -- left of the new tags. `skip_while` is lazy, but it tests no tag after the first defunct one.
  unfoldable pub add_tags_loop : ℕ → List ℕ → List ℕ → Pinnacle → Pinnacle
  unfolding replace_tag extend
  add_tags_loop output old [] p = p
  add_tags_loop output [] (new ∷ news) p =
      modify_output output (λ s. record s { tags = extend s.tags (new ∷ news) }) p
  add_tags_loop output (old ∷ olds) (new ∷ news) p =
      add_tags_loop output olds news (replace_tag old new p)

  unfoldable pub add_tags : ℕ → List ℕ → Pinnacle → Pinnacle
  unfolding add_tags_loop skip_to_defunct
  add_tags output new p =
      add_tags_loop output (skip_to_defunct p (p.output_states output).tags) new p
