-- ===== src/Tag/Api/Switch.antt =====
-- src/api/tag.rs: what `set_active` and `switch_to` do to the tags of every output.
use pinnacle.Common.{
  ℕ, ◌≡◌, refl, ◌∙◌, ap, Bool, true, false, List, [], ◌∷◌, Option, none, some, arith, find, elem,
  ◌==◌, if◌then◌else◌,
}
use pinnacle.Deps.{IndexSet}
use pinnacle.State.{Pinnacle, TagInner}
use pinnacle.Tag.{tag_output}
use pinnacle.Layout.Request.{update_xwayland_stacking_order}
use pinnacle.Layout.Request.Frame.{OnlyLogs, stacking-OnlyLogs, request_layout-OnlyLogs}
use pinnacle.Tag.Api.{
  set_active_signalling, deactivate, refresh_output, switch_to, set_active, toggle_or,
}

abbrev pub with_active : Bool → TagInner → TagInner
with_active b t = record t { active = b }

cells-signalling :
    (tag : ℕ) (b : Bool) (p : Pinnacle) (t : ℕ)
    → (set_active_signalling tag b p).tag_cells t
      ≡ (if t == tag then with_active b (p.tag_cells tag) else p.tag_cells t)
unfolding set_active_signalling
cells-signalling tag b p t = ground arith

outputs-signalling :
    (tag : ℕ) (b : Bool) (p : Pinnacle)
    → (set_active_signalling tag b p).output_states ≡ p.output_states
unfolding set_active_signalling
outputs-signalling tag b p = ground arith

cells-deactivate :
    (ts : List ℕ) (p : Pinnacle) (t : ℕ)
    → (deactivate ts p).tag_cells t
      ≡ (if elem t ts then with_active false (p.tag_cells t) else p.tag_cells t)
unfolding deactivate
cells-deactivate [] p t = refl
cells-deactivate (x ∷ xs) p t =
    ground
      (arith, cells-deactivate xs (set_active_signalling x false p) t, cells-signalling x false p t)

outputs-deactivate :
    (ts : List ℕ) (p : Pinnacle) → (deactivate ts p).output_states ≡ p.output_states
unfolding deactivate
outputs-deactivate [] p = refl
outputs-deactivate (x ∷ xs) p = outputs-deactivate xs _ ∙ outputs-signalling x false p

find-some : (f : ℕ → Bool) (xs : List ℕ) (a : ℕ) → find f xs ≡ some a → f a ≡ true
find-some f [] a e = cc
find-some f (x ∷ xs) a e = ground (arith, find-some f xs a)

module _ ⦃ix : IndexSet⦄ where
  pub refresh-OnlyLogs : (o : ℕ) (p : Pinnacle) → OnlyLogs (refresh_output o p) p
  unfolding refresh_output
  refresh-OnlyLogs o p =
      ground
        (arith, request_layout-OnlyLogs o (update_xwayland_stacking_order p), stacking-OnlyLogs p)

  pub tag_output-elem :
      (tag o : ℕ) (p : Pinnacle)
      → tag_output tag p ≡ some o
      → elem tag (p.output_states o).tags ≡ true
  unfolding tag_output
  tag_output-elem tag o p e =
      rw (ix.contains_lem (p.output_states o).tags tag) at (find-some _ p.outputs o e)

  -- Switching to a tag makes it the one active tag of its output, leaves the tags of all other
  -- outputs as they were, and changes nothing of a tag but whether it is active.
  pub tag_cells-switch_to :
      (tag o : ℕ) (p : Pinnacle)
      → tag_output tag p ≡ some o
      → (t : ℕ)
      → (switch_to tag p).tag_cells t ≡ (
          if elem t (p.output_states o).tags
          then with_active (t == tag) (p.tag_cells t)
          else p.tag_cells t)
  unfolding switch_to
  tag_cells-switch_to tag o p e t =
      let ts = (p.output_states o).tags in
      let q = deactivate ts p in
      rw (e, switch_to)
        (ground (
          arith,
          ap (λ (r : Pinnacle). r.tag_cells t)
              (refresh-OnlyLogs o (set_active_signalling tag true q)),
          cells-signalling tag true q t,
          cells-deactivate ts p t,
          cells-deactivate ts p tag,
          tag_output-elem tag o p e,
        ))

  -- `set_active(None)` toggles the tag and `set_active(Some(b))` sets it to `b`, where the tag is on
  -- some output; on none, nothing happens at all. No other tag changes.
  pub tag_cells-set_active :
      (tag : ℕ) (set : Option Bool) (p : Pinnacle)
      → (tag_output tag p ≡ none → set_active tag set p ≡ p)
        × ((o t : ℕ)
            → tag_output tag p ≡ some o
            → (set_active tag set p).tag_cells t ≡ (
                if t == tag
                then with_active (toggle_or set (p.tag_cells tag).active) (p.tag_cells tag)
                else p.tag_cells t))
  unfolding set_active
  tag_cells-set_active tag set p = (
    λ e. rw (e, set_active),
    λ o t e.
        let b = toggle_or set (p.tag_cells tag).active in
        rw (e, set_active)
          (ground (
            arith,
            ap (λ (r : Pinnacle). r.tag_cells t)
                (refresh-OnlyLogs o (set_active_signalling tag b p)),
            cells-signalling tag b p t,
          )),
  )
