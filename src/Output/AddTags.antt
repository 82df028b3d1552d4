-- ===== src/Output/AddTags.antt =====
-- src/output.rs: which tags `add_tags` replaces, and which it adds.
use pinnacle.Common.{
  ℕ, ◌≡◌, refl, ◌∙◌, ap, true, false, ◌&&◌, ◌||◌, List, [], ◌∷◌, ◌++◌, Option, none, some, arith,
  any, all, elem, Distinct, ◌==◌, if◌then◌else◌, Option-cases, inl, inr,
}
use pinnacle.Deps.{IndexSet}
use pinnacle.State.{Pinnacle, TagInner}
use pinnacle.Tag.{replace_tag}
use pinnacle.Tag.Move.Sets.{elem-extend}
use pinnacle.Output.{skip_to_defunct, add_tags_loop, add_tags}

-- The new tag at the place that `t` has in the list of old ones.
abbrev pub replacement : List ℕ → List ℕ → ℕ → Option ℕ
replacement [] news t = none
replacement (old ∷ olds) [] t = none
replacement (old ∷ olds) (new ∷ news) t =
    let rest = replacement olds news t in if old == t then some new else rest

-- The new tags that no old one makes room for.
abbrev pub left_over : List ℕ → List ℕ → List ℕ
left_over [] news = news
left_over (old ∷ olds) [] = []
left_over (old ∷ olds) (new ∷ news) = left_over olds news

abbrev pub replaced : (ℕ → TagInner) → Option ℕ → ℕ → TagInner
replaced cells none t = cells t
replaced cells (some new) t = record (cells new) { defunct = false }

-- The tags that `add_tags` writes over: from the first defunct one on.
abbrev pub olds_of : ℕ → Pinnacle → List ℕ
olds_of o p = skip_to_defunct p (p.output_states o).tags

-- No member in common.
abbrev pub Apart : List ℕ → List ℕ → Type 0
Apart xs ys = (a : ℕ) → elem a xs ≡ true → elem a ys ≡ false

replacement-elem :
    (olds news : List ℕ) (t n : ℕ) → replacement olds news t ≡ some n → elem n news ≡ true
replacement-elem [] news t n e = cc
replacement-elem (old ∷ olds) [] t n e = cc
replacement-elem (old ∷ olds) (new ∷ news) t n e = ground (arith, replacement-elem olds news t n)

replacement-absent :
    (olds news : List ℕ) (t : ℕ) → elem t olds ≡ false → replacement olds news t ≡ none
replacement-absent [] news t h = refl
replacement-absent (old ∷ olds) [] t h = refl
replacement-absent (old ∷ olds) (new ∷ news) t h = ground (arith, replacement-absent olds news t)

left_over-nil : (olds : List ℕ) → left_over olds [] ≡ []
left_over-nil [] = refl
left_over-nil (old ∷ olds) = refl

-- One replacement leaves the contents of all tags but the old one.
replace-other :
    (old new : ℕ) (p : Pinnacle) (t : ℕ)
    → (replace_tag old new p).tag_cells t
      ≡ (if t == old then record (p.tag_cells new) { defunct = false } else p.tag_cells t)
unfolding replace_tag
replace-other old new p t = refl

module _ ⦃ix : IndexSet⦄ where
  loop-cells :
      (o : ℕ) (olds news : List ℕ) (p : Pinnacle)
      → Distinct olds
      → Apart olds news
      → (t : ℕ)
      → (add_tags_loop o olds news p).tag_cells t ≡ replaced p.tag_cells (replacement olds news t) t
  unfolding add_tags_loop
  loop-cells o [] [] p d a t = refl
  loop-cells o (old ∷ olds) [] p d a t = refl
  loop-cells o [] (new ∷ news) p d a t = refl
  loop-cells o (old ∷ olds) (new ∷ news) p d a t =
      let q = replace_tag old new p in
      let rest : Apart olds news = λ x h. ground (arith, a x) in
      let own : elem old (new ∷ news) ≡ false = a old (ground arith) in
      loop-cells o olds news q d.1 rest t ∙ (elim (Option-cases (replacement olds news t)) [
        | inl e ↦ rw e (ground (arith, replace-other old new p t))
        | inr (n, e) ↦ rw e (
            ground (
              arith,
              replace-other old new p n,
              replacement-elem olds news t n e,
              own,
              d.0,
              replacement-absent olds news t,
            ))
      ])

  loop-outputs :
      (o : ℕ) (olds news : List ℕ) (p : Pinnacle) (x t : ℕ)
      → elem t ((add_tags_loop o olds news p).output_states x).tags
        ≡ (elem t (p.output_states x).tags || ((x == o) && elem t (left_over olds news)))
  unfolding add_tags_loop
  loop-outputs o [] [] p x t = ground arith
  loop-outputs o (old ∷ olds) [] p x t = ground arith
  loop-outputs o [] (new ∷ news) p x t =
      ground (arith, elem-extend (p.output_states o).tags (new ∷ news) t)
  loop-outputs o (old ∷ olds) (new ∷ news) p x t =
      unfold replace_tag in loop-outputs o olds news (replace_tag old new p) x t

  elem-skip :
      (p : Pinnacle) (ts : List ℕ) (t : ℕ) → elem t (skip_to_defunct p ts) ≡ true → elem t ts ≡ true
  unfolding skip_to_defunct
  elem-skip p [] t h = h
  elem-skip p (x ∷ xs) t h = ground (arith, elem-skip p xs t)

  Distinct-skip : (p : Pinnacle) (ts : List ℕ) → Distinct ts → Distinct (skip_to_defunct p ts)
  unfolding skip_to_defunct
  Distinct-skip p [] d = tt
  Distinct-skip p (x ∷ xs) d = ground (arith, Distinct-skip p xs d.1)

  -- `add_tags` gives the contents of the new tags, one for one, to the tags from the first defunct
  -- one on, whether these are defunct themselves or not, and leaves all other tags as they are; only
  -- the new tags that remain are added to the output, and no other output changes.
  pub add_tags_lem :
      (o : ℕ) (news : List ℕ) (p : Pinnacle)
      → Distinct (p.output_states o).tags
      → Apart (p.output_states o).tags news
      → ((t : ℕ)
          → (add_tags o news p).tag_cells t
            ≡ replaced p.tag_cells (replacement (olds_of o p) news t) t)
        × ((x t : ℕ)
            → elem t ((add_tags o news p).output_states x).tags ≡ (
                elem t (p.output_states x).tags
                || ((x == o) && elem t (left_over (olds_of o p) news))))
  unfolding add_tags
  add_tags_lem o news p d a = (
    loop-cells o (olds_of o p) news p (Distinct-skip p (p.output_states o).tags d)
        (λ x h. a x (elem-skip p (p.output_states o).tags x h)),
    loop-outputs o (olds_of o p) news p,
  )

  -- A tag that is not defunct keeps its contents, where no such tag comes after a defunct one.
  pub add_tags_keeps_live :
      (o : ℕ) (news : List ℕ) (p : Pinnacle) (t : ℕ)
      → Distinct (p.output_states o).tags
      → Apart (p.output_states o).tags news
      → all (λ x. (p.tag_cells x).defunct) (olds_of o p) ≡ true
      → (p.tag_cells t).defunct ≡ false
      → (add_tags o news p).tag_cells t ≡ p.tag_cells t
  add_tags_keeps_live o news p t d a live_first live =
      (add_tags_lem o news p d a).0 t
      ∙ ap (λ r. replaced p.tag_cells r t)
          (replacement-absent (olds_of o p) news t (not_in_all (olds_of o p) live_first))
    where
      not_in_all : (xs : List ℕ) → all (λ x. (p.tag_cells x).defunct) xs ≡ true → elem t xs ≡ false
      not_in_all [] h = refl
      not_in_all (x ∷ xs) h = ground (arith, not_in_all xs)

  skip_live :
      (p : Pinnacle) (lives rest : List ℕ) (d : ℕ)
      → any (λ x. (p.tag_cells x).defunct) lives ≡ false
      → (p.tag_cells d).defunct ≡ true
      → skip_to_defunct p (lives ++ d ∷ rest) ≡ d ∷ rest
  unfolding skip_to_defunct
  skip_live p [] rest d h e = ground arith
  skip_live p (x ∷ xs) rest d h e = ground (arith, skip_live p xs rest d)

  -- Where a tag that is not defunct comes right after the first defunct one, two new tags are enough
  -- to overwrite it with the second of them, and neither new tag is then on the output: whoever
  -- holds the new tag itself holds one that no output has.
  pub add_tags_overwrites_live :
      (o a b defunct live : ℕ) (lives rest : List ℕ) (p : Pinnacle)
      → Distinct (p.output_states o).tags
      → Apart (p.output_states o).tags (a ∷ b ∷ [])
      → (p.output_states o).tags ≡ lives ++ defunct ∷ live ∷ rest
      → any (λ x. (p.tag_cells x).defunct) lives ≡ false
      → (p.tag_cells defunct).defunct ≡ true
      → (p.tag_cells live).defunct ≡ false
      → ((add_tags o (a ∷ b ∷ []) p).tag_cells live ≡ record (p.tag_cells b) { defunct = false })
        × (elem a ((add_tags o (a ∷ b ∷ []) p).output_states o).tags ≡ false)
        × (elem b ((add_tags o (a ∷ b ∷ []) p).output_states o).tags ≡ false)
  add_tags_overwrites_live o a b defunct live lives rest p d apart shape h e l =
      let olds : olds_of o p ≡ defunct ∷ live ∷ rest =
        ap (skip_to_defunct p) shape ∙ skip_live p lives (live ∷ rest) defunct h e in
      let (cells, outputs) = add_tags_lem o (a ∷ b ∷ []) p d apart in
      (
        cells live ∙ rw olds (ground arith),
        outputs o a ∙ rw (olds, left_over-nil rest) (ground (arith, apart a)),
        outputs o b ∙ rw (olds, left_over-nil rest) (ground (arith, apart b)),
      )
