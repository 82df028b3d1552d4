-- ===== src/Tag/Move/Sets.antt =====
-- src/api/tag.rs: the sets that `move_to_output` computes.
use mathlib.Core.List.{append-nil, append_assoc}
use pinnacle.Common.{
  Bool-cases, ap, ap₂, inl, inr, ℕ, ◌≡◌, refl, ◌∙◌, sym, Bool, true, false, not, ◌&&◌, ◌||◌, List,
  [], ◌∷◌, ◌++◌, arith, any, retain, elem, elem-append, elem-without, elem-retain, ◌==◌,
  if◌then◌else◌,
}
use pinnacle.Deps.{IndexSet}
use pinnacle.State.{Pinnacle}
use pinnacle.Output.{extend}
use pinnacle.Tag.Move.{tags_of_outputs, tags_on_other_outputs, check_windows, insert_all, shift_all}

-- Some tag of the window is in the list.
abbrev pub touches : Pinnacle → List ℕ → ℕ → Bool
touches p ts w = any (λ t. elem t ts) (p.window_states w).tags

any-elem : (f : ℕ → Bool) (a : ℕ) (xs : List ℕ) → elem a xs ≡ true → f a ≡ true → any f xs ≡ true
any-elem f a [] h e = cc
any-elem f a (x ∷ xs) h e = ground (arith, any-elem f a xs)

pub any-retain_eq :
    (f : ℕ → Bool) (a : ℕ) (xs : List ℕ) → elem a xs ≡ true → any f xs ≡ false → f a ≡ false
any-retain_eq f a [] h e = cc
any-retain_eq f a (x ∷ xs) h e = ground (arith, any-retain_eq f a xs)

pub elem-tags_of_outputs :
    (p : Pinnacle) (o t : ℕ) (os : List ℕ)
    → elem o os ≡ true
    → elem t (p.output_states o).tags ≡ true
    → elem t (tags_of_outputs p os) ≡ true
elem-tags_of_outputs p o t [] h e = cc
elem-tags_of_outputs p o t (x ∷ os) h e = ground (
  arith,
  elem-append t (p.output_states x).tags (tags_of_outputs p os),
  elem-tags_of_outputs p o t os,
)

append_if :
    (b : Bool) (xs : List ℕ) (w : ℕ) (ys : List ℕ)
    → (if b then xs ++ w ∷ [] else xs) ++ ys ≡ xs ++ (if b then w ∷ ys else ys)
append_if true xs w ys = append_assoc xs (w ∷ []) ys
append_if false xs w ys = refl

module _ ⦃ix : IndexSet⦄ where
  pub elem-insert : (s : List ℕ) (x a : ℕ) → elem a (ix.insert s x).0 ≡ (elem a s || (x == a))
  elem-insert s x a = ground (arith, ix.insert_lem s x, elem-append a s (x ∷ []))

  elem_if :
      (b : Bool) (s : List ℕ) (x i : ℕ) (later : Bool)
      → (elem i (if b then (ix.insert s x).0 else s) || later)
        ≡ (elem i s || ((b && (x == i)) || later))
  elem_if true s x i later = ground (arith, elem-insert s x i)
  elem_if false s x i later = refl

  pub elem-extend : (s xs : List ℕ) (a : ℕ) → elem a (extend s xs) ≡ (elem a s || elem a xs)
  unfolding extend
  elem-extend s [] a = ground arith
  elem-extend s (x ∷ xs) a = ground (arith, elem-extend (ix.insert s x).0 xs a, elem-insert s x a)

  pub elem-insert_all :
      (ts s : List ℕ) (b : Bool) (a : ℕ) → elem a (insert_all ts s b).0 ≡ (elem a s || elem a ts)
  unfolding insert_all
  elem-insert_all [] s b a = ground arith
  elem-insert_all (t ∷ ts) s b a =
      ground
        (arith, elem-insert_all ts (ix.insert s t).0 ((ix.insert s t).1 || b) a, elem-insert s t a)

  pub elem-shift_all :
      (ts s : List ℕ) (b : Bool) (a : ℕ)
      → elem a (shift_all ts s b).0 ≡ (elem a s && not (elem a ts))
  unfolding shift_all
  elem-shift_all [] s b a = ground arith
  elem-shift_all (t ∷ ts) s b a = ground (
    arith,
    elem-shift_all ts (ix.shift_remove s t).0 ((ix.shift_remove s t).1 || b) a,
    ix.shift_remove_lem s t,
    elem-without t a s,
  )

  elem-tags_of_others :
      (p : Pinnacle) (q : ℕ → Bool) (t : ℕ) (os : List ℕ)
      → elem t (tags_of_outputs p (retain q os))
        ≡ any (λ o. q o && elem t (p.output_states o).tags) os
  elem-tags_of_others p q t [] = refl
  elem-tags_of_others p q t (o ∷ os) = elim (Bool-cases (q o)) [
    | inl e ↦ rw e (
        elem-append t (p.output_states o).tags (tags_of_outputs p (retain q os))
        ∙ ap (λ b. elem t (p.output_states o).tags || b) (elem-tags_of_others p q t os))
    | inr e ↦ rw e (elem-tags_of_others p q t os)
  ]

  -- What `tags_on_other_outputs` holds, told by itself.
  pub tags_on_other_outputs_lem :
      (p : Pinnacle) (new_output : ℕ) (to_move : List ℕ) (t : ℕ)
      → elem t (tags_on_other_outputs p new_output to_move) ≡ (
          not (elem t to_move)
          && any (λ o. not (o == new_output) && elem t (p.output_states o).tags) p.outputs)
  unfolding tags_on_other_outputs
  tags_on_other_outputs_lem p new_output to_move t =
      let candidates = tags_of_outputs p (retain (λ o. not (o == new_output)) p.outputs) in
      elem-extend [] (retain (λ x. not (ix.contains to_move x)) candidates) t
      ∙ elem-retain (λ x. not (ix.contains to_move x)) t candidates
      ∙ ap₂ ◌&&◌ (ap not (ix.contains_lem to_move t))
          (elem-tags_of_others p (λ o. not (o == new_output)) t p.outputs)

  -- A tag that another output has, and that does not move, is elsewhere.
  pub elem-elsewhere :
      (p : Pinnacle) (new_output o t : ℕ) (to_move : List ℕ)
      → elem o p.outputs ≡ true
      → (o == new_output) ≡ false
      → elem t (p.output_states o).tags ≡ true
      → elem t to_move ≡ false
      → elem t (tags_on_other_outputs p new_output to_move) ≡ true
  unfolding tags_on_other_outputs
  elem-elsewhere p new_output o t to_move ho hn ht hm =
      let others = retain (λ x. not (x == new_output)) p.outputs in
      let candidates = tags_of_outputs p others in
      ground (
        arith,
        elem-extend [] (retain (λ x. not (ix.contains to_move x)) candidates) t,
        elem-retain (λ x. not (ix.contains to_move x)) t candidates,
        ix.contains_lem to_move t,
        elem-tags_of_outputs p o t others,
        elem-retain (λ x. not (x == new_output)) o p.outputs,
      )

  not_disjoint :
      (p : Pinnacle) (ts : List ℕ) (w : ℕ)
      → not (ix.is_disjoint (p.window_states w).tags ts) ≡ touches p ts w
  not_disjoint p ts w = ground (arith, ix.is_disjoint_lem (p.window_states w).tags ts)

  -- The windows that the move is about, in order.
  pub check_windows-updates :
      (p : Pinnacle) (tm el problems updates ws : List ℕ)
      → (check_windows p tm el problems updates ws).1 ≡ updates ++ retain (touches p tm) ws
  unfolding check_windows
  check_windows-updates p tm el problems updates [] = sym (append-nil updates)
  check_windows-updates p tm el problems updates (w ∷ ws) =
      let torn = touches p tm w && touches p el w in
      let problems' = if torn then (ix.insert problems (p.window_states w).id).0 else problems in
      let updates' = if touches p tm w then updates ++ w ∷ [] else updates in
      rw (not_disjoint p tm w, not_disjoint p el w, check_windows)
        (check_windows-updates p tm el problems' updates' ws
          ∙ append_if (touches p tm w) updates w (retain (touches p tm) ws))

  -- The ids that are reported are those of the windows that the move would tear apart.
  pub check_windows-problems :
      (p : Pinnacle) (tm el problems updates ws : List ℕ) (i : ℕ)
      → elem i (check_windows p tm el problems updates ws).0 ≡ (
          elem i problems
          || any (λ w. (touches p tm w && touches p el w) && ((p.window_states w).id == i)) ws)
  unfolding check_windows
  check_windows-problems p tm el problems updates [] i = ground arith
  check_windows-problems p tm el problems updates (w ∷ ws) i =
      let torn = touches p tm w && touches p el w in
      let id = (p.window_states w).id in
      let problems' = if torn then (ix.insert problems id).0 else problems in
      let updates' = if touches p tm w then updates ++ w ∷ [] else updates in
      rw (not_disjoint p tm w, not_disjoint p el w, check_windows)
        (check_windows-problems p tm el problems' updates' ws i
          ∙ elem_if torn problems id i
              (any (λ v. (touches p tm v && touches p el v) && ((p.window_states v).id == i)) ws))
