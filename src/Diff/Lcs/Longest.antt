-- ===== src/Diff/Lcs/Longest.antt =====
-- src/util/treediff.rs: what `lcs` computes is a common subsequence, and no other is longer.
use pinnacle.Common.{
  suc, ◌≤◌, ◌≡◌, refl, ◌∙◌, ap, sym, subst, Bool, true, List, [], ◌∷◌, length, length-append, ltb,
  arith, Bool-cases, inl, inr,
}
use pinnacle.Diff.Lcs.Subsequences.{
  onto, onto-append_one, length-onto, onto_twice, IsCommon, done, skip_left, skip_right, match_both,
  IsCommon-onto, skip_all,
}
use pinnacle.Diff.Lcs.{entry, row_from, rows, first_row, last_or, lcs}

module _ {ℓ} {A : Type ℓ} (equals : A → A → Bool) where
  -- What the table holds for two prefixes, which are given from their ends.
  abbrev pub best : List A → List A → List (A × A)
  best [] ys = []
  best (x ∷ xs) [] = []
  best (x ∷ xs) (y ∷ ys) =
      let both = best xs ys in
      let above = best xs (y ∷ ys) in
      let before = best (x ∷ xs) ys in entry equals x y both above before

  best-nil : (xs : List A) → best xs [] ≡ []
  best-nil [] = refl
  best-nil (x ∷ xs) = refl

  entry-match :
      (x y : A) (d u l : List (A × A))
      → equals x y ≡ true
      → length (entry equals x y d u l) ≡ suc (length d)
  entry-match x y d u l e = ground (arith, length-append d ((x, y) ∷ []))

  -- Where the three entries next to it differ by one at most, an entry is no shorter than the two it
  -- adjoins, and by one at most longer than the third.
  entry-bounds :
      (x y : A) (d u l : List (A × A))
      → (length d ≤ length u) × (length u ≤ suc (length d))
      → (length d ≤ length l) × (length l ≤ suc (length d))
      → (length u ≤ length (entry equals x y d u l))
        × (length l ≤ length (entry equals x y d u l))
        × (length (entry equals x y d u l) ≤ suc (length d))
  entry-bounds x y d u l hu hl = elim (Bool-cases (equals x y)) [
    | inl e ↦ ground (arith, entry-match x y d u l e)
    | inr e ↦ ground arith
  ]

  -- One more element makes the best subsequence longer by one at most, and never shorter.
  abbrev GrowsByOne : List A → List A → Type ℓ
  GrowsByOne xs ys =
      ((x : A)
        → (length (best xs ys) ≤ length (best (x ∷ xs) ys))
          × (length (best (x ∷ xs) ys) ≤ suc (length (best xs ys))))
      × ((y : A)
          → (length (best xs ys) ≤ length (best xs (y ∷ ys)))
            × (length (best xs (y ∷ ys)) ≤ suc (length (best xs ys))))

  best-GrowsByOne : (xs ys : List A) → GrowsByOne xs ys
  best-GrowsByOne [] [] = (λ x. (ground arith, ground arith), λ y. (ground arith, ground arith))
  best-GrowsByOne [] (y ∷ ys) = (
    λ x.
        let h =
          entry-bounds x y [] [] (best (x ∷ []) ys) (omega arith, omega arith)
            ((best-GrowsByOne [] ys).0 x) in
        (omega arith, h.2),
    λ z. (omega arith, omega arith),
  )
  best-GrowsByOne (x ∷ xs) [] = (
    λ z. (omega arith, omega arith),
    λ y.
        let h =
          entry-bounds x y (best xs []) (best xs (y ∷ [])) [] ((best-GrowsByOne xs []).1 y)
            (ground (arith, best-nil xs), omega arith) in
        (omega arith, ground (arith, h, best-nil xs)),
  )
  best-GrowsByOne (x ∷ xs) (y ∷ ys) =
      let left = best-GrowsByOne xs (y ∷ ys) in
      let right = best-GrowsByOne (x ∷ xs) ys in
      (
        λ z.
            let h =
              entry-bounds z y (best (x ∷ xs) ys) (best (x ∷ xs) (y ∷ ys)) (best (z ∷ x ∷ xs) ys)
                (right.1 y) (right.0 z) in
            (h.0, omega (arith, h, right.1 y)),
        λ z.
            let h =
              entry-bounds x z (best xs (y ∷ ys)) (best xs (z ∷ y ∷ ys)) (best (x ∷ xs) (y ∷ ys))
                (left.1 z) (left.0 x) in
            (h.1, omega (arith, h, left.0 x)),
      )

  IsCommon-le :
      {xs ys : List A} {s : List (A × A)} → IsCommon equals xs ys s → length s ≤ length (best xs ys)
  IsCommon-le done = omega arith
  IsCommon-le (skip_left {x} {xs} {ys} c) =
      omega (arith, IsCommon-le c, ((best-GrowsByOne xs ys).0 x).0)
  IsCommon-le (skip_right {y} {xs} {ys} c) =
      omega (arith, IsCommon-le c, ((best-GrowsByOne xs ys).1 y).0)
  IsCommon-le (match_both {x} {y} {xs} {ys} e c) =
      omega
        (arith, IsCommon-le c, entry-match x y (best xs ys) (best xs (y ∷ ys)) (best (x ∷ xs) ys) e)

  entry-IsCommon :
      (x y : A) (xs ys : List A) (d u l : List (A × A))
      → IsCommon equals xs ys (onto d [])
      → IsCommon equals xs (y ∷ ys) (onto u [])
      → IsCommon equals (x ∷ xs) ys (onto l [])
      → IsCommon equals (x ∷ xs) (y ∷ ys) (onto (entry equals x y d u l) [])
  entry-IsCommon x y xs ys d u l hd hu hl = elim (Bool-cases (equals x y)) [
    | inl e ↦
        rw (e, entry)
          (subst (IsCommon equals (x ∷ xs) (y ∷ ys)) (sym (onto-append_one d (x, y) []))
            (match_both e hd))
    | inr e ↦ elim (Bool-cases (ltb (length l) (length u))) [
      | inl h ↦ rw (e, h, entry) (skip_left hu)
      | inr h ↦ rw (e, h, entry) (skip_right hl)
    ]
  ]

  best-IsCommon : (xs ys : List A) → IsCommon equals xs ys (onto (best xs ys) [])
  best-IsCommon [] ys = skip_all equals [] ys
  best-IsCommon (x ∷ xs) [] = skip_all equals (x ∷ xs) []
  best-IsCommon (x ∷ xs) (y ∷ ys) =
      entry-IsCommon x y xs ys (best xs ys) (best xs (y ∷ ys)) (best (x ∷ xs) ys)
        (best-IsCommon xs ys) (best-IsCommon xs (y ∷ ys)) (best-IsCommon (x ∷ xs) ys)

  -- A row of the table, from the column on where the prefix `ys` ends.
  abbrev row_of : List A → List A → List A → List (List (A × A))
  row_of xs ys [] = []
  row_of xs ys (b ∷ bs) = best xs (b ∷ ys) ∷ row_of xs (b ∷ ys) bs

  row_of-first : (ys bs : List A) → row_of [] ys bs ≡ first_row equals bs
  row_of-first ys [] = refl
  row_of-first ys (b ∷ bs) = ap (◌∷◌ []) (row_of-first (b ∷ ys) bs)

  row_from-row_of :
      (x : A) (xs ys bs : List A)
      → row_from equals x (best xs ys) (row_of xs ys bs) (best (x ∷ xs) ys) bs
        ≡ row_of (x ∷ xs) ys bs
  row_from-row_of x xs ys [] = refl
  row_from-row_of x xs ys (b ∷ bs) =
      ap (◌∷◌ (best (x ∷ xs) (b ∷ ys))) (row_from-row_of x xs (b ∷ ys) bs)

  rows-row_of :
      (cs xs bs : List A) → rows equals cs bs (row_of xs [] bs) ≡ row_of (onto cs xs) [] bs
  rows-row_of [] xs bs = refl
  rows-row_of (c ∷ cs) xs bs =
      ap (rows equals cs bs) (
        ap (λ d. row_from equals c d (row_of xs [] bs) [] bs) (sym (best-nil xs))
        ∙ row_from-row_of c xs [] bs)
      ∙ rows-row_of cs (c ∷ xs) bs

  last_or-row_of :
      (xs ys bs : List A) → last_or equals (best xs ys) (row_of xs ys bs) ≡ best xs (onto bs ys)
  last_or-row_of xs ys [] = refl
  last_or-row_of xs ys (b ∷ bs) = last_or-row_of xs (b ∷ ys) bs

  lcs-best : (xs ys : List A) → lcs equals xs ys ≡ best (onto xs []) (onto ys [])
  unfolding lcs
  lcs-best xs ys =
      ap (λ r. last_or equals [] (rows equals xs ys r)) (sym (row_of-first [] ys))
      ∙ ap (last_or equals []) (rows-row_of xs [] ys)
      ∙ ap (λ d. last_or equals d (row_of (onto xs []) [] ys)) (sym (best-nil (onto xs [])))
      ∙ last_or-row_of (onto xs []) [] ys

  lcs-IsCommon : (xs ys : List A) → IsCommon equals xs ys (lcs equals xs ys)
  lcs-IsCommon xs ys =
      let b = best (onto xs []) (onto ys []) in
      subst (IsCommon equals xs ys) (onto_twice b ∙ sym (lcs-best xs ys)) (
        subst (λ l. IsCommon equals xs l (onto (onto b []) [])) (onto_twice ys)
          (subst (λ l. IsCommon equals l (onto (onto ys []) []) (onto (onto b []) []))
            (onto_twice xs) (IsCommon-onto equals (best-IsCommon (onto xs []) (onto ys [])) done)))

  -- What `lcs` computes is a common subsequence of the two lists, and none is longer; `equals` can be
  -- any test at all.
  pub lcs_lem :
      (xs ys : List A) (s : List (A × A))
      → IsCommon equals xs ys s
      → IsCommon equals xs ys (lcs equals xs ys) × (length s ≤ length (lcs equals xs ys))
  lcs_lem xs ys s c = (
    lcs-IsCommon xs ys,
    omega (
      arith,
      IsCommon-le (IsCommon-onto equals c done),
      length-onto s [],
      ap (λ (l : List (A × A)). length l) (lcs-best xs ys),
    ),
  )
