-- ===== src/Input/Keybinds/Release.antt =====
-- src/input/bind.rs: who is told of the release of a key that was told of its press.
use Prim.Native.String.{String}
use mathlib.Core.List.{append-nil, append_assoc}
use pinnacle.Common.{
  ℕ, ◌≡◌, refl, ◌∙◌, ap, sym, Bool, true, false, not, ◌&&◌, ◌||◌, List, [], ◌∷◌, ◌++◌, Option, none,
  some, lookup, arith, all, retain, map, if◌then◌else◌, Option-cases, Bool-cases, inl, inr, ◌⊎◌,
  lookup-without, ◌==◌, without_key,
}
use pinnacle.Deps.{IndexMap}
use pinnacle.Input.Bind.{Edge, release, BindAction, forward, suppress, quit, reload_config}
use pinnacle.Input.Keybinds.{Keybind, Keybinds, is_told, release_binds, send_if}
use pinnacle.Input.Keybinds.Press.{live, ends_it, before_end}

-- Every bind is filed under its own id.
abbrev pub Filed : List (ℕ × Keybind) → Type 0
Filed m = (i : ℕ) (b : Keybind) → lookup i m ≡ some b → b.bind_data.id ≡ i

-- Each of the binds is in the map, or it was dropped because no one listened to it.
abbrev pub Known : List (ℕ × Keybind) → List Keybind → Type 0
Known m [] = Unit {0}
Known m (b ∷ bs) =
    ((lookup b.bind_data.id m ≡ some b) ⊎ ((b.open_end ≡ false) × (lookup b.bind_data.id m ≡ none)))
    × Known m bs

-- All of them are in the map.
abbrev pub Found : List (ℕ × Keybind) → List Keybind → Type 0
Found m [] = Unit {0}
Found m (b ∷ bs) = (lookup b.bind_data.id m ≡ some b) × Found m bs

pub Found-Known : (m : List (ℕ × Keybind)) (bs : List Keybind) → Found m bs → Known m bs
Found-Known m [] f = tt
Found-Known m (b ∷ bs) f = (inl (f.0), Found-Known m bs f.1)

pub Found-retain :
    (m : List (ℕ × Keybind)) (p : Keybind → Bool) (bs : List Keybind)
    → Found m bs
    → Found m (retain p bs)
Found-retain m p [] f = tt
Found-retain m p (b ∷ bs) f = ground (arith, Found-retain m p bs f.1)

pub Found-before_end :
    (m : List (ℕ × Keybind)) (bs : List Keybind) → Found m bs → Found m (before_end bs)
Found-before_end m [] f = tt
Found-before_end m (b ∷ bs) f = ground (arith, Found-before_end m bs f.1)

pub Found-live : (m : List (ℕ × Keybind)) (is : List ℕ) → Filed m → Found m (live m is)
Found-live m [] f = tt
Found-live m (i ∷ is) f = elim (Option-cases (lookup i m)) [
  | inl e ↦ ground (arith, e, Found-live m is f)
  | inr (b, e) ↦ ground (arith, e, f i b e, Found-live m is f)
]

module _ (inhibited locked : Bool) where
  -- A bind that was told of a press, and is to be told of the release.
  abbrev pub ready : Keybind → Bool
  ready b =
      (b.has_on_press && not (ends_it b))
      && not (inhibited || (locked && not b.bind_data.allow_when_locked))

  abbrev pub releases : List Keybind → List (ℕ × Edge)
  releases bs = map (λ b. (b.bind_data.id, release)) (retain (λ b. b.open_end) bs)

  pub all-ready :
      (layer : Option String) (bs : List Keybind)
      → all ready (retain (is_told layer inhibited locked) (before_end bs)) ≡ true
  unfolding is_told
  all-ready layer [] = refl
  all-ready layer (b ∷ bs) = ground (arith, all-ready layer bs)

  Known-next :
      (m : List (ℕ × Keybind)) (b : Keybind) (bs : List Keybind)
      → lookup b.bind_data.id m ≡ some b
      → b.open_end ≡ false
      → Known m bs
      → Known (without_key b.bind_data.id m) bs
  Known-next m b [] e o k = tt
  Known-next m b (c ∷ cs) e o k = (still m b c e o (k.0), Known-next m b cs e o k.1)
    where
      still :
          (m : List (ℕ × Keybind)) (b c : Keybind)
          → lookup b.bind_data.id m ≡ some b
          → b.open_end ≡ false
          → ((lookup c.bind_data.id m ≡ some c)
              ⊎ ((c.open_end ≡ false) × (lookup c.bind_data.id m ≡ none)))
          → (lookup c.bind_data.id (without_key b.bind_data.id m) ≡ some c)
            ⊎ ((c.open_end ≡ false) × (lookup c.bind_data.id (without_key b.bind_data.id m) ≡ none))
      still m b c e o (inr h) =
          inr (h.0, ground (arith, lookup-without b.bind_data.id c.bind_data.id m))
      still m b c e o (inl h) = elim (Bool-cases (b.bind_data.id == c.bind_data.id)) [
        | inl q ↦
            let same : b.bind_data.id ≡ c.bind_data.id = ground arith in
            let bc : b ≡ c = ground (arith, ap (λ i. lookup i m) same) in
            inr (
              ap (λ (x : Keybind). x.open_end) (sym bc) ∙ o,
              ground (arith, lookup-without b.bind_data.id c.bind_data.id m),
            )
        | inr q ↦ inl (ground (arith, lookup-without b.bind_data.id c.bind_data.id m))
      ]

  module _ ⦃binds : IndexMap Keybind⦄ where
    -- One round for a bind that is there.
    abbrev pub after : Keybind → Keybinds → Keybinds
    after b s = record s {
      id_map = if b.open_end then s.id_map else binds.take_out s.id_map b.bind_data.id;
      sent = send_if b.open_end b.bind_data.id release s.sent;
    }

    release_round :
        (b : Keybind) (is : List ℕ) (action : BindAction) (s : Keybinds)
        → lookup b.bind_data.id s.id_map ≡ some b
        → release_binds inhibited locked (b.bind_data.id ∷ is) action s ≡ (
            if b.bind_data.is_quit_bind
            then (quit, s)
            else if b.bind_data.is_reload_config_bind
            then (reload_config, s)
            else if inhibited || (locked && not b.bind_data.allow_when_locked)
            then (forward, s)
            else release_binds inhibited locked is
                (if b.has_on_press then suppress else action)
                (after b s))
    unfolding release_binds
    release_round b is action s e =
        rw (binds.get_lem s.id_map b.bind_data.id, e, release_binds) refl

    pub release_step :
        (b : Keybind) (is : List ℕ) (action : BindAction) (s : Keybinds)
        → lookup b.bind_data.id s.id_map ≡ some b
        → ready b ≡ true
        → release_binds inhibited locked (b.bind_data.id ∷ is) action s
          ≡ release_binds inhibited locked is suppress (after b s)
    release_step b is action s e r = ground (arith, release_round b is action s e)

    release_skip :
        (i : ℕ) (is : List ℕ) (action : BindAction) (s : Keybinds)
        → lookup i s.id_map ≡ none
        → release_binds inhibited locked (i ∷ is) action s
          ≡ release_binds inhibited locked is action s
    unfolding release_binds
    release_skip i is action s e = rw (binds.get_lem s.id_map i, e, release_binds) refl

    pub release_told :
        (bs : List Keybind) (s : Keybinds)
        → all ready bs ≡ true
        → Known s.id_map bs
        → let (a, t) = release_binds inhibited locked (map (λ b. b.bind_data.id) bs) suppress s in
          (a ≡ suppress) × (t.sent ≡ s.sent ++ releases bs) × (t.last_pressed ≡ s.last_pressed)
    release_told [] s r k = unfold release_binds in (refl, sym (append-nil s.sent), refl)
    release_told (b ∷ bs) s r k = elim (Option-cases (lookup b.bind_data.id s.id_map)) [
      | inl e ↦ ground (
        arith,
        release_skip b.bind_data.id (map (λ b. b.bind_data.id) bs) suppress s e,
        release_told bs s (ground arith) k.1,
      )
      | inr (c, e) ↦
          let here : lookup b.bind_data.id s.id_map ≡ some b = ground arith in
          let ids = map (λ b. b.bind_data.id) bs in
          elim (Bool-cases b.open_end) [
            | inl o ↦ ground (
              arith,
              release_step b ids suppress s here (ground arith),
              release_told bs (after b s) (ground arith) (ground arith),
              append_assoc s.sent ((b.bind_data.id, release) ∷ []) (releases bs),
            )
            | inr o ↦ ground (
              arith,
              release_step b ids suppress s here (ground arith),
              release_told bs (after b s) (ground arith) (
                  ground (
                    arith,
                    binds.take_out_lem s.id_map b.bind_data.id,
                    Known-next s.id_map b bs here o k.1,
                  )),
            )
          ]
    ]
