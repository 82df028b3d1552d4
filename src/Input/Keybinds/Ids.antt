-- ===== src/Input/Keybinds/Ids.antt =====
-- src/input/bind.rs: every key bind stays filed under its own id.
use Prim.Native.String.{String}
use pinnacle.Common.{
  ℕ, ◌≡◌, refl, sym, subst, ==_refl, Bool, true, false, not, ◌&&◌, ◌||◌, List, [], ◌∷◌, Option,
  none, some, lookup, arith, if◌then◌else◌, Option-cases, inl, inr, lookup-insert, lookup-without,
  is_some, insert_entry, without_key,
}
use pinnacle.Deps.{IndexMap}
use pinnacle.Input.Bind.{
  Edge, press, release, ModifiersState, BindData, BindAction, forward, quit, reload_config,
}
use pinnacle.Input.Keybinds.{
  Keybind, Keybinds, release_binds, key, add_keybind, remove_keybind, set_keybind_has_on_press,
}
use pinnacle.Input.Keybinds.Release.{Filed}

Filed-insert :
    (k : ℕ) (b : Keybind) (m : List (ℕ × Keybind))
    → Filed m
    → b.bind_data.id ≡ k
    → Filed (insert_entry k b m)
Filed-insert k b m f h i c e = ground (arith, lookup-insert k i b m, f i c)

Filed-without : (k : ℕ) (m : List (ℕ × Keybind)) → Filed m → Filed (without_key k m)
Filed-without k m f i c e = ground (arith, lookup-without k i m, f i c)

Filed-if :
    (c : Bool) (x y : BindAction × Keybinds)
    → Filed x.1.id_map
    → Filed y.1.id_map
    → Filed (if c then x else y).1.id_map
Filed-if true x y f g = f
Filed-if false x y f g = g

Filed-if_map :
    (c : Bool) (m n : List (ℕ × Keybind)) → Filed m → Filed n → Filed (if c then m else n)
Filed-if_map true m n f g = f
Filed-if_map false m n f g = g

module _ ⦃binds : IndexMap Keybind⦄ where
  Filed-take_out : (k : ℕ) (m : List (ℕ × Keybind)) → Filed m → Filed (binds.take_out m k)
  Filed-take_out k m f i c e = Filed-without k m f i c (ground (arith, binds.take_out_lem m k))

  Filed-put :
      (k : ℕ) (b : Keybind) (m : List (ℕ × Keybind))
      → Filed m
      → b.bind_data.id ≡ k
      → Filed (binds.put m k b)
  Filed-put k b m f h i c e = Filed-insert k b m f h i c (ground (arith, binds.put_lem m k b))

  release_binds-Filed :
      (inhibited locked : Bool) (is : List ℕ) (action : BindAction) (s : Keybinds)
      → Filed s.id_map
      → Filed (release_binds inhibited locked is action s).1.id_map
  unfolding release_binds
  release_binds-Filed inhibited locked [] action s f = f
  release_binds-Filed inhibited locked (i ∷ is) action s f =
      elim (Option-cases (lookup i s.id_map)) [
        | inl e ↦
            rw (binds.get_lem s.id_map i, e, release_binds)
              (release_binds-Filed inhibited locked is action s f)
        | inr (b, e) ↦
            rw (binds.get_lem s.id_map i, e, release_binds)
              (Filed-if b.bind_data.is_quit_bind (quit, s) _ f
                (Filed-if b.bind_data.is_reload_config_bind (reload_config, s) _ f
                  (Filed-if (inhibited || (locked && not b.bind_data.allow_when_locked))
                    (forward, s) _ f
                    (release_binds-Filed inhibited locked is _ _ (
                      Filed-if_map b.open_end s.id_map (binds.take_out s.id_map i) f
                        (Filed-take_out i s.id_map f))))))
      ]

module _ ⦃binds : IndexMap Keybind⦄ ⦃lists : IndexMap (List ℕ)⦄ where
  key-Filed :
      (edge : Edge) (k : ℕ) (mods : ModifiersState) (layer : Option String)
      (inhibited locked : Bool) (s : Keybinds)
      → Filed s.id_map
      → Filed (key k mods edge layer inhibited locked s).1.id_map
  unfolding key
  key-Filed press k mods layer inhibited locked s f = elim (Option-cases (lookup k s.keysym_map)) [
    | inl e ↦ rw (lists.get_lem s.keysym_map k, e, key) f
    | inr (is, e) ↦ rw (lists.get_lem s.keysym_map k, e, key) f
  ]
  key-Filed release k mods layer inhibited locked s f =
      elim (Option-cases (lookup k s.keysym_map)) [
        | inl e ↦ rw (lists.get_lem s.keysym_map k, e, key) f
        | inr (is, e) ↦ elim (Option-cases (lookup k s.last_pressed)) [
          | inl n ↦ rw (lists.get_lem s.keysym_map k, e, n, key) f
          | inr (ids, n) ↦
              rw (lists.get_lem s.keysym_map k, e, n, key)
                (release_binds-Filed inhibited locked ids forward _ f)
        ]
      ]

  on_press-Filed :
      (id : ℕ) (s : Keybinds) → Filed s.id_map → Filed (set_keybind_has_on_press id s).id_map
  unfolding set_keybind_has_on_press
  on_press-Filed id s f = elim (Option-cases (lookup id s.id_map)) [
    | inl e ↦ rw (binds.get_lem s.id_map id, e, set_keybind_has_on_press) f
    | inr (b, e) ↦
        rw (binds.get_lem s.id_map id, e, set_keybind_has_on_press)
          (Filed-put id (record b { has_on_press = true }) s.id_map f (f id b e))
  ]

  add-Filed :
      (k counter id next : ℕ) (d : BindData) (s t : Keybinds)
      → Filed s.id_map
      → add_keybind k d counter s ≡ some (id, next, t)
      → Filed t.id_map × (is_some (lookup id t.id_map) ≡ true) × (lookup id s.id_map ≡ none)
  unfolding add_keybind
  add-Filed k counter id next d s t f e = elim (Option-cases (lookup counter s.id_map)) [
    | inr (b, h) ↦ ground (arith, e, h, binds.get_lem s.id_map counter)
    | inl h ↦
        let b : Keybind = record {
          bind_data = record d { id = counter };
          key = k;
          open_end = true;
          has_on_press = false;
        } in
        let same : id ≡ counter = ground (arith, e, h, binds.get_lem s.id_map counter) in
        let map_is : t.id_map ≡ insert_entry counter b s.id_map =
          ground (arith, e, h, binds.get_lem s.id_map counter, binds.put_lem s.id_map counter b) in
        (
          subst Filed (sym map_is) (Filed-insert counter b s.id_map f refl),
          ground (arith, same, map_is, lookup-insert counter counter b s.id_map, ==_refl counter),
          ground (arith, same, h),
        )
  ]

  -- Every operation on key binds keeps each bind filed under its own id, and a bind that is added is
  -- filed under the id that is returned.
  pub keybinds-Filed :
      (s : Keybinds)
      → Filed s.id_map
      → ((sym : ℕ) (mods : ModifiersState) (edge : Edge) (layer : Option String)
            (inhibited locked : Bool)
          → Filed (key sym mods edge layer inhibited locked s).1.id_map)
        × ((id : ℕ) → Filed (remove_keybind id s).id_map)
        × ((id : ℕ) → Filed (set_keybind_has_on_press id s).id_map)
        × ((sym counter id next : ℕ) (d : BindData) (t : Keybinds)
            → add_keybind sym d counter s ≡ some (id, next, t)
            → Filed t.id_map × (is_some (lookup id t.id_map) ≡ true) × (lookup id s.id_map ≡ none))
  unfolding remove_keybind
  keybinds-Filed s f = (
    λ sym mods edge layer inhibited locked. key-Filed edge sym mods layer inhibited locked s f,
    λ id. Filed-take_out id s.id_map f,
    λ id. on_press-Filed id s f,
    λ sym counter id next d t e. add-Filed sym counter id next d s t f e,
  )
