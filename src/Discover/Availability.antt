-- ===== src/Discover/Availability.antt =====
-- coordinator.rs, `cycle_once` of the discover: which categories have a free runner.
use strawberry_background.Prelude.{
  ◌≡◌, refl, ap, ◌∙◌, inl, inr, String, Bool, true, false, ◌||◌, ◌&&◌, not, Option, none, some,
  List, [], ◌∷◌, ◌==◌, String-eq, if◌then◌else◌, Bool-cases, subst, ==_refl,
}
use strawberry_background.Registry.{Maps, contains}
use strawberry_background.Discover.{ChannelMaps, note_category, note_categories}

-- The flag of a category after one more runner: none before the first one.
abbrev pub add_flag : Bool → Option Bool → Option Bool
add_flag available none = some available
add_flag available (some current) = some (current || available)

add_flag_twice : (a : Bool) (o : Option Bool) → add_flag a (add_flag a o) ≡ add_flag a o
add_flag_twice true none = refl
add_flag_twice false none = refl
add_flag_twice true (some true) = refl
add_flag_twice true (some false) = refl
add_flag_twice false (some true) = refl
add_flag_twice false (some false) = refl

module _ (M : Maps) (C : ChannelMaps) where
  open C use {flags as FM}

  noted : (available : Bool) (category : String) (m : FM.Map) → Option Bool → FM.Map
  noted available category m o = elim o [
    | none ↦ FM.insert category available m
    | some current ↦ if not current && available then FM.insert category available m else m
  ]

  insert-get :
      (available : Bool) (category : String) (m : FM.Map)
      → FM.get category (FM.insert category available m) ≡ some available
  insert-get available category m =
      FM.get-insert category category available m
      ∙ ap (λ b. if b then some available else FM.get category m) (==_refl category)

  insert-get_other :
      (available : Bool) (category c : String) (m : FM.Map)
      → (category == c) ≡ false
      → FM.get c (FM.insert category available m) ≡ FM.get c m
  insert-get_other available category c m other =
      FM.get-insert category c available m
      ∙ ap (λ b. if b then some available else FM.get c m) other

  noted-get :
      (available : Bool) (category : String) (m : FM.Map) (o : Option Bool)
      → FM.get category m ≡ o
      → FM.get category (noted available category m o) ≡ add_flag available o
  unfolding noted
  noted-get available category m none e = insert-get available category m
  noted-get true category m (some true) e = e
  noted-get false category m (some true) e = e
  noted-get true category m (some false) e = insert-get true category m
  noted-get false category m (some false) e = e

  noted-get_other :
      (available : Bool) (category c : String) (m : FM.Map) (o : Option Bool)
      → (category == c) ≡ false
      → FM.get c (noted available category m o) ≡ FM.get c m
  unfolding noted
  noted-get_other available category c m none e = insert-get_other available category c m e
  noted-get_other true category c m (some true) e = refl
  noted-get_other false category c m (some true) e = refl
  noted-get_other true category c m (some false) e = insert-get_other true category c m e
  noted-get_other false category c m (some false) e = refl

  note_category-noted :
      (available : Bool) (category : String) (m : FM.Map)
      → note_category M C available category m ≡ noted available category m (FM.get category m)
  unfolding note_category noted
  note_category-noted available category m = refl

  note_category-get :
      (available : Bool) (category c : String) (m : FM.Map)
      → FM.get c (note_category M C available category m)
        ≡ (if category == c then add_flag available (FM.get c m) else FM.get c m)
  note_category-get available category c m =
      rw (note_category-noted available category m) (elim (Bool-cases (category == c)) [
        | inl same ↦ rw same (
            subst
              (λ x.
                FM.get x (noted available category m (FM.get category m))
                ≡ add_flag available (FM.get x m))
              ((String-eq.beq_iff category c).0 same) (noted-get available category m _ refl))
        | inr other ↦ rw other (noted-get_other available category c m _ other)
      ])

  pub note_categories-get :
      (available : Bool) (categories : List String) (c : String) (m : FM.Map)
      → FM.get c (note_categories M C available categories m)
        ≡ (if contains categories c then add_flag available (FM.get c m) else FM.get c m)
  unfolding note_categories
  note_categories-get available [] c m = refl
  note_categories-get available (x ∷ xs) c m =
      note_categories-get available xs c (note_category M C available x m)
      ∙ ap (λ o. if contains xs c then add_flag available o else o)
          (note_category-get available x c m)
      ∙ step_in (x == c) (contains xs c) (FM.get c m)
    where
      step_in :
          (a b : Bool) (o : Option Bool)
          → (if b
              then add_flag available (if a then add_flag available o else o)
              else (if a then add_flag available o else o))
            ≡ (if a || b then add_flag available o else o)
      step_in true true o = add_flag_twice available o
      step_in true false o = refl
      step_in false true o = refl
      step_in false false o = refl
