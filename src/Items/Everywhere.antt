-- ===== src/Items/Everywhere.antt =====
-- What holds of everything that the items of a page can do.
use lab_keeper.Common.{Bool, List, Option, Text, [], false, none, refl, some, true, ◌++◌, ◌∷◌, ◌≡◌}
use lab_keeper.Items.{Item, words, button, field, tick, choice, link, mounts, error_words, only}

module _ {M C : Type 0} (P : M → Type 0) (Q : C → Type 0) where
  -- Each handler that is not disabled is called for what `P` holds of, and each child component has properties
  -- that `Q` holds of.
  abbrev pub Everywhere : List (Item M C) → Type 0
  Everywhere [] = Unit
  Everywhere (button label disabled m ∷ items) = (disabled ≡ false → P m) × Everywhere items
  Everywhere (field label value disabled f ∷ items) =
      (disabled ≡ false → (t : Text) → P (f t)) × Everywhere items
  Everywhere (tick label value disabled f ∷ items) =
      (disabled ≡ false → (b : Bool) → P (f b)) × Everywhere items
  Everywhere (choice label value options disabled f ∷ items) =
      (disabled ≡ false → (t : Text) → P (f t)) × Everywhere items
  Everywhere (mounts child ∷ items) = Q child × Everywhere items
  Everywhere (item ∷ items) = Everywhere items

  pub Everywhere-append :
      (p q : List (Item M C)) → Everywhere p → Everywhere q → Everywhere (p ++ q)
  Everywhere-append [] q h k = k
  Everywhere-append (words t ∷ p) q h k = Everywhere-append p q h k
  Everywhere-append (link to shown ∷ p) q h k = Everywhere-append p q h k
  Everywhere-append (button l d m ∷ p) q (here, h) k = (here, Everywhere-append p q h k)
  Everywhere-append (field l v d f ∷ p) q (here, h) k = (here, Everywhere-append p q h k)
  Everywhere-append (tick l v d f ∷ p) q (here, h) k = (here, Everywhere-append p q h k)
  Everywhere-append (choice l v o d f ∷ p) q (here, h) k = (here, Everywhere-append p q h k)
  Everywhere-append (mounts c ∷ p) q (here, h) k = (here, Everywhere-append p q h k)

  pub Everywhere-only :
      (test : Bool) (p : List (Item M C)) → (test ≡ true → Everywhere p) → Everywhere (only test p)
  Everywhere-only true p h = h refl
  Everywhere-only false p h = tt

  pub Everywhere-error_words : (error : Option Text) → Everywhere (error_words error)
  Everywhere-error_words none = tt
  Everywhere-error_words (some []) = tt
  Everywhere-error_words (some (c ∷ t)) = tt
