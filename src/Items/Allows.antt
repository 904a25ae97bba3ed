-- ===== src/Items/Allows.antt =====
-- Which handlers the user can call through the items of a page.
use lab_keeper.Common.{
  Bool, List, Text, [], false, inl, inr, subst, sym, text_eq, true, ◌||◌, ◌∷◌, ◌≡◌, ◌⊎◌,
}
use lab_keeper.Items.{Item, words, button, field, tick, choice, link, mounts}
use lab_keeper.Items.Everywhere.{Everywhere}

-- The value of one of the options
abbrev pub is_option : Text → List (Text × Text) → Bool
is_option t [] = false
is_option t ((value, label) ∷ options) = text_eq value t || is_option t options

module _ {M C : Type 0} where
  -- A button, a field, a tick or an option that is not disabled calls the handler for `m`.
  abbrev pub Allows : M → List (Item M C) → Type 0
  Allows m [] = ⊥
  Allows m (button label disabled n ∷ items) = ((disabled ≡ false) × (m ≡ n)) ⊎ Allows m items
  Allows m (field label value disabled f ∷ items) =
      ((disabled ≡ false) × ((t : Text) × (m ≡ f t))) ⊎ Allows m items
  Allows m (tick label value disabled f ∷ items) =
      ((disabled ≡ false) × ((b : Bool) × (m ≡ f b))) ⊎ Allows m items
  Allows m (choice label value options disabled f ∷ items) =
      ((disabled ≡ false) × ((t : Text) × (is_option t options ≡ true) × (m ≡ f t)))
      ⊎ Allows m items
  Allows m (item ∷ items) = Allows m items

  -- What holds of all that the items can do holds of what they allow.
  pub Allows-Everywhere :
      (P : M → Type 0) (Q : C → Type 0) (m : M) (items : List (Item M C))
      → Everywhere P Q items
      → Allows m items
      → P m
  Allows-Everywhere P Q m [] h k = absurd k
  Allows-Everywhere P Q m (words t ∷ items) h k = Allows-Everywhere P Q m items h k
  Allows-Everywhere P Q m (link to shown ∷ items) h k = Allows-Everywhere P Q m items h k
  Allows-Everywhere P Q m (mounts c ∷ items) h k = Allows-Everywhere P Q m items h.1 k
  Allows-Everywhere P Q m (button l d n ∷ items) h (inl (on, same)) = subst P (sym same) (h.0 on)
  Allows-Everywhere P Q m (field l v d f ∷ items) h (inl (on, (t, same))) =
      subst P (sym same) (h.0 on t)
  Allows-Everywhere P Q m (tick l v d f ∷ items) h (inl (on, (b, same))) =
      subst P (sym same) (h.0 on b)
  Allows-Everywhere P Q m (choice l v o d f ∷ items) h (inl (on, (t, listed, same))) =
      subst P (sym same) (h.0 on t)
  Allows-Everywhere P Q m (button l d n ∷ items) h (inr k) = Allows-Everywhere P Q m items h.1 k
  Allows-Everywhere P Q m (field l v d f ∷ items) h (inr k) = Allows-Everywhere P Q m items h.1 k
  Allows-Everywhere P Q m (tick l v d f ∷ items) h (inr k) = Allows-Everywhere P Q m items h.1 k
  Allows-Everywhere P Q m (choice l v o d f ∷ items) h (inr k) = Allows-Everywhere P Q m items h.1 k
