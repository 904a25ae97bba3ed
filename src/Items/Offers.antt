-- ===== src/Items/Offers.antt =====
-- Which clicks the items of a page allow.
use lab_keeper.Common.{
  Bool, List, Option, Text, [], false, if◌then◌else◌, inl, inr, none, refl, some, true, ◌++◌, ◌∷◌,
  ◌≡◌, ◌⊎◌,
}
use lab_keeper.Items.{Item, words, button, field, tick, choice, link, mounts, error_words}

module _ {M C : Type 0} where
  -- A button that is not disabled calls the handler for `m`.
  abbrev pub Offers : M → List (Item M C) → Type 0
  Offers m [] = ⊥
  Offers m (button label disabled n ∷ items) = ((disabled ≡ false) × (m ≡ n)) ⊎ Offers m items
  Offers m (item ∷ items) = Offers m items

  pub Offers-append : (m : M) (p q : List (Item M C)) → Offers m (p ++ q) → Offers m p ⊎ Offers m q
  Offers-append m [] q h = inr h
  Offers-append m (words t ∷ p) q h = Offers-append m p q h
  Offers-append m (field l v d f ∷ p) q h = Offers-append m p q h
  Offers-append m (tick l v d f ∷ p) q h = Offers-append m p q h
  Offers-append m (choice l v o d f ∷ p) q h = Offers-append m p q h
  Offers-append m (link to shown ∷ p) q h = Offers-append m p q h
  Offers-append m (mounts c ∷ p) q h = Offers-append m p q h
  Offers-append m (button l d n ∷ p) q (inl here) = inl (inl here)
  Offers-append m (button l d n ∷ p) q (inr h) = elim (Offers-append m p q h) [
    | inl a ↦ inl (inr a)
    | inr b ↦ inr b
  ]

  -- What is shown only if a test holds is offered only then.
  pub Offers-only :
      (m : M) (test : Bool) (p : List (Item M C))
      → Offers m (if test then p else [])
      → (test ≡ true) × Offers m p
  Offers-only m true p h = (refl, h)
  Offers-only m false p h = absurd h

  -- A choice between two lists offers what the chosen one does.
  pub Offers-if :
      (m : M) (test : Bool) (p q : List (Item M C))
      → Offers m (if test then p else q)
      → Offers m p ⊎ Offers m q
  Offers-if m true p q h = inl h
  Offers-if m false p q h = inr h

-- A message offers nothing.
pub Offers-error_words :
    {M : Type 0} (C : Type 0) (m : M) (error : Option Text)
    → Offers {C = C} m (error_words error)
    → ⊥
Offers-error_words C m none h = h
Offers-error_words C m (some []) h = h
Offers-error_words C m (some (c ∷ t)) h = h
