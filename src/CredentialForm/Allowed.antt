-- ===== src/CredentialForm/Allowed.antt =====
-- What the fields and buttons of web/src/components/CredentialForm.tsx allow.
use lab_keeper.Common.{
  Bool, List, Option, false, is_some, non_empty, none, refl, some, ◌++◌, ◌||◌, ◌≡◌,
}
use lab_keeper.Api.Inputs.{CredentialType, password_type, ssh_key}
use lab_keeper.Api.Types.{Credential}
use lab_keeper.Items.{Item, only, error_words}
use lab_keeper.Items.Everywhere.{
  Everywhere, Everywhere-append, Everywhere-only, Everywhere-error_words,
}
use lab_keeper.Items.Allows.{Allows, Allows-Everywhere}
use lab_keeper.CredentialForm.{FormState, change_type, becomes}
use lab_keeper.CredentialForm.Fields.{
  Click, changes, generate, submit, cancel, is_busy, password_items, key_items, secret_items,
  become_items, form_items, stored_passphrase, stored_become,
}

-- What the form allows: the type changes only for a new credential, and a request begins only while none is
-- under way, for a key only with the type of a key.
abbrev pub Fits : Option Credential → FormState → Click → Type 0
Fits credential s (changes (change_type t)) = credential ≡ none
Fits credential s (changes e) = Unit
Fits credential s generate = (is_busy s ≡ false) × (s.form_type ≡ ssh_key)
Fits credential s submit = is_busy s ≡ false
Fits credential s cancel = Unit

abbrev Nothing : ⊥ → Type 0
Nothing c = ⊥

module _ (credential : Option Credential) (s : FormState) where
  abbrev AllFit : List (Item Click ⊥) → Type 0
  AllFit items = Everywhere (Fits credential s) Nothing items

  both : (p q : List (Item Click ⊥)) → AllFit p → AllFit q → AllFit (p ++ q)
  both p q h k = Everywhere-append (Fits credential s) Nothing p q h k

  only-AllFit : (test : Bool) (p : List (Item Click ⊥)) → AllFit p → AllFit (only test p)
  only-AllFit test p h = Everywhere-only (Fits credential s) Nothing test p (λ e. h)

  key_items-AllFit : s.form_type ≡ ssh_key → AllFit (key_items credential s)
  unfolding key_items
  key_items-AllFit key = (
    (λ idle. (idle, key)),
    (
      (λ e t. tt),
      (
        (λ e t. tt),
        both (only (stored_passphrase credential) _) _
            (only-AllFit (stored_passphrase credential) _ ((λ e b. tt), tt))
            (only-AllFit (non_empty s.public_key_preview) _ tt),
      ),
    ),
  )

  secret_items-AllFit :
      (t : CredentialType) → s.form_type ≡ t → AllFit (secret_items t credential s)
  unfolding password_items
  secret_items-AllFit password_type same = ((λ e t. tt), tt)
  secret_items-AllFit ssh_key same = key_items-AllFit same

  become_items-AllFit : AllFit (become_items credential s)
  unfolding become_items
  become_items-AllFit =
      ((λ e t. tt), ((λ e t. tt), only-AllFit (stored_become credential) _ ((λ e b. tt), tt)))

  locked : (generates : Bool) (o : Option Credential) → (is_some o || generates) ≡ false → o ≡ none
  locked generates none h = refl
  locked generates (some c) h = cc

  form_items-AllFit : (generates : Bool) → AllFit (form_items credential generates s)
  unfolding form_items
  form_items-AllFit generates = (
    (λ e t. tt),
    (
      (λ free t. locked generates credential free),
      (
        (λ e t. tt),
        both (secret_items s.form_type credential s) _ (secret_items-AllFit s.form_type refl) (
          (λ e t. tt),
          both (only (becomes s.become_method) (become_items credential s)) _
              (only-AllFit (becomes s.become_method) _ become_items-AllFit)
              (both (error_words s.error) _
                (Everywhere-error_words (Fits credential s) Nothing s.error)
                ((λ idle. idle), ((λ idle. tt), tt))),
        ),
      ),
    ),
  )

  pub allowed-Fits :
      (generates : Bool) (m : Click)
      → Allows m (form_items credential generates s)
      → Fits credential s m
  allowed-Fits generates m h =
      Allows-Everywhere (Fits credential s) Nothing m (form_items credential generates s)
        (form_items-AllFit generates) h
