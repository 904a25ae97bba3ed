-- ===== src/CredentialForm/Sound.antt =====
-- What web/src/components/CredentialForm.tsx keeps in use: its flags, and the type of a stored credential.
use lab_keeper.Common.{
  Bool, Option, ap, arith, false, if◌then◌else◌, none, refl, some, subst, suc, sym, true, ℕ, ◌&&◌,
  ◌∙◌, ◌≡◌,
}
use lab_keeper.Api.Inputs.{CredentialType, password_type, ssh_key}
use lab_keeper.Api.Types.{Credential}
use lab_keeper.CredentialForm.{FormState, set_type, Edit, change_type, edit}
use lab_keeper.CredentialForm.Fields.{changes, is_busy}
use lab_keeper.CredentialForm.Use.{InUse, generation_begins, submission_begins}
use lab_keeper.CredentialForm.Allowed.{Fits}

-- The type of a stored credential
abbrev pub HasType : Option Credential → CredentialType → Type 0
HasType none t = Unit
HasType (some credential) t = t ≡ credential.credential_type

abbrev pub flag : Bool → ℕ
flag b = if b then 1 else 0

-- The flags of the form tell what is under way, and the type is that of the stored credential.
pub record IsSound (credential : Option Credential) (u : InUse) : Type 0 where
  pub type_kept : HasType credential u.form.form_type
  pub key_type : u.form.generating ≡ true → HasType credential ssh_key
  pub submission_count : u.submissions ≡ flag u.form.saving
  pub generation_count : u.generations ≡ flag u.form.generating
  pub single : (u.form.saving && u.form.generating) ≡ false

pub type_free :
    (credential : Option Credential) (t : CredentialType) → credential ≡ none → HasType credential t
type_free credential t free = subst (λ o. HasType o t) (sym free) tt

pub same-IsSound :
    (credential : Option Credential) (u : InUse) (form : FormState)
    → form.form_type ≡ u.form.form_type
    → form.saving ≡ u.form.saving
    → form.generating ≡ u.form.generating
    → IsSound credential u
    → IsSound credential (record u { form = form })
same-IsSound credential u form t s g h = record {
  type_kept = subst (HasType credential) (sym t) h.type_kept;
  key_type = λ busy. h.key_type (sym g ∙ busy);
  submission_count = h.submission_count ∙ ap flag (sym s);
  generation_count = h.generation_count ∙ ap flag (sym g);
  single = rw (s, g) h.single;
}

pub edit-IsSound :
    (credential : Option Credential) (u : InUse) (e : Edit)
    → Fits credential u.form (changes e)
    → IsSound credential u
    → IsSound credential (record u { form = edit e u.form })
unfolding edit set_type
edit-IsSound credential u (change_type password_type) free h = record {
  type_kept = type_free credential password_type free;
  key_type = h.key_type;
  submission_count = h.submission_count;
  generation_count = h.generation_count;
  single = h.single;
}
edit-IsSound credential u (change_type ssh_key) free h = record {
  type_kept = type_free credential ssh_key free;
  key_type = h.key_type;
  submission_count = h.submission_count;
  generation_count = h.generation_count;
  single = h.single;
}
edit-IsSound credential u e fits h = same-IsSound credential u (edit e u.form) refl refl refl h

pub generation-IsSound :
    (credential : Option Credential) (u : InUse)
    → is_busy u.form ≡ false
    → HasType credential ssh_key
    → IsSound credential u
    → IsSound credential (generation_begins u)
generation-IsSound credential u idle key h = record {
  type_kept = h.type_kept;
  key_type = λ busy. key;
  submission_count = h.submission_count;
  generation_count = let here = h.generation_count in ground arith;
  single = ground arith;
}

pub submission-IsSound :
    (credential : Option Credential) (u : InUse)
    → is_busy u.form ≡ false
    → IsSound credential u
    → IsSound credential (submission_begins u)
submission-IsSound credential u idle h = record {
  type_kept = h.type_kept;
  key_type = h.key_type;
  submission_count = let here = h.submission_count in ground arith;
  generation_count = h.generation_count;
  single = ground arith;
}

-- A request has ended, with a form of a type that fits.
pub generated-IsSound :
    (credential : Option Credential) (u : InUse) (n : ℕ) (form : FormState)
    → u.generations ≡ suc n
    → HasType credential form.form_type
    → form.saving ≡ u.form.saving
    → form.generating ≡ false
    → IsSound credential u
    → IsSound credential (record u { form = form; generations = n })
generated-IsSound credential u n form pending kept s g h = record {
  type_kept = kept;
  key_type = λ busy. let bad : false ≡ true = sym g ∙ busy in cc;
  submission_count = h.submission_count ∙ ap flag (sym s);
  generation_count = let here = h.generation_count in rw g (ground arith);
  single = rw g (ground arith);
}

pub under_way :
    (credential : Option Credential) (u : InUse) (n : ℕ)
    → u.generations ≡ suc n
    → IsSound credential u
    → u.form.generating ≡ true
under_way credential u n pending h = let here = h.generation_count in ground arith

pub submitted-IsSound :
    (credential : Option Credential) (u : InUse) (n : ℕ) (form : FormState)
    → u.submissions ≡ suc n
    → form.form_type ≡ u.form.form_type
    → form.saving ≡ false
    → form.generating ≡ u.form.generating
    → IsSound credential u
    → IsSound credential (record u { form = form; submissions = n })
submitted-IsSound credential u n form pending t s g h = record {
  type_kept = subst (HasType credential) (sym t) h.type_kept;
  key_type = λ busy. h.key_type (sym g ∙ busy);
  submission_count = let here = h.submission_count in rw s (ground arith);
  generation_count = h.generation_count ∙ ap flag (sym g);
  single = rw s refl;
}
