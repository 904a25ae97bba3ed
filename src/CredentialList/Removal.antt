-- ===== src/CredentialList/Removal.antt =====
-- What a deletion in web/src/components/CredentialList.tsx takes out of the table.
use lab_keeper.Common.{
  Bool, Bool-cases, List, Text, [], ap, false, if◌then◌else◌, inl, inr, refl, subst, sym, text_eq,
  true, ◌↔◌, ◌∙◌, ◌∷◌, ◌≡◌, ◌⊎◌,
}
use lab_keeper.Oidc.Types.{Failure, report}
use lab_keeper.Oidc.World.{World, Result, ok, throws}
use lab_keeper.Api.Types.{Credential}
use lab_keeper.Api.Endpoints.{delete_credential}
use lab_keeper.CredentialList.{View, without, delete_settled, handle_delete}

abbrev pub Listed : Credential → List Credential → Type 0
Listed c [] = ⊥
Listed c (item ∷ items) = (c ≡ item) ⊎ Listed c items

pub without_sound :
    (id : Text) (items : List Credential) (c : Credential)
    → Listed c (without id items)
    → Listed c items × (text_eq c.id id ≡ false)
unfolding without
without_sound id [] c h = absurd h
without_sound id (item ∷ items) c h = elim (Bool-cases (text_eq item.id id)) [
  | inl gone ↦
      let rest : Listed c (without id items) =
        subst (λ b. Listed c (if b then without id items else item ∷ without id items)) gone h in
      let (old, kept) = without_sound id items c rest in (inr old, kept)
  | inr stays ↦
      elim (subst (λ b. Listed c (if b then without id items else item ∷ without id items)) stays
        h) [
          | inl e ↦ (inl e, ap (λ d. text_eq d.id id) e ∙ stays)
          | inr rest ↦ let (old, kept) = without_sound id items c rest in (inr old, kept)
        ]
]

pub without_complete :
    (id : Text) (items : List Credential) (c : Credential)
    → Listed c items × (text_eq c.id id ≡ false)
    → Listed c (without id items)
unfolding without
without_complete id [] c (h, k) = h
without_complete id (item ∷ items) c (inl e, k) =
    let stays : text_eq item.id id ≡ false = ap (λ d. text_eq d.id id) (sym e) ∙ k in
    rw stays (inl e)
without_complete id (item ∷ items) c (inr h, k) = elim (Bool-cases (text_eq item.id id)) [
  | inl gone ↦ rw gone (without_complete id items c (h, k))
  | inr stays ↦ rw stays (inr (without_complete id items c (h, k)))
]

-- How a confirmed deletion ends: the table loses the rows with the credential's id, and no others, or
-- it stays as it was and the failure is reported.
abbrev pub Removed : (Failure → Text) → Text → Result (Unit {0}) → View → View → Type 0
Removed engine id (ok done) v v' =
    (v'.error ≡ v.error)
    × ((c : Credential)
        → Listed c v'.credentials ↔ (Listed c v.credentials × (text_eq c.id id ≡ false)))
Removed engine id (throws e) v v' =
    (v'.credentials ≡ v.credentials) × (v'.error ≡ report engine e v.error)

abbrev pub Handled : (Failure → Text) → Bool → Credential → View → World → View × World → Type 0
Handled engine false credential v w (v', w') = (v' ≡ v) × (w' ≡ w)
Handled engine true credential v w (v', w') =
    let sent = delete_credential credential.id w in
    (w' ≡ sent.1) × Removed engine credential.id sent.0 v v'

delete_settled-Removed :
    (engine : Failure → Text) (credential : Credential) (r : Result (Unit {0})) (v : View)
    → Removed engine credential.id r v (delete_settled engine credential r v)
unfolding delete_settled
delete_settled-Removed engine credential (ok done) v = (
  refl,
  λ c.
      (without_sound credential.id v.credentials c, without_complete credential.id v.credentials c),
)
delete_settled-Removed engine credential (throws e) v = (refl, refl)

-- A deletion that the user does not confirm does nothing. A confirmed one makes one call of the API: if it
-- succeeds the table loses exactly the rows with the credential's id, and otherwise the table stays and the
-- failure is reported.
pub handle_delete-Handled :
    (engine : Failure → Text) (confirmed : Bool) (credential : Credential) (v : View) (w : World)
    → Handled engine confirmed credential v w (handle_delete engine confirmed credential v w)
unfolding handle_delete
handle_delete-Handled engine false credential v w = (refl, refl)
handle_delete-Handled engine true credential v w =
    (refl, delete_settled-Removed engine credential (delete_credential credential.id w).0 v)
