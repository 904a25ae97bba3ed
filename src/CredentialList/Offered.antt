-- ===== src/CredentialList/Offered.antt =====
-- Which credentials web/src/components/CredentialList.tsx offers to delete.
use lab_keeper.Common.{
  Bool, List, Option, Text, [], ap, false, inl, inr, none, refl, some, text_eq, true, ◌++◌, ◌↔◌,
  ◌∷◌, ◌≡◌,
}
use lab_keeper.Oidc.Types.{
  Failure, session_expired, error, syntax_error, network_error, type_error, uri_error, report,
  message,
}
use lab_keeper.Oidc.World.{World, Result, ok, throws}
use lab_keeper.Api.Types.{Credential}
use lab_keeper.Api.Endpoints.{delete_credential}
use lab_keeper.Items.{Item, error_words}
use lab_keeper.Items.Offers.{Offers}
use lab_keeper.CredentialList.{View, handle_delete, delete_settled, without}
use lab_keeper.CredentialList.Removal.{Listed, without_sound, without_complete}
use lab_keeper.CredentialList.Table.{
  Click, generate, create, edit, remove, credential_rows, table_items, shown_items, list_items,
}

-- The credential of a deletion
abbrev removed : Click → Option Credential
removed (remove c) = some c
removed click = none

remove_same : (c item : Credential) → remove c ≡ remove item → c ≡ item
remove_same c item h = let same : some c ≡ some item = ap removed h in cc

credential_rows-Offers :
    (c : Credential) (cs : List Credential) → Offers (remove c) (credential_rows cs) ↔ Listed c cs
unfolding credential_rows
credential_rows-Offers c [] = (λ h. h, λ h. h)
credential_rows-Offers c (item ∷ items) =
    let rest = credential_rows-Offers c items in
    (
      λ h. elim h [
        | inl other ↦ absurd (edit_differs other.1)
        | inr (inl here) ↦ inl (remove_same c item here.1)
        | inr (inr later) ↦ inr (rest.0 later)
      ],
      λ h. elim h [
        | inl here ↦ inr (inl (refl, ap remove here))
        | inr later ↦ inr (inr (rest.1 later))
      ],
    )
  where
    edit_differs : remove c ≡ edit item → ⊥
    edit_differs h = let bad : some c ≡ none = ap removed h in cc

table_items-Offers :
    (c : Credential) (cs : List Credential) → Offers (remove c) (table_items cs) ↔ Listed c cs
table_items-Offers c [] = (λ h. h, λ h. h)
table_items-Offers c (item ∷ items) = credential_rows-Offers c (item ∷ items)

below_message :
    (m : Click) (error : Option Text) (items : List (Item Click ⊥))
    → Offers m (error_words error ++ items) ↔ Offers m items
below_message m none items = (λ h. h, λ h. h)
below_message m (some []) items = (λ h. h, λ h. h)
below_message m (some (c ∷ t)) items = (λ h. h, λ h. h)

list_items-Offers :
    (c : Credential) (v : View)
    → Offers (remove c) (list_items v) ↔ ((v.loading ≡ false) × Listed c v.credentials)
unfolding list_items
list_items-Offers c v = by_loading v.loading
  where
    not_generate : remove c ≡ generate → ⊥
    not_generate h = let bad : some c ≡ none = ap removed h in cc

    not_create : remove c ≡ create → ⊥
    not_create h = let bad : some c ≡ none = ap removed h in cc

    by_loading :
        (loading : Bool)
        → Offers (remove c) (shown_items loading v) ↔ ((loading ≡ false) × Listed c v.credentials)
    by_loading true = (λ h. absurd h, λ h. cc)
    by_loading false =
        let message = below_message (remove c) v.error (table_items v.credentials) in
        let table = table_items-Offers c v.credentials in
        (
          λ h. elim h [
            | inl a ↦ absurd (not_generate a.1)
            | inr (inl b) ↦ absurd (not_create b.1)
            | inr (inr below) ↦ (refl, table.0 (message.0 below))
          ],
          λ h. inr (inr (message.1 (table.1 h.1))),
        )

-- The page offers to delete what it offered before.
abbrev SameOffers : View → View → Type 0
SameOffers v v' =
    (c : Credential) → Offers (remove c) (list_items v') ↔ Offers (remove c) (list_items v)

-- How a deletion of the credential with this id ends: the page offers to delete what it offered before except what
-- has the id; or just that, with the message that stood there if the session has expired, and else with the message of
-- the failure.
abbrev pub Loses : (Failure → Text) → Text → Result (Unit {0}) → View → View → Type 0
Loses engine id (ok done) v v' =
    (v'.error ≡ v.error)
    × ((c : Credential)
        → Offers (remove c) (list_items v')
          ↔ (Offers (remove c) (list_items v) × (text_eq c.id id ≡ false)))
Loses engine id (throws (session_expired m)) v v' = SameOffers v v' × (v'.error ≡ v.error)
Loses engine id (throws e) v v' = SameOffers v v' × (v'.error ≡ some (message engine e))

same_table : (shown : Option Text) (v : View) → SameOffers v (record v { error = shown })
same_table shown v c =
    let now = list_items-Offers c (record v { error = shown }) in
    let before = list_items-Offers c v in (λ h. before.1 (now.0 h), λ h. now.1 (before.0 h))

delete_settled-Loses :
    (engine : Failure → Text) (credential : Credential) (r : Result (Unit {0})) (v : View)
    → Loses engine credential.id r v (delete_settled engine credential r v)
unfolding delete_settled report
delete_settled-Loses engine credential (ok done) v = (
  refl,
  λ c. (
    λ h.
        let (idle, left) = (list_items-Offers c after).0 h in
        let (old, other) = without_sound credential.id v.credentials c left in
        ((list_items-Offers c v).1 (idle, old), other),
    λ h.
        let (idle, old) = (list_items-Offers c v).0 h.0 in
        (list_items-Offers c after).1
          (idle, without_complete credential.id v.credentials c (old, h.1)),
  ),
)
  where
    after : View
    after = record v { credentials = without credential.id v.credentials }
delete_settled-Loses engine credential (throws (session_expired m)) v = (same_table _ v, refl)
delete_settled-Loses engine credential (throws (error m)) v = (same_table _ v, refl)
delete_settled-Loses engine credential (throws syntax_error) v = (same_table _ v, refl)
delete_settled-Loses engine credential (throws network_error) v = (same_table _ v, refl)
delete_settled-Loses engine credential (throws type_error) v = (same_table _ v, refl)
delete_settled-Loses engine credential (throws uri_error) v = (same_table _ v, refl)

-- A confirmed deletion makes one call of the API, and nothing else. If that succeeds, the table offers to delete what
-- it offered before, except the credentials with the id of the deleted one, and the message stays. Otherwise it
-- offers what it offered before: an expired session leaves the message as it was, and any other failure
-- shows its own.
pub handle_delete-Loses :
    (engine : Failure → Text) (credential : Credential) (v : View) (w : World)
    → let sent = delete_credential credential.id w in
      let done = handle_delete engine true credential v w in
      (done.1 ≡ sent.1) × Loses engine credential.id sent.0 v done.0
unfolding handle_delete
handle_delete-Loses engine credential v w =
    (refl, delete_settled-Loses engine credential (delete_credential credential.id w).0 v)
