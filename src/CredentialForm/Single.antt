-- ===== src/CredentialForm/Single.antt =====
-- What the use of the form in web/src/components/CredentialForm.tsx cannot do: change the type of a stored
-- credential, or have two requests under way.
use lab_keeper.Common.{
  Bool, Option, Text, arith, false, none, refl, some, subst, suc, true, ℕ, ◌+◌, ◌≡◌, ◌≤◌,
}
use lab_keeper.Oidc.Types.{Failure, session_expired}
use lab_keeper.Oidc.World.{Result, ok, throws}
use lab_keeper.Json.{Json}
use lab_keeper.Api.Inputs.{ssh_key}
use lab_keeper.Api.Types.{Credential}
use lab_keeper.CredentialForm.{initial_state, GeneratedSshKey, settle, key_settled, mount_settled}
use lab_keeper.CredentialForm.Fields.{changes, generate, submit}
use lab_keeper.CredentialForm.Use.{
  InUse, opened, Moves, edits, asks_key, submits, key_ends, first_key_ends, submission_ends,
  Reaches, starts, moves,
}
use lab_keeper.CredentialForm.Allowed.{allowed-Fits}
use lab_keeper.CredentialForm.Sound.{
  HasType, IsSound, edit-IsSound, generation-IsSound, submission-IsSound, generated-IsSound,
  under_way, submitted-IsSound, type_free,
}

module _ (engine : Failure → Text) (credential : Option Credential) (generates : Bool) where
  key_ends-IsSound :
      (u : InUse) (n : ℕ) (r : Result GeneratedSshKey)
      → u.generations ≡ suc n
      → IsSound credential u
      → IsSound credential (record u { form = key_settled engine r u.form; generations = n })
  key_ends-IsSound u n (ok key) pending h =
      generated-IsSound credential u n _ pending (h.key_type (under_way credential u n pending h))
        refl refl h
  key_ends-IsSound u n (throws (session_expired m)) pending h =
      generated-IsSound credential u n _ pending h.type_kept refl refl h
  key_ends-IsSound u n (throws e) pending h =
      generated-IsSound credential u n _ pending h.type_kept refl refl h

  first_key_ends-IsSound :
      (u : InUse) (n : ℕ) (r : Result GeneratedSshKey)
      → credential ≡ none
      → u.generations ≡ suc n
      → IsSound credential u
      → IsSound credential (record u { form = mount_settled engine r u.form; generations = n })
  first_key_ends-IsSound u n (ok key) free pending h =
      generated-IsSound credential u n _ pending (type_free credential ssh_key free) refl refl h
  first_key_ends-IsSound u n (throws (session_expired m)) free pending h =
      generated-IsSound credential u n _ pending h.type_kept refl refl h
  first_key_ends-IsSound u n (throws e) free pending h =
      generated-IsSound credential u n _ pending h.type_kept refl refl h

  submission_ends-IsSound :
      (u : InUse) (n : ℕ) (r : Result Json)
      → u.submissions ≡ suc n
      → IsSound credential u
      → IsSound credential (record u { form = (settle engine r u.form).0; submissions = n })
  submission_ends-IsSound u n (ok j) pending h =
      submitted-IsSound credential u n _ pending refl refl refl h
  submission_ends-IsSound u n (throws (session_expired m)) pending h =
      submitted-IsSound credential u n _ pending refl refl refl h
  submission_ends-IsSound u n (throws e) pending h =
      submitted-IsSound credential u n _ pending refl refl refl h

  move-IsSound :
      {u v : InUse}
      → Moves engine credential generates u v
      → IsSound credential u
      → IsSound credential v
  move-IsSound (edits u e allowed) h =
      edit-IsSound credential u e (allowed-Fits credential u.form generates (changes e) allowed) h
  move-IsSound (asks_key u allowed) h =
      let fits = allowed-Fits credential u.form generates generate allowed in
      generation-IsSound credential u fits.0 (subst (HasType credential) fits.1 h.type_kept) h
  move-IsSound (submits u allowed) h =
      submission-IsSound credential u (allowed-Fits credential u.form generates submit allowed) h
  move-IsSound (key_ends u n r pending) h = key_ends-IsSound u n r pending h
  move-IsSound (first_key_ends u n r free pending) h = first_key_ends-IsSound u n r free pending h
  move-IsSound (submission_ends u n r pending) h = submission_ends-IsSound u n r pending h

opened-IsSound :
    (credential : Option Credential) (generates : Bool)
    → IsSound credential (opened credential generates)
unfolding initial_state
opened-IsSound (some credential) generates = record {
  type_kept = refl;
  key_type = λ busy. cc;
  submission_count = refl;
  generation_count = refl;
  single = refl;
}
opened-IsSound none true = record {
  type_kept = tt;
  key_type = λ busy. tt;
  submission_count = refl;
  generation_count = refl;
  single = refl;
}
opened-IsSound none false = record {
  type_kept = tt;
  key_type = λ busy. tt;
  submission_count = refl;
  generation_count = refl;
  single = refl;
}

Reaches-IsSound :
    (engine : Failure → Text) (credential : Option Credential) (generates : Bool) {u : InUse}
    → Reaches engine credential generates u
    → IsSound credential u
Reaches-IsSound engine credential generates starts = opened-IsSound credential generates
Reaches-IsSound engine credential generates (moves u v before move) =
    move-IsSound engine credential generates move
      (Reaches-IsSound engine credential generates before)

-- Whoever uses the form through what it shows, and however late the answers come: a stored credential keeps its
-- type, and submissions and generations of a key together are never more than one under way.
pub Reaches-single :
    (engine : Failure → Text) (credential : Option Credential) (generates : Bool) (u : InUse)
    → Reaches engine credential generates u
    → HasType credential u.form.form_type × (u.submissions + u.generations ≤ 1)
Reaches-single engine credential generates u h =
    let sound = Reaches-IsSound engine credential generates h in
    let submitted = sound.submission_count in
    let generated = sound.generation_count in
    let never_both = sound.single in (sound.type_kept, ground arith)
