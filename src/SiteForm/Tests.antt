-- ===== src/SiteForm/Tests.antt =====
-- The theorem of web/src/components/SiteForm.tsx at a concrete form.
use lab_keeper.Common.{Text, [], false, none, text, trim, ◌∷◌, ◌≡◌}
use lab_keeper.Oidc.Types.{Failure}
use lab_keeper.Oidc.Samples.{sample_world, reply}
use lab_keeper.Oidc.World.{World}
use lab_keeper.SiteForm.{FormState, initial_state, handle_submit}
use lab_keeper.SiteForm.Submit.{Submitted, handle_submit-Submitted}

abbrev named : FormState
named = record (initial_state none) { name = text " Lab " }

abbrev refusing_world : World
refusing_world = sample_world (reply 409 (text "E") ∷ [])

abbrev engine : Failure → Text
engine e = []

handle_submit-Submitted_example :
    let done = handle_submit engine none named refusing_world in
    (done.0.0.saving ≡ false) × Submitted engine none named (trim named.name) refusing_world done
handle_submit-Submitted_example = handle_submit-Submitted engine none named refusing_world
