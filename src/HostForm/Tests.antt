-- ===== src/HostForm/Tests.antt =====
-- The theorems of web/src/components/HostForm.tsx at a concrete form.
use lab_keeper.Common.{
  Text, [], false, inl, inr, none, refl, some, text, trim, trim_start, true, ◌∷◌, ◌≡◌, ◌≤◌,
}
use lab_keeper.Items.Allows.{Allows}
use lab_keeper.Submission.{InUse, submitted, edited, submits, Reaches, starts, moves}
use lab_keeper.HostForm.Fields.{set_name, submit, status_items, fields, form_items, edit}
use lab_keeper.HostForm.Single.{host_form, Reaches-host_form}
use lab_keeper.HostForm.{FormState, initial_state, check, parse_int, digits_value, handle_submit}
use lab_keeper.Api.Inputs.{tcp}
use lab_keeper.Oidc.Types.{Failure}
use lab_keeper.Oidc.World.{World}
use lab_keeper.Oidc.Samples.{sample_world, reply}
use lab_keeper.HostForm.Sending.{Sent, handle_submit-Sent}
use lab_keeper.HostForm.Submit.{IsChecked, check-IsChecked}

abbrev by_tcp : FormState
by_tcp = record (initial_state none none) {
  name = text " nas ";
  probe_method = tcp;
  probe_port = text "8080x";
}

abbrev out_of_range : FormState
out_of_range = record by_tcp { probe_port = text "65536" }

parse_prefix : parse_int (text " 8080x") ≡ some 8080
unfolding parse_int digits_value lab_keeper.Common.trim_start text
parse_prefix = refl

refused : check out_of_range ≡ inl (text "TCP probe port must be between 1 and 65535")
unfolding check parse_int digits_value lab_keeper.Common.trim text
refused = refl

check-IsChecked_example : IsChecked by_tcp (check by_tcp)
check-IsChecked_example = check-IsChecked by_tcp

abbrev silent : Failure → Text
silent e = []

abbrev refusing_world : World
refusing_world = sample_world (reply 409 (text "E") ∷ [])

handle_submit-Sent_example :
    let done = handle_submit silent false (text "s1") by_tcp refusing_world in
    (done.0.0.saving ≡ false)
    × Sent silent false
        (text "s1")
        (record by_tcp { saving = true; error = none })
        refusing_world
        done
handle_submit-Sent_example = handle_submit-Sent silent false (text "s1") by_tcp refusing_world

abbrev new_host : InUse FormState
new_host = record { form = edit (set_name (text "nas")) (initial_state none none); submissions = 0 }

name_allowed : Allows (set_name (text "nas")) (form_items false (initial_state none none))
unfolding form_items fields initial_state
name_allowed = inl (refl, (text "nas", refl))

submit_allowed : Allows submit (form_items false new_host.form)
unfolding form_items fields initial_state status_items edit
submit_allowed = inr (inr (inr (inr (inr (inr (inl (refl, refl)))))))

pending_host-Reaches :
    Reaches
      (host_form silent false)
      (initial_state none none)
      (submitted (host_form silent false) new_host)
unfolding edit
pending_host-Reaches =
    moves new_host (submitted (host_form silent false) new_host)
      (moves (record { form = initial_state none none; submissions = 0 }) new_host starts
        (edited (record { form = initial_state none none; submissions = 0 }) (set_name (text "nas"))
          name_allowed))
      (submits new_host submit_allowed)

Reaches-host_form_example : (submitted (host_form silent false) new_host).submissions ≤ 1
Reaches-host_form_example =
    Reaches-host_form silent false none none (submitted (host_form silent false) new_host)
      pending_host-Reaches
