-- ===== src/SiteForm/Fields.antt =====
-- What web/src/components/SiteForm.tsx shows.
use lab_keeper.Common.{Bool, List, Text, [], false, if◌then◌else◌, text, ◌++◌, ◌∷◌}
use lab_keeper.Items.{Item, words, button, field, tick, error_words}
use lab_keeper.SiteForm.{FormState}

-- The fields' handlers, `handleSubmit` and `onCancel`
pub data Click : Type 0 where
  set_name : Text → Click
  set_discovery : Bool → Click
  submit cancel : Click

-- The first argument is `editing`.
unfoldable pub form_items : Bool → FormState → List (Item Click ⊥)
form_items editing s =
    words (if editing then text "Edit site" else text "Add site")
    ∷ words
        (text "A site groups Hosts by place or cloud account (e.g. Default, DigitalOcean, AWS).")
    ∷ field (text "Name") s.name false set_name
    ∷ tick (text "Enable LAN discovery for this site") s.discovery_enabled false set_discovery
    ∷ (error_words s.error
        ++ (button (if s.saving then text "Saving…" else text "Save") s.saving submit
            ∷ button (text "Cancel") s.saving cancel
            ∷ []))

unfoldable pub edit : Click → FormState → FormState
edit (set_name t) s = record s { name = t }
edit (set_discovery b) s = record s { discovery_enabled = b }
edit click s = s
