-- ===== src/SiteDetail/Screen.antt =====
-- What the page of web/src/components/SiteDetail.tsx shows, and what its buttons and forms are for.
use lab_keeper.Common.{
  Bool, List, Option, Text, [], decimal, false, if◌then◌else◌, none, or_else, or_text, some, text,
  true, ◌++◌, ◌||◌, ◌∷◌,
}
use lab_keeper.Api.Types.{Site}
use lab_keeper.Items.{Item, words, button, link, mounts, only, error_words}
use lab_keeper.SiteDetail.{
  Mode, edit_mode, create_host_mode, discover_mode, View, is_new, form_site,
}

pub data Click : Type 0 where
  set_mode : Mode → Click
  -- `handleDelete`, of the render that shows this site
  remove : Site → Click

pub data Child : Type 0 where
  site_form : Option Site → Child
  host_form discovery_panel : Text → Child

unfoldable pub site_page : Site → View → List (Item Click Child)
site_page site v =
    words site.name
    ∷ words (text "Site · Inventory place / account bucket")
    ∷ (only site.discovery_enabled (button (text "Discover") false (set_mode discover_mode) ∷ [])
        ++ (button (text "Add host") false (set_mode create_host_mode)
            ∷ button (text "Edit") false (set_mode edit_mode)
            ∷ button (text "Delete") false (remove site)
            ∷ (error_words v.error
                ++ (words (text "Hosts")
                    ∷ words (decimal v.host_count ++ text " ")
                    ∷ words (text "(expand site in the tree to browse)")
                    ∷ words (text "LAN discovery")
                    ∷ words (if site.discovery_enabled then text "Enabled" else text "Disabled")
                    ∷ words (text "ID")
                    ∷ words site.id
                    ∷ words (text "Select a host in the sidebar, or ")
                    ∷ link (text "/sites/" ++ site.id) (text "refresh this site")
                    ∷ words (text ".")
                    ∷ []))))

abbrev pub mode_items : Mode → Site → View → List (Item Click Child)
mode_items create_host_mode site v = mounts (host_form site.id) ∷ []
mode_items discover_mode site v = mounts (discovery_panel site.id) ∷ []
mode_items mode site v = site_page site v

abbrev pub site_items : Option Site → View → List (Item Click Child)
site_items none v = words (or_text (or_else v.error []) (text "Site not found")) ∷ []
site_items (some site) v = mode_items v.mode site v

abbrev pub is_edit : Mode → Bool
is_edit edit_mode = true
is_edit mode = false

-- The early returns: `loading`, and `mode === "edit" || isNew`
abbrev pub screen_choice : Bool → Bool → Option Text → View → List (Item Click Child)
screen_choice true edits site_id v = words (text "Loading site…") ∷ []
screen_choice false true site_id v = mounts (site_form (form_site site_id v)) ∷ []
screen_choice false false site_id v = site_items v.site v

unfoldable pub screen_items : Option Text → View → List (Item Click Child)
screen_items site_id v = screen_choice v.loading (is_edit v.mode || is_new site_id) site_id v
