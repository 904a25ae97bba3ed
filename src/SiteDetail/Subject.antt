-- ===== src/SiteDetail/Subject.antt =====
-- Which site the buttons and forms of web/src/components/SiteDetail.tsx are for.
use lab_keeper.Common.{
  Bool, List, Option, Text, false, if◌then◌else◌, none, refl, some, true, ℕ, ◌||◌, ◌≡◌,
}
use lab_keeper.Oidc.Types.{Failure}
use lab_keeper.Oidc.World.{Result}
use lab_keeper.Api.Types.{Site}
use lab_keeper.Effects.{Mounted, Event, mount, play}
use lab_keeper.Effects.Laws.{AreFair}
use lab_keeper.Items.{Item, only, error_words}
use lab_keeper.Items.Everywhere.{
  Everywhere, Everywhere-append, Everywhere-only, Everywhere-error_words,
}
use lab_keeper.SiteDetail.{
  Mode, view_mode, edit_mode, create_host_mode, discover_mode, View, Input, is_new, form_site,
  initial_view, page,
}
use lab_keeper.SiteDetail.Address.{Inv, FairAnswer, play-shown_site}
use lab_keeper.SiteDetail.Screen.{
  Click, set_mode, remove, Child, site_form, host_form, discovery_panel, site_page, mode_items,
  site_items, screen_items, screen_choice, is_edit,
}

-- The site that a click deletes is that of the address.
abbrev pub Deletes : Option Text → Click → Type 0
Deletes site_id (set_mode m) = Unit
Deletes site_id (remove site) = site_id ≡ some site.id

-- The site that a child edits, adds a host to or scans is that of the address.
abbrev pub Serves : Option Text → Child → Type 0
Serves site_id (site_form none) = Unit
Serves site_id (site_form (some site)) = site_id ≡ some site.id
Serves site_id (host_form id) = site_id ≡ some id
Serves site_id (discovery_panel id) = site_id ≡ some id

module _ (site_id : Option Text) where
  abbrev Own : List (Item Click Child) → Type 0
  Own items = Everywhere (Deletes site_id) (Serves site_id) items

  site_page-Own : (site : Site) (v : View) → site_id ≡ some site.id → Own (site_page site v)
  unfolding site_page
  site_page-Own site v own =
      Everywhere-append (Deletes site_id) (Serves site_id) (only site.discovery_enabled _) _
        (Everywhere-only (Deletes site_id) (Serves site_id) site.discovery_enabled _
          (λ h. ((λ e. tt), tt)))
        (
          (λ e. tt),
          (
            (λ e. tt),
            (
              (λ e. own),
              Everywhere-append (Deletes site_id) (Serves site_id) (error_words v.error) _
                  (Everywhere-error_words (Deletes site_id) (Serves site_id) v.error) tt,
            ),
          ),
        )

  mode_items-Own :
      (m : Mode) (site : Site) (v : View) → site_id ≡ some site.id → Own (mode_items m site v)
  mode_items-Own create_host_mode site v own = (own, tt)
  mode_items-Own discover_mode site v own = (own, tt)
  mode_items-Own view_mode site v own = site_page-Own site v own
  mode_items-Own edit_mode site v own = site_page-Own site v own

  site_items-Own :
      (o : Option Site) (v : View)
      → ((row : Site) → o ≡ some row → site_id ≡ some row.id)
      → Own (site_items o v)
  site_items-Own none v own = tt
  site_items-Own (some site) v own = mode_items-Own v.mode site v (own site refl)

  form_site-Serves :
      (v : View)
      → ((row : Site) → v.site ≡ some row → site_id ≡ some row.id)
      → Serves site_id (site_form (form_site site_id v))
  unfolding form_site
  form_site-Serves v own = by_age (is_new site_id) v.site own
    where
      by_age :
          (b : Bool) (o : Option Site)
          → ((row : Site) → o ≡ some row → site_id ≡ some row.id)
          → Serves site_id (site_form (if b then none else o))
      by_age true o own = tt
      by_age false none own = tt
      by_age false (some row) own = own row refl

  screen_items-Own :
      (v : View)
      → (v.loading ≡ false → (row : Site) → v.site ≡ some row → site_id ≡ some row.id)
      → Own (screen_items site_id v)
  unfolding screen_items
  screen_items-Own v own = by_tests v.loading (is_edit v.mode || is_new site_id) own
    where
      by_tests :
          (busy edits : Bool)
          → (busy ≡ false → (row : Site) → v.site ≡ some row → site_id ≡ some row.id)
          → Own (screen_choice busy edits site_id v)
      by_tests true edits own = tt
      by_tests false true own = (form_site-Serves v (own refl), tt)
      by_tests false false own = site_items-Own v.site v (own refl)

-- Whatever the page can do is done to the site of its address: however the address changes and however late the
-- answers come, while the session lasts and the server answers with the site that was asked for, a
-- page that shows no failure deletes, edits, scans, and adds hosts to, no other site.
pub site_screen-Everywhere :
    (engine : Failure → Text) (first : Option Text)
    (es : List (Event (Option Text) (Result (Site × ℕ)) Input)) (site_id : Option Text)
    (s : Mounted (Option Text) View)
    → play (page engine) es (mount (initial_view first)) ≡ s
    → AreFair (page engine) Inv FairAnswer (λ p i. Unit) es (mount (initial_view first))
    → s.props ≡ some site_id
    → s.view.error ≡ none
    → Everywhere (Deletes site_id) (Serves site_id) (screen_items site_id s.view)
site_screen-Everywhere engine first es site_id s same fair now well =
    screen_items-Own site_id s.view
      (λ idle row here. play-shown_site engine first es site_id row s same fair now idle well here)
