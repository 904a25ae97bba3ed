-- ===== src/SidebarTree/Rows.antt =====
-- What web/src/components/SidebarTree.tsx shows: the sites, and below each open one its hosts.
use lab_keeper.Common.{List, Text, [], false, if◌then◌else◌, or_else, text, ◌++◌, ◌∷◌}
use lab_keeper.Api.Types.{Host, Site}
use lab_keeper.TextSet.{has_text}
use lab_keeper.Items.{Item, words, button, link, only, error_words}
use lab_keeper.SidebarTree.{host_label, Tree, hosts_of}

-- `navigate("/sites/new")` and `toggleSite(site.id)`
pub data Click : Type 0 where
  add_site : Click
  toggle : Text → Click

unfoldable pub host_rows : List Host → List (Item Click ⊥)
host_rows [] = []
host_rows (host ∷ hosts) = link (text "/hosts/" ++ host.id) (host_label host) ∷ host_rows hosts

abbrev pub host_items : List Host → List (Item Click ⊥)
host_items [] = words (text "No hosts") ∷ []
host_items (host ∷ hosts) = host_rows (host ∷ hosts)

-- `hostsBySite[site.id] ?? []`
abbrev pub hosts_shown : Tree → Site → List Host
hosts_shown t site = or_else (hosts_of t.hosts_by_site site.id) []

unfoldable pub site_rows : Tree → List Site → List (Item Click ⊥)
site_rows t [] = []
site_rows t (site ∷ sites) =
    button [] false (toggle site.id)
    ∷ link (text "/sites/" ++ site.id) site.name
    ∷ (only (has_text t.expanded site.id) (host_items (hosts_shown t site)) ++ site_rows t sites)

unfoldable pub tree_items : Tree → List (Item Click ⊥)
tree_items t =
    words (text "Inventory")
    ∷ button (text "Add site") false add_site
    ∷ (error_words t.error ++ (link (text "/labkeeper") (text "LabKeeper") ∷ site_rows t t.sites))

pub data Colour : Type 0 where
  status_online status_offline : Colour

abbrev pub host_status_color : Host → Colour
host_status_color host = if host.online then status_online else status_offline
