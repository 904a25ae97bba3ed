-- ===== src/SidebarTree/Tests.antt =====
-- A tree with one open site, and the theorems of web/src/components/SidebarTree.tsx there.
use lab_keeper.Common.{[], none, text, true, ◌↔◌, ◌∷◌, ◌≡◌, ◌⊎◌}
use lab_keeper.Api.Types.{Site}
use lab_keeper.SidebarTree.Rows.{tree_items}
use lab_keeper.SidebarTree.Links.{Leads, SiteAt, tree_items-Leads}
use lab_keeper.SidebarTree.{Tree}

abbrev lab_site : Site
lab_site = record {
  id = text "a";
  name = text "lab";
  discovery_enabled = true;
  created_at = text "t";
  updated_at = text "t";
}

abbrev tree : Tree
tree = record {
  sites = lab_site ∷ [];
  expanded = text "a" ∷ [];
  hosts_by_site = (text "a", []) ∷ [];
  error = none;
}

tree_items-Leads_example :
    Leads (text "/sites/a") (tree_items tree)
    ↔ ((text "/sites/a" ≡ text "/labkeeper") ⊎ SiteAt tree (text "/sites/a") tree.sites)
tree_items-Leads_example = tree_items-Leads tree (text "/sites/a")
