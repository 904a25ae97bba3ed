-- ===== src/DiscoveryPanel/Panel.antt =====
-- What web/src/components/DiscoveryPanel.tsx shows, and what its buttons do.
use lab_keeper.Common.{
  Bool, List, Option, Text, [], decimal, false, if◌then◌else◌, length, ltb, map, none, or_else,
  or_text, some, text, ℕ, ◌++◌, ◌∷◌,
}
use lab_keeper.Items.{Item, words, button, field, tick, choice, only, error_words, join_comma}
use lab_keeper.DiscoveryPanel.{
  DiscoveryNetwork, DiscoveryCandidate, View, visible_candidates, known_count,
}
use lab_keeper.TextSet.{has_text}

pub data Click : Type 0 where
  back scan : Click
  pick_cidr type_cidr : Text → Click
  set_shown : Bool → Click
  add : DiscoveryCandidate → Click

abbrev network_options : List DiscoveryNetwork → List (Text × Text)
network_options [] = []
network_options (n ∷ ns) =
    (n.cidr, n.cidr ++ text " (" ++ n.iface ++ text " · " ++ n.address ++ text ")")
    ∷ network_options ns

unfoldable pub scan_items : View → List (Item Click ⊥)
scan_items v = only (ltb 0 (length v.networks)) (
    choice (text "Detected network") v.cidr (network_options v.networks) v.scanning pick_cidr
    ∷ field (text "Custom CIDR (optional override)") v.custom_cidr v.scanning type_cidr
    ∷ button (if v.scanning then text "Scanning…" else text "Scan") v.scanning scan
    ∷ [])

-- `texts?.join(", ") || "—"`
abbrev pub joined : Option (List Text) → Text
joined o = or_text (join_comma (or_else o [])) (text "—")

abbrev ports_text : Option (List ℕ) → Option (List Text)
ports_text none = none
ports_text (some ports) = some (map decimal ports)

abbrev pub add_item : List Text → DiscoveryCandidate → Item Click ⊥
add_item adding c =
    if c.already_known
    then words (text "In inventory")
    else button (if has_text adding c.ip then text "Adding…" else text "Add") (has_text adding c.ip)
        (add c)

unfoldable pub candidate_rows : List Text → List DiscoveryCandidate → List (Item Click ⊥)
candidate_rows adding [] = []
candidate_rows adding (c ∷ cs) =
    words c.ip
    ∷ words (or_text (or_else c.hostname []) (text "—"))
    ∷ words (joined (ports_text c.open_ports))
    ∷ words (joined c.methods)
    ∷ add_item adding c
    ∷ candidate_rows adding cs

abbrev pub table_items : List Text → List DiscoveryCandidate → List (Item Click ⊥)
table_items adding [] =
    words
      (text "All scan results are already in inventory. Enable “Show in inventory” to list them.")
    ∷ []
table_items adding (c ∷ cs) =
    words (text "IP")
    ∷ words (text "Reverse DNS")
    ∷ words (text "Ports")
    ∷ words (text "Methods")
    ∷ candidate_rows adding (c ∷ cs)

unfoldable pub candidate_items : View → List (Item Click ⊥)
candidate_items v = only (ltb 0 (length v.candidates)) (
    tick (text "Show in inventory") v.show_in_inventory false set_shown
    ∷ (only (ltb 0 (known_count v)) (words (text "(" ++ decimal (known_count v) ++ text ")") ∷ [])
        ++ table_items v.adding_ips (visible_candidates v)))

unfoldable pub panel_items : View → List (Item Click ⊥)
panel_items v =
    if v.loading_status
    then words (text "Checking private networks…") ∷ []
    else words (text "Discover LAN")
      ∷ button (text "Back") v.scanning back
      ∷ words (
          text
            "Scans from the Server on private RFC1918 networks only (max /23). Results are candidates — nothing is added until you click Add.")
      ∷ (scan_items v ++ error_words v.error ++ candidate_items v)
