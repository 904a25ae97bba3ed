-- ===== src/DiscoveryPanel/Tests.antt =====
-- Two additions that overlap, and a scan that is under way.
use lab_keeper.Common.{List, Text, [], false, inl, inr, none, refl, text, trim, true, ◌∷◌, ◌≡◌, ◌≤◌}
use lab_keeper.Oidc.Types.{Failure, network_error}
use lab_keeper.Oidc.World.{ok, throws}
use lab_keeper.Json
use lab_keeper.DiscoveryPanel.{
  DiscoveryNetwork, DiscoveryStatus, DiscoveryCandidate, View, status_ended, initial_view,
  scan_begins, scan_target,
}
use lab_keeper.Items.Offers.{Offers}
use lab_keeper.DiscoveryPanel.Panel.{scan, scan_items, panel_items}
use lab_keeper.DiscoveryPanel.Requests.{Panel, opened, act, knows, clicks, starts, moves, Reaches}
use lab_keeper.DiscoveryPanel.Once.{Reaches-once}
use lab_keeper.DiscoveryPanel.Candidates.{Addition, begins, ends}

abbrev found : Text → DiscoveryCandidate
found ip = record {
  ip = ip;
  hostname = none;
  rtt_ms = none;
  open_ports = none;
  methods = none;
  already_known = false;
}

abbrev engine : Failure → Text
engine e = text "m"

abbrev scanned : View
scanned = record initial_view { candidates = found (text "a") ∷ found (text "b") ∷ [] }

no_target : (scan_begins initial_view).1 ≡ none
unfolding scan_begins scan_target lab_keeper.Common.trim
no_target = refl

abbrev overlapping : List Addition
overlapping =
    begins (found (text "a"))
    ∷ begins (found (text "b"))
    ∷ ends (found (text "a")) (ok Json.null)
    ∷ ends (found (text "b")) (throws network_error)
    ∷ []

abbrev office : DiscoveryNetwork
office = record { iface = text "eth0"; cidr = text "10.0.0.0/24"; address = text "10.0.0.2" }

abbrev office_status : DiscoveryStatus
office_status = record { enabled = true; networks = office ∷ [] }

abbrev ready : Panel
ready = record opened { view = status_ended engine (ok office_status) initial_view }

scan_offered : Offers scan (panel_items ready.view)
unfolding panel_items scan_items status_ended
scan_offered = inr (inl (refl, refl))

abbrev scan_pending : Panel
scan_pending = act scan ready

scan_pending-Reaches : Reaches engine scan_pending
scan_pending-Reaches =
    moves ready scan_pending (moves opened ready starts (knows opened (ok office_status)))
      (clicks ready scan scan_offered)

one_scan : scan_pending.scans ≡ 1
unfolding scan_begins scan_target status_ended lab_keeper.Common.trim text
one_scan = refl

Reaches-once_example : (scan_pending.scans ≤ 1) × ((ip : Text) → scan_pending.additions ip ≤ 1)
Reaches-once_example = Reaches-once engine scan_pending scan_pending-Reaches
