-- ===== src/DiscoveryPanel/Requests.antt =====
-- The requests of web/src/components/DiscoveryPanel.tsx: only what the panel offers can be clicked, and each
-- request is answered once.
use lab_keeper.Common.{Bool, List, Option, Text, if◌then◌else◌, none, some, suc, text_eq, ℕ, ◌≡◌}
use lab_keeper.Oidc.Types.{Failure}
use lab_keeper.Oidc.World.{Result}
use lab_keeper.Json.{Json}
use lab_keeper.Items.Offers.{Offers}
use lab_keeper.DiscoveryPanel.{
  DiscoveryStatus, DiscoveryCandidate, View, initial_view, choose_network, scan_begins, scan_ended,
  add_begins, add_ended, status_ended,
}
use lab_keeper.DiscoveryPanel.Panel.{
  Click, back, scan, pick_cidr, type_cidr, set_shown, add, panel_items,
}

-- The panel, and how many requests are under way: scans, and additions by address.
pub record Panel : Type 0 where
  pub view : View
  pub scans : ℕ
  pub additions : Text → ℕ

abbrev pub opened : Panel
opened = record { view = initial_view; scans = 0; additions = λ ip. 0 }

abbrev pub begun_scans : Option Text → ℕ → ℕ
begun_scans none n = n
begun_scans (some cidr) n = suc n

-- What the handlers do. `Back` leaves the panel, and is not followed further.
abbrev pub act : Click → Panel → Panel
act back p = p
act scan p =
    let (v, asked) = scan_begins p.view in record p { view = v; scans = begun_scans asked p.scans }
act (pick_cidr cidr) p = record p { view = choose_network cidr p.view }
act (type_cidr cidr) p = record p { view = record p.view { custom_cidr = cidr } }
act (set_shown shown) p = record p { view = record p.view { show_in_inventory = shown } }
act (add c) p = record p {
  view = add_begins c p.view;
  additions = λ ip. if text_eq c.ip ip then suc (p.additions ip) else p.additions ip;
}

module _ (engine : Failure → Text) where
  -- One thing that happens to an open panel.
  pub data Moves : Panel → Panel → Type 0 where
    clicks : (p : Panel) (m : Click) → Offers m (panel_items p.view) → Moves p (act m p)
    edits_cidr : (p : Panel) (cidr : Text) → Moves p (act (pick_cidr cidr) p)
    edits_custom : (p : Panel) (cidr : Text) → Moves p (act (type_cidr cidr) p)
    ticks : (p : Panel) (shown : Bool) → Moves p (act (set_shown shown) p)
    knows :
        (p : Panel) (r : Result DiscoveryStatus)
        → Moves p (record p { view = status_ended engine r p.view })
    scans_end :
        (p : Panel) (n : ℕ) (r : Result (List DiscoveryCandidate))
        → p.scans ≡ suc n
        → Moves p (record p { view = scan_ended engine r p.view; scans = n })
    adds_end :
        (p : Panel) (n : ℕ) (c : DiscoveryCandidate) (r : Result Json)
        → p.additions c.ip ≡ suc n
        → Moves p (record p {
          view = (add_ended engine c r p.view).0;
          additions = λ ip. if text_eq c.ip ip then n else p.additions ip;
        })

  pub data Reaches : Panel → Type 0 where
    starts : Reaches opened
    moves : (p q : Panel) → Reaches p → Moves p q → Reaches q
