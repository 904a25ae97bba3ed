-- ===== src/DiscoveryPanel/Once.antt =====
-- That web/src/components/DiscoveryPanel.tsx has no request under way twice.
use lab_keeper.Common.{
  Bool, Bool-cases, List, Text, [], ap, arith, false, if◌then◌else◌, inl, inr, refl, suc, sym,
  text_eq, text_eq_sound, true, ℕ, ◌∙◌, ◌∷◌, ◌≡◌, ◌≤◌, ◌⊎◌,
}
use lab_keeper.Oidc.Types.{Failure}
use lab_keeper.Oidc.World.{Result, ok, throws}
use lab_keeper.Json.{Json}
use lab_keeper.TextSet.{has_text, delete_text}
use lab_keeper.TextSet.Laws.{has_text-add_text, has_text-delete_text}
use lab_keeper.DiscoveryPanel.{
  DiscoveryNetwork, scan_for, scan_target, DiscoveryStatus, DiscoveryCandidate, choose_network,
  scan_begins, scan_ended, add_begins, add_ended, status_ended, status_settled,
}
use lab_keeper.DiscoveryPanel.Panel.{Click, scan, add}
use lab_keeper.DiscoveryPanel.Requests.{
  Panel, begun_scans, act, Moves, clicks, edits_cidr, edits_custom, ticks, knows, scans_end,
  adds_end, Reaches, starts, moves,
}
use lab_keeper.DiscoveryPanel.Offered.{Allowed, panel_items-Allowed}

abbrev busy : Bool → ℕ
busy b = if b then 1 else 0

-- The flags of the view tell what is under way.
record Counts (p : Panel) : Type 0 where
  scan_count : p.scans ≡ busy p.view.scanning
  add_count : (ip : Text) → p.additions ip ≡ busy (has_text p.view.adding_ips ip)

-- A scan has begun, or the target was empty.
scan_begins-Counts : (p : Panel) → p.view.scanning ≡ false → Counts p → Counts (act scan p)
unfolding scan_begins
scan_begins-Counts p quiet h = by_target (scan_target p.view)
  where
    by_target :
        (target : Text)
        → Counts (record p {
          view = (scan_for target p.view).0;
          scans = begun_scans (scan_for target p.view).1 p.scans;
        })
    by_target [] = record { scan_count = h.scan_count; add_count = h.add_count }
    by_target (c ∷ target) = record {
      scan_count = ap suc (h.scan_count ∙ ap busy quiet);
      add_count = h.add_count;
    }

add_begins-Counts :
    (p : Panel) (c : DiscoveryCandidate)
    → has_text p.view.adding_ips c.ip ≡ false
    → Counts p
    → Counts (act (add c) p)
unfolding add_begins
add_begins-Counts p c fresh h = record {
  scan_count = h.scan_count;
  add_count = λ ip. counted ip (Bool-cases (text_eq c.ip ip));
}
  where
    counted :
        (ip : Text)
        → (text_eq c.ip ip ≡ true) ⊎ (text_eq c.ip ip ≡ false)
        → (act (add c) p).additions ip ≡ busy (has_text (act (add c) p).view.adding_ips ip)
    counted ip (inl same) =
        let none_here =
          ap (λ t. busy (has_text p.view.adding_ips t)) (sym (text_eq_sound c.ip ip same))
          ∙ ap busy fresh in
        rw (has_text-add_text p.view.adding_ips c.ip ip, same, h.add_count ip, none_here)
          (ground arith)
    counted ip (inr other) =
        rw (has_text-add_text p.view.adding_ips c.ip ip, other, h.add_count ip) (ground arith)

-- One addition less is under way at the address, where there was just one.
ended-count :
    (p : Panel) (n : ℕ) (t : Text)
    → p.additions t ≡ suc n
    → Counts p
    → (ip : Text)
    → (if text_eq t ip then n else p.additions ip)
      ≡ busy (has_text (delete_text p.view.adding_ips t) ip)
ended-count p n t pending h ip = elim (Bool-cases (text_eq t ip)) [
  | inl same ↦
      let here = h.add_count t in
      let gone : n ≡ 0 = ground arith in
      rw (has_text-delete_text p.view.adding_ips t ip, same, gone) (ground arith)
  | inr other ↦
      rw (has_text-delete_text p.view.adding_ips t ip, other, h.add_count ip) (ground arith)
]

add_ended-Counts :
    (engine : Failure → Text) (p : Panel) (n : ℕ) (c : DiscoveryCandidate) (r : Result Json)
    → p.additions c.ip ≡ suc n
    → Counts p
    → Counts (record p {
      view = (add_ended engine c r p.view).0;
      additions = λ ip. if text_eq c.ip ip then n else p.additions ip;
    })
unfolding add_ended
add_ended-Counts engine p n c (ok host) pending h = record {
  scan_count = h.scan_count;
  add_count = ended-count p n c.ip pending h;
}
add_ended-Counts engine p n c (throws e) pending h = record {
  scan_count = h.scan_count;
  add_count = ended-count p n c.ip pending h;
}

scan_ended-Counts :
    (engine : Failure → Text) (p : Panel) (n : ℕ) (r : Result (List DiscoveryCandidate))
    → p.scans ≡ suc n
    → Counts p
    → Counts (record p { view = scan_ended engine r p.view; scans = n })
unfolding scan_ended
scan_ended-Counts engine p n r pending h = by_result r
  where
    last : n ≡ 0
    last = let here = h.scan_count in ground arith

    by_result :
        (r : Result (List DiscoveryCandidate))
        → Counts (record p { view = scan_ended engine r p.view; scans = n })
    by_result (ok []) = record { scan_count = last; add_count = h.add_count }
    by_result (ok (c ∷ cs)) = record { scan_count = last; add_count = h.add_count }
    by_result (throws e) = record { scan_count = last; add_count = h.add_count }

status_ended-Counts :
    (engine : Failure → Text) (p : Panel) (r : Result DiscoveryStatus)
    → Counts p
    → Counts (record p { view = status_ended engine r p.view })
unfolding status_ended
status_ended-Counts engine p (throws e) h = record {
  scan_count = h.scan_count;
  add_count = h.add_count;
}
status_ended-Counts engine p (ok status) h = by_status status.enabled status.networks
  where
    by_status :
        (enabled : Bool) (networks : List DiscoveryNetwork)
        → Counts (record p { view = status_settled engine enabled networks p.view })
    by_status enabled [] = record { scan_count = h.scan_count; add_count = h.add_count }
    by_status false (n ∷ ns) = record { scan_count = h.scan_count; add_count = h.add_count }
    by_status true (n ∷ ns) = record { scan_count = h.scan_count; add_count = h.add_count }

act-Counts : (m : Click) (p : Panel) → Allowed p.view m → Counts p → Counts (act m p)
act-Counts m p (inl leaves) h = rw leaves h
act-Counts m p (inr (inl (scans, quiet))) h = rw scans (scan_begins-Counts p quiet h)
act-Counts m p (inr (inr (c, adds, fresh))) h = rw adds (add_begins-Counts p c fresh h)

module _ (engine : Failure → Text) where
  move-Counts : {p q : Panel} → Moves engine p q → Counts p → Counts q
  unfolding choose_network
  move-Counts (clicks p m offered) h = act-Counts m p (panel_items-Allowed m p.view offered) h
  move-Counts (edits_cidr p cidr) h = record { scan_count = h.scan_count; add_count = h.add_count }
  move-Counts (edits_custom p cidr) h = record {
    scan_count = h.scan_count;
    add_count = h.add_count;
  }
  move-Counts (ticks p shown) h = record { scan_count = h.scan_count; add_count = h.add_count }
  move-Counts (knows p r) h = status_ended-Counts engine p r h
  move-Counts (scans_end p n r pending) h = scan_ended-Counts engine p n r pending h
  move-Counts (adds_end p n c r pending) h = add_ended-Counts engine p n c r pending h

  Reaches-Counts : {p : Panel} → Reaches engine p → Counts p
  unfolding has_text
  Reaches-Counts starts = record { scan_count = refl; add_count = λ ip. refl }
  Reaches-Counts (moves p q before move) = move-Counts move (Reaches-Counts before)

busy_bound : (b : Bool) → busy b ≤ 1
busy_bound true = omega arith
busy_bound false = omega arith

-- Whoever uses the panel through what it shows, and however late the answers come: never more than one scan
-- is under way, and never more than one addition of an address.
pub Reaches-once :
    (engine : Failure → Text) (p : Panel)
    → Reaches engine p
    → (p.scans ≤ 1) × ((ip : Text) → p.additions ip ≤ 1)
Reaches-once engine p h =
    let counts = Reaches-Counts engine h in
    (
      rw counts.scan_count (busy_bound p.view.scanning),
      λ ip. rw (counts.add_count ip) (busy_bound (has_text p.view.adding_ips ip)),
    )
