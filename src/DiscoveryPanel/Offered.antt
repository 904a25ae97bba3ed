-- ===== src/DiscoveryPanel/Offered.antt =====
-- Which clicks web/src/components/DiscoveryPanel.tsx offers.
use lab_keeper.Common.{
  Bool, List, Text, [], false, if◌then◌else◌, inl, inr, length, ltb, text, true, ◌++◌, ◌∷◌, ◌≡◌,
  ◌⊎◌,
}
use lab_keeper.TextSet.{has_text}
use lab_keeper.Items.{Item, words, button, only, error_words}
use lab_keeper.Items.Offers.{Offers, Offers-append, Offers-only, Offers-if, Offers-error_words}
use lab_keeper.DiscoveryPanel.{known_count, DiscoveryCandidate, View}
use lab_keeper.DiscoveryPanel.Panel.{
  Click, back, scan, add, panel_items, scan_items, candidate_items, candidate_rows, add_item,
  table_items,
}

-- A click that the table offers adds a candidate whose address is not being added.
abbrev pub AddsNew : List Text → Click → Type 0
AddsNew adding m = (c : DiscoveryCandidate) × (m ≡ add c) × (has_text adding c.ip ≡ false)

add_item-AddsNew :
    (m : Click) (adding : List Text) (c : DiscoveryCandidate) (items : List (Item Click ⊥))
    → Offers m (add_item adding c ∷ items)
    → AddsNew adding m ⊎ Offers m items
add_item-AddsNew m adding c items h = choose c.already_known h
  where
    choose :
        (b : Bool)
        → Offers m (
            (if b
              then words (text "In inventory")
              else button
                  (if has_text adding c.ip then text "Adding…" else text "Add")
                  (has_text adding c.ip)
                  (add c))
            ∷ items)
        → AddsNew adding m ⊎ Offers m items
    choose true later = inr later
    choose false (inl here) = inl (c, here.1, here.0)
    choose false (inr later) = inr later

candidate_rows-AddsNew :
    (m : Click) (adding : List Text) (cs : List DiscoveryCandidate)
    → Offers m (candidate_rows adding cs)
    → AddsNew adding m
unfolding candidate_rows
candidate_rows-AddsNew m adding [] h = absurd h
candidate_rows-AddsNew m adding (c ∷ cs) h =
    elim (add_item-AddsNew m adding c (candidate_rows adding cs) h) [
      | inl here ↦ here
      | inr later ↦ candidate_rows-AddsNew m adding cs later
    ]

table_items-AddsNew :
    (m : Click) (adding : List Text) (cs : List DiscoveryCandidate)
    → Offers m (table_items adding cs)
    → AddsNew adding m
table_items-AddsNew m adding [] h = absurd h
table_items-AddsNew m adding (c ∷ cs) h = candidate_rows-AddsNew m adding (c ∷ cs) h

candidate_items-AddsNew :
    (m : Click) (v : View) → Offers m (candidate_items v) → AddsNew v.adding_ips m
unfolding candidate_items
candidate_items-AddsNew m v h =
    elim (Offers-append m (only (ltb 0 (known_count v)) _) _
      (Offers-only m (ltb 0 (length v.candidates)) _ h).1) [
        | inl count ↦ absurd (Offers-only m (ltb 0 (known_count v)) _ count).1
        | inr rows ↦ table_items-AddsNew m v.adding_ips _ rows
      ]

-- The clicks that an open panel offers.
abbrev pub Allowed : View → Click → Type 0
Allowed v m = (m ≡ back) ⊎ ((m ≡ scan) × (v.scanning ≡ false)) ⊎ AddsNew v.adding_ips m

shown-Allowed :
    (m : Click) (v : View)
    → Offers m ((scan_items v ++ error_words v.error) ++ candidate_items v)
    → Allowed v m
unfolding scan_items
shown-Allowed m v h = elim (Offers-append m (scan_items v ++ error_words v.error) _ h) [
  | inr rows ↦ inr (inr (candidate_items-AddsNew m v rows))
  | inl above ↦ elim (Offers-append m (scan_items v) _ above) [
    | inl top ↦ elim (Offers-only m (ltb 0 (length v.networks)) _ top).1 [
      | inl here ↦ inr (inl (here.1, here.0))
      | inr nothing ↦ absurd nothing
    ]
    | inr nothing ↦ absurd (Offers-error_words ⊥ m v.error nothing)
  ]
]

pub panel_items-Allowed : (m : Click) (v : View) → Offers m (panel_items v) → Allowed v m
unfolding panel_items
panel_items-Allowed m v h = elim (Offers-if m v.loading_status _ _ h) [
  | inl waiting ↦ absurd waiting
  | inr (inl here) ↦ inl here.1
  | inr (inr below) ↦ shown-Allowed m v below
]
