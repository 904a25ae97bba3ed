-- ===== src/HostDetail/Addresses.antt =====
-- The addresses that web/src/components/HostDetail.tsx lists.
use lab_keeper.Common.{
  Bool-cases, List, Option, Text, [], arith, false, if◌then◌else◌, inl, inr, is_some, length,
  non_empty, none, or_else, refl, some, text_eq, text_eq_iff, text_eq_refl, true, ◌++◌, ◌+◌, ◌↔◌,
  ◌∷◌, ◌≡◌, ◌⊎◌,
}
use lab_keeper.Api.Types.{Host}
use lab_keeper.HostDetail.{
  shown_addresses, address_count, option_list, primary_ip, has, is_primary, collect, secondary_ips,
}

-- The address is in the list.
abbrev pub Listed : Text → List Text → Type 0
Listed ip [] = ⊥
Listed ip (x ∷ xs) = (x ≡ ip) ⊎ Listed ip xs

abbrev pub Distinct : List Text → Type 0
Distinct [] = Unit
Distinct (x ∷ xs) = ¬ (Listed x xs) × Distinct xs

has-Listed : (seen : List Text) (ip : Text) → has seen ip ≡ true → Listed ip seen
unfolding has
has-Listed [] ip h = cc
has-Listed (s ∷ seen) ip h = elim (Bool-cases (text_eq s ip)) [
  | inl same ↦ inl ((text_eq_iff s ip).0 same)
  | inr other ↦ inr (has-Listed seen ip (ground arith))
]

Listed-has : (seen : List Text) (ip : Text) → Listed ip seen → has seen ip ≡ true
unfolding has
Listed-has [] ip h = elim h [ ]
Listed-has (s ∷ seen) ip (inl same) = ground (arith, text_eq_iff s ip)
Listed-has (s ∷ seen) ip (inr later) = ground (arith, Listed-has seen ip later)

-- What the loop keeps: a listed address that is not empty, not the primary one and not seen.
abbrev IsWanted : Option Text → List Text → List Text → Text → Type 0
IsWanted primary seen ips ip =
    Listed ip ips × (non_empty ip ≡ true) × (is_primary primary ip ≡ false) × (has seen ip ≡ false)

collect_sound :
    (primary : Option Text) (seen ips : List Text) (ip : Text)
    → Listed ip (collect primary seen ips)
    → IsWanted primary seen ips ip
unfolding collect has
collect_sound primary seen [] ip h = elim h [ ]
collect_sound primary seen (x ∷ ips) ip h =
    ground (arith, collect_sound primary seen ips ip, collect_sound primary (x ∷ seen) ips ip)

collect_complete :
    (primary : Option Text) (seen ips : List Text) (ip : Text)
    → IsWanted primary seen ips ip
    → Listed ip (collect primary seen ips)
unfolding collect has
collect_complete primary seen [] ip h = absurd h.0
collect_complete primary seen (x ∷ ips) ip h = ground (
  arith,
  collect_complete primary seen ips ip,
  collect_complete primary (x ∷ seen) ips ip,
  text_eq_iff x ip,
)

collect-Distinct :
    (primary : Option Text) (seen ips : List Text) → Distinct (collect primary seen ips)
unfolding collect has
collect-Distinct primary seen [] = tt
collect-Distinct primary seen (x ∷ ips) = ground (
  arith,
  collect-Distinct primary seen ips,
  collect-Distinct primary (x ∷ seen) ips,
  collect_sound primary (x ∷ seen) ips x,
  text_eq_refl x,
)

none_seen : (ip : Text) → has [] ip ≡ false
unfolding has
none_seen ip = refl

-- The further addresses are, without repetition, exactly the reported ones that are not empty and
-- not the primary address.
pub secondary_ips-Distinct :
    (host : Host)
    → Distinct (secondary_ips host)
      × ((ip : Text)
          → Listed ip (secondary_ips host) ↔ (
              Listed ip (or_else host.ips [])
              × (non_empty ip ≡ true)
              × (is_primary (primary_ip host) ip ≡ false)))
unfolding secondary_ips
secondary_ips-Distinct host = (
  collect-Distinct (primary_ip host) [] (or_else host.ips []),
  λ ip. (
    λ h.
        let (l, n, p, s) = collect_sound (primary_ip host) [] (or_else host.ips []) ip h in
        (l, n, p),
    λ h.
        collect_complete (primary_ip host) [] (or_else host.ips []) ip
          (h.0, h.1, h.2, none_seen ip),
  ),
)

primary_ip-not_secondary :
    (primary : Option Text) (ips : List Text) (ip : Text)
    → primary ≡ some ip
    → ¬ (Listed ip (collect primary [] ips))
primary_ip-not_secondary none ips ip h listed = cc
primary_ip-not_secondary (some p) ips ip h listed =
    ground (arith, collect_sound (some p) [] ips ip, text_eq_iff ip p)

shown-Distinct :
    (primary : Option Text) (ips : List Text)
    → Distinct (option_list primary ++ collect primary [] ips)
shown-Distinct none ips = collect-Distinct none [] ips
shown-Distinct (some p) ips =
    (primary_ip-not_secondary (some p) ips p refl, collect-Distinct (some p) [] ips)

shown-length :
    (primary : Option Text) (ips : List Text)
    → length (option_list primary ++ collect primary [] ips)
      ≡ (if is_some primary then 1 else 0) + length (collect primary [] ips)
shown-length none ips = omega arith
shown-length (some p) ips = omega arith

-- No address is shown twice, so the addresses serve as keys of the list, and the count in the tab's
-- title is the number of addresses in the list.
pub shown_addresses-Distinct :
    (host : Host)
    → Distinct (shown_addresses host) × (length (shown_addresses host) ≡ address_count host)
unfolding shown_addresses address_count secondary_ips
shown_addresses-Distinct host = (
  shown-Distinct (primary_ip host) (or_else host.ips []),
  shown-length (primary_ip host) (or_else host.ips []),
)
