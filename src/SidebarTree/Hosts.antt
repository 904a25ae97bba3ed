-- ===== src/SidebarTree/Hosts.antt =====
-- The hosts by site of web/src/components/SidebarTree.tsx, when new ones are loaded.
use lab_keeper.Common.{
  Bool, Bool-cases, List, Option, Text, [], ap, arith, false, if◌then◌else◌, inl, inr, none, refl,
  some, spread, sym, text_eq, text_eq_sound, true, ◌∙◌, ◌∷◌, ◌≡◌,
}
use lab_keeper.Api.Types.{Host}
use lab_keeper.SidebarTree.{HostsBySite, hosts_of, put_hosts, merge}

hosts_of-put_hosts :
    (m : HostsBySite) (id : Text) (hosts : List Host) (other : Text)
    → hosts_of (put_hosts m id hosts) other
      ≡ (if text_eq id other then some hosts else hosts_of m other)
unfolding hosts_of put_hosts
hosts_of-put_hosts [] id hosts other = refl
hosts_of-put_hosts ((site, old) ∷ rest) id hosts other =
    let later = hosts_of-put_hosts rest id hosts other in
    elim (Bool-cases (text_eq site id)) [
      | inl same ↦
          let k : text_eq site other ≡ text_eq id other =
            ap (λ v. text_eq v other) (text_eq_sound site id same) in
          ground arith
      | inr differs ↦ elim (Bool-cases (text_eq id other)) [
        | inl found ↦
            let k : text_eq site other ≡ text_eq site id =
              ap (λ v. text_eq site v) (sym (text_eq_sound id other found)) in
            ground arith
        | inr apart ↦ ground arith
      ]
    ]

-- What was loaded for a site, the last of several answers.
abbrev pub loaded : List (Text × List Host) → Text → Option (List Host)
loaded [] id = none
loaded ((site, hosts) ∷ entries) id =
    spread (if text_eq site id then some hosts else none) (loaded entries id)

spread_over :
    (put old : Option (List Host)) (hosts : List Host) (later : Option (List Host)) (here : Bool)
    → put ≡ (if here then some hosts else old)
    → spread put later ≡ spread old (spread (if here then some hosts else none) later)
spread_over put old hosts none true h = h
spread_over put old hosts none false h = h
spread_over put old hosts (some l) here h = refl

-- After a load each site that was asked for has its new hosts, and every other keeps those it had.
pub hosts_of-merge :
    (entries : List (Text × List Host)) (m : HostsBySite) (id : Text)
    → hosts_of (merge entries m) id ≡ spread (hosts_of m id) (loaded entries id)
unfolding merge
hosts_of-merge [] m id = refl
hosts_of-merge ((site, hosts) ∷ entries) m id =
    hosts_of-merge entries (put_hosts m site hosts) id
    ∙ spread_over (hosts_of (put_hosts m site hosts) id) (hosts_of m id) hosts (loaded entries id)
        (text_eq site id) (hosts_of-put_hosts m site hosts id)
