-- ===== src/SidebarTree/Links.antt =====
-- Where the links of web/src/components/SidebarTree.tsx lead.
use lab_keeper.Common.{
  Bool, Bool-cases, List, Option, Text, [], ap, false, inl, inr, none, or_else, refl, some, sym,
  text, text_eq, text_eq_refl, text_eq_sound, true, ◌++◌, ◌↔◌, ◌∙◌, ◌∷◌, ◌≡◌, ◌≢◌, ◌⊎◌,
}
use lab_keeper.Api.Types.{Host, Site}
use lab_keeper.TextSet.{has_text}
use lab_keeper.Items.{Item, words, button, field, tick, choice, link, mounts, only, error_words}
use lab_keeper.SidebarTree.{Tree, HostsBySite, hosts_of}
use lab_keeper.SidebarTree.Rows.{Click, host_rows, host_items, hosts_shown, site_rows, tree_items}

abbrev pub Leads : Text → List (Item Click ⊥) → Type 0
Leads to [] = ⊥
Leads to (link address shown ∷ items) = (to ≡ address) ⊎ Leads to items
Leads to (item ∷ items) = Leads to items

-- A host with this address is among them.
abbrev pub HostAt : Text → List Host → Type 0
HostAt to [] = ⊥
HostAt to (host ∷ hosts) = (to ≡ text "/hosts/" ++ host.id) ⊎ HostAt to hosts

-- A host with this address is in the first entry for the site's id.
abbrev pub LoadedAt : Text → Text → HostsBySite → Type 0
LoadedAt to id [] = ⊥
LoadedAt to id ((site, hosts) ∷ rest) =
    ((site ≡ id) × HostAt to hosts) ⊎ ((site ≢ id) × LoadedAt to id rest)

-- A site has this address, or is open and a host with it was loaded.
abbrev pub SiteAt : Tree → Text → List Site → Type 0
SiteAt t to [] = ⊥
SiteAt t to (site ∷ sites) =
    (to ≡ text "/sites/" ++ site.id)
    ⊎ ((has_text t.expanded site.id ≡ true) × LoadedAt to site.id t.hosts_by_site)
    ⊎ SiteAt t to sites

Leads-append :
    (to : Text) (p q : List (Item Click ⊥)) → Leads to (p ++ q) ↔ (Leads to p ⊎ Leads to q)
Leads-append to [] q = (λ h. inr h, λ h. elim h [ inl a ↦ absurd a | inr b ↦ b ])
Leads-append to (words t ∷ p) q = Leads-append to p q
Leads-append to (button l d m ∷ p) q = Leads-append to p q
Leads-append to (field l v d f ∷ p) q = Leads-append to p q
Leads-append to (tick l v d f ∷ p) q = Leads-append to p q
Leads-append to (choice l v o d f ∷ p) q = Leads-append to p q
Leads-append to (mounts c ∷ p) q = Leads-append to p q
Leads-append to (link a s ∷ p) q =
    let rest = Leads-append to p q in
    (
      λ h. elim h [
        | inl here ↦ inl (inl here)
        | inr later ↦ elim (rest.0 later) [ inl x ↦ inl (inr x) | inr y ↦ inr y ]
      ],
      λ h. elim h [
        | inl (inl here) ↦ inl here
        | inl (inr x) ↦ inr (rest.1 (inl x))
        | inr y ↦ inr (rest.1 (inr y))
      ],
    )

host_rows-Leads : (to : Text) (hosts : List Host) → Leads to (host_rows hosts) ↔ HostAt to hosts
unfolding host_rows
host_rows-Leads to [] = (λ h. h, λ h. h)
host_rows-Leads to (host ∷ hosts) =
    let rest = host_rows-Leads to hosts in
    (
      λ h. elim h [ inl here ↦ inl here | inr later ↦ inr (rest.0 later) ],
      λ h. elim h [ inl here ↦ inl here | inr later ↦ inr (rest.1 later) ],
    )

host_items-Leads : (to : Text) (hosts : List Host) → Leads to (host_items hosts) ↔ HostAt to hosts
host_items-Leads to [] = (λ h. h, λ h. h)
host_items-Leads to (host ∷ hosts) = host_rows-Leads to (host ∷ hosts)

hosts_of-LoadedAt :
    (to id : Text) (entries : HostsBySite)
    → HostAt to (or_else (hosts_of entries id) []) ↔ LoadedAt to id entries
unfolding hosts_of
hosts_of-LoadedAt to id [] = (λ h. h, λ h. h)
hosts_of-LoadedAt to id ((site, hosts) ∷ rest) =
    let later = hosts_of-LoadedAt to id rest in
    elim (Bool-cases (text_eq site id)) [
      | inl same ↦
          let here : site ≡ id = text_eq_sound site id same in
          rw same (λ h. inl (here, h), λ h. elim h [ inl a ↦ a.1 | inr b ↦ absurd (b.0 here) ])
      | inr other ↦
          let apart : site ≢ id =
            λ e. let yes_same = ap (text_eq site) (sym e) ∙ text_eq_refl site in cc in
          rw other (
            λ h. inr (apart, later.0 h),
            λ h. elim h [ inl a ↦ absurd (apart a.0) | inr b ↦ later.1 b.1 ],
          )
    ]

open_items-Leads :
    (to : Text) (is_open : Bool) (hosts : List Host)
    → Leads to (only is_open (host_items hosts)) ↔ ((is_open ≡ true) × HostAt to hosts)
open_items-Leads to true hosts =
    let shown = host_items-Leads to hosts in (λ h. (refl, shown.0 h), λ h. shown.1 h.1)
open_items-Leads to false hosts = (λ h. absurd h, λ h. cc)

site_rows-Leads :
    (t : Tree) (to : Text) (sites : List Site) → Leads to (site_rows t sites) ↔ SiteAt t to sites
unfolding site_rows
site_rows-Leads t to [] = (λ h. h, λ h. h)
site_rows-Leads t to (site ∷ sites) =
    let rest = site_rows-Leads t to sites in
    let split =
      Leads-append to (only (has_text t.expanded site.id) (host_items (hosts_shown t site)))
        (site_rows t sites) in
    let shown = open_items-Leads to (has_text t.expanded site.id) (hosts_shown t site) in
    let loaded = hosts_of-LoadedAt to site.id t.hosts_by_site in
    (
      λ h. elim h [
        | inl here ↦ inl here
        | inr below ↦ elim (split.0 below) [
          | inl x ↦ inr (inl ((shown.0 x).0, loaded.0 (shown.0 x).1))
          | inr y ↦ inr (inr (rest.0 y))
        ]
      ],
      λ h. elim h [
        | inl here ↦ inl here
        | inr (inl x) ↦ inr (split.1 (inl (shown.1 (x.0, loaded.1 x.1))))
        | inr (inr y) ↦ inr (split.1 (inr (rest.1 y)))
      ],
    )

error_words-Leads : (to : Text) (error : Option Text) → Leads to (error_words error) → ⊥
error_words-Leads to none h = h
error_words-Leads to (some []) h = h
error_words-Leads to (some (c ∷ t)) h = h

-- The links of the tree lead to the overview, to each of its sites, and to the hosts of each site that is open,
-- as they were last loaded: to all of them, and nowhere else.
pub tree_items-Leads :
    (t : Tree) (to : Text)
    → Leads to (tree_items t) ↔ ((to ≡ text "/labkeeper") ⊎ SiteAt t to t.sites)
unfolding tree_items
tree_items-Leads t to =
    let rest = site_rows-Leads t to t.sites in
    let split =
      Leads-append to (error_words t.error)
        (link (text "/labkeeper") (text "LabKeeper") ∷ site_rows t t.sites) in
    (
      λ h. elim (split.0 h) [
        | inl bad ↦ absurd (error_words-Leads to t.error bad)
        | inr (inl home) ↦ inl home
        | inr (inr below) ↦ inr (rest.0 below)
      ],
      λ h. elim h [
        | inl home ↦ split.1 (inr (inl home))
        | inr below ↦ split.1 (inr (inr (rest.1 below)))
      ],
    )
