-- ===== src/SidebarTree/Expanded.antt =====
-- The open sites of web/src/components/SidebarTree.tsx.
use lab_keeper.Common.{
  Bool-cases, Text, ap, arith, if◌then◌else◌, inl, inr, not, text_eq, text_eq_sound, ◌≡◌,
}
use lab_keeper.TextSet.{has_text}
use lab_keeper.TextSet.Laws.{has_text-append_text, has_text-delete_text}
use lab_keeper.SidebarTree.{Tree, toggle_site}

has_text-toggle_site :
    (id other : Text) (t : Tree)
    → has_text (toggle_site id t).expanded other
      ≡ (if text_eq id other then not (has_text t.expanded other) else has_text t.expanded other)
unfolding toggle_site
has_text-toggle_site id other t =
    let added = has_text-append_text t.expanded id other in
    let deleted = has_text-delete_text t.expanded id other in
    elim (Bool-cases (text_eq id other)) [
      | inl same ↦
          let k : has_text t.expanded id ≡ has_text t.expanded other =
            ap (λ v. has_text t.expanded v) (text_eq_sound id other same) in
          ground arith
      | inr differs ↦ ground arith
    ]

-- A click on a site opens it if it is closed and closes it if it is open, and no other site opens or
-- closes; a second click undoes the first.
pub toggle_site_twice :
    (id other : Text) (t : Tree)
    → (has_text (toggle_site id t).expanded other
        ≡ (if text_eq id other then not (has_text t.expanded other) else has_text t.expanded other))
      × (has_text (toggle_site id (toggle_site id t)).expanded other ≡ has_text t.expanded other)
toggle_site_twice id other t =
    let once = has_text-toggle_site id other t in
    let twice = has_text-toggle_site id other (toggle_site id t) in (once, ground arith)
