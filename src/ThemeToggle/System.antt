-- ===== src/ThemeToggle/System.antt =====
-- How web/src/components/ThemeToggle.tsx follows the system's preference.
use lab_keeper.Common.{Bool, ap, false, if◌then◌else◌, none, not, refl, sym, true, ◌∙◌, ◌≡◌}
use lab_keeper.Theme.{
  Theme, Page, light, dark, is_dark, system_theme, parse_theme, get_stored_theme,
  get_resolved_theme,
}
use lab_keeper.Theme.Laws.{ShowsResolved}
use lab_keeper.ThemeToggle.{on_change}

-- The system's preference changes.
abbrev pub switched : Page → Page
switched page = record page { prefers_dark = not page.prefers_dark }

opposite_class :
    (b shown : Bool)
    → shown ≡ is_dark (if b then dark else light)
    → is_dark (if not b then dark else light) ≡ not shown
opposite_class true shown h = ap not (sym h)
opposite_class false shown h = ap not (sym h)

-- With no theme stored, and a page that shows the theme it resolves to, a change of the system's
-- preference makes the button's theme the new one, and the look of the page is then the opposite.
pub on_change-switched :
    (page : Page) (shown : Theme)
    → page.stored_theme ≡ none
    → ShowsResolved page
    → (on_change (switched page) shown ≡ system_theme (switched page))
      × (is_dark (on_change (switched page) shown) ≡ not (switched page).dark_class)
unfolding on_change get_resolved_theme get_stored_theme parse_theme system_theme
on_change-switched page shown empty h =
    let before : page.dark_class ≡ is_dark (system_theme page) =
      h.class_shown ∙ ap is_dark (rw empty refl) in
    (rw empty refl, rw empty (opposite_class page.prefers_dark page.dark_class before))
