-- ===== src/Theme/Laws.antt =====
-- What the functions of web/src/lib/theme.ts keep true of the page.
use lab_keeper.Common.{ap, refl, some, sym, text, text_eq, ◌∙◌, ◌≡◌}
use lab_keeper.Theme.{
  Theme, light, dark, Page, theme_text, is_dark, system_theme, parse_theme, get_stored_theme,
  get_resolved_theme, apply_theme, init_theme, set_theme, opposite, toggle_theme,
}

-- The root element shows the theme that the page resolves to.
pub record ShowsResolved (page : Page) : Type 0 where
  pub class_shown : page.dark_class ≡ is_dark (get_resolved_theme page)
  pub scheme_shown : page.color_scheme ≡ theme_text (get_resolved_theme page)

parse_theme-theme_text : (theme : Theme) → parse_theme (some (theme_text theme)) ≡ some theme
unfolding parse_theme theme_text text text_eq
parse_theme-theme_text light = refl
parse_theme-theme_text dark = refl

resolved-set_theme :
    (theme : Theme) (page : Page) → get_resolved_theme (set_theme theme page) ≡ theme
unfolding get_resolved_theme get_stored_theme set_theme apply_theme
resolved-set_theme theme page = rw (parse_theme-theme_text theme)

pub set_theme-ShowsResolved : (theme : Theme) (page : Page) → ShowsResolved (set_theme theme page)
unfolding set_theme apply_theme
set_theme-ShowsResolved theme page = record {
  class_shown = ap is_dark (sym (resolved-set_theme theme page));
  scheme_shown = ap theme_text (sym (resolved-set_theme theme page));
}

pub init_theme-ShowsResolved : (page : Page) → ShowsResolved (init_theme page).1
unfolding init_theme apply_theme get_resolved_theme get_stored_theme system_theme
init_theme-ShowsResolved page = record { class_shown = refl; scheme_shown = refl }

resolved-init_theme : (page : Page) → (init_theme page).0 ≡ get_resolved_theme (init_theme page).1
unfolding init_theme apply_theme get_resolved_theme get_stored_theme system_theme
resolved-init_theme page = refl

stored-set_theme :
    (theme : Theme) (page : Page) → (set_theme theme page).stored_theme ≡ some (theme_text theme)
unfolding set_theme apply_theme
stored-set_theme theme page = refl

opposite-opposite : (theme : Theme) → opposite (opposite theme) ≡ theme
opposite-opposite light = refl
opposite-opposite dark = refl

-- Whatever localStorage holds, every function that changes the look (start, choice and toggle)
-- leaves the root element showing the theme that the page resolves to, and each returns that
-- theme.
pub operations-ShowsResolved :
    (page : Page) (theme : Theme)
    → ShowsResolved (init_theme page).1
      × ((init_theme page).0 ≡ get_resolved_theme (init_theme page).1)
      × ShowsResolved (set_theme theme page)
      × (get_resolved_theme (set_theme theme page) ≡ theme)
      × ShowsResolved (toggle_theme page).1
      × ((toggle_theme page).0 ≡ get_resolved_theme (toggle_theme page).1)
unfolding toggle_theme
operations-ShowsResolved page theme = (
  init_theme-ShowsResolved page,
  resolved-init_theme page,
  set_theme-ShowsResolved theme page,
  resolved-set_theme theme page,
  set_theme-ShowsResolved (opposite (get_resolved_theme page)) page,
  sym (resolved-set_theme (opposite (get_resolved_theme page)) page),
)

-- Two toggles in a row resolve to the theme from before, though they write it to localStorage.
pub toggle_theme_twice :
    (page : Page)
    → let after = (toggle_theme (toggle_theme page).1).1 in
      (get_resolved_theme after ≡ get_resolved_theme page)
      × (after.stored_theme ≡ some (theme_text (get_resolved_theme page)))
unfolding toggle_theme
toggle_theme_twice page =
    let once : get_resolved_theme (toggle_theme page).1 ≡ opposite (get_resolved_theme page) =
      resolved-set_theme (opposite (get_resolved_theme page)) page in
    let back : opposite (get_resolved_theme (toggle_theme page).1) ≡ get_resolved_theme page =
      ap opposite once ∙ opposite-opposite (get_resolved_theme page) in
    (
      resolved-set_theme (opposite (get_resolved_theme (toggle_theme page).1)) (toggle_theme page).1
          ∙ back,
      stored-set_theme (opposite (get_resolved_theme (toggle_theme page).1)) (toggle_theme page).1
          ∙ ap (λ t. some (theme_text t)) back,
    )
