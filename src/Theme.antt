-- ===== src/Theme.antt =====
-- web/src/lib/theme.ts: the light or dark look, kept in localStorage under "labkeeper_theme".
pub mod Laws
mod Tests
use lab_keeper.Common.{
  Bool, Option, Text, false, if◌then◌else◌, none, or_else, some, text, text_eq, true,
}

pub data Theme : Type 0 where
  light dark : Theme

-- What the module reads and writes: the item of localStorage, the system's preference, and the
-- class and the colour scheme of the document's root element.
pub record Page : Type 0 where
  pub stored_theme : Option Text
  pub prefers_dark : Bool
  pub dark_class : Bool
  pub color_scheme : Text

unfoldable pub theme_text : Theme → Text
theme_text light = text "light"
theme_text dark = text "dark"

abbrev pub is_dark : Theme → Bool
is_dark light = false
is_dark dark = true

unfoldable pub system_theme : Page → Theme
system_theme page = if page.prefers_dark then dark else light

unfoldable pub parse_theme : Option Text → Option Theme
parse_theme none = none
parse_theme (some value) =
    if text_eq value (text "light")
    then some light
    else if text_eq value (text "dark")
    then some dark
    else none

unfoldable pub get_stored_theme : Page → Option Theme
unfolding parse_theme
get_stored_theme page = parse_theme page.stored_theme

unfoldable pub get_resolved_theme : Page → Theme
get_resolved_theme page = or_else (get_stored_theme page) (system_theme page)

unfoldable pub apply_theme : Theme → Page → Page
apply_theme theme page = record page { dark_class = is_dark theme; color_scheme = theme_text theme }

unfoldable pub init_theme : Page → Theme × Page
init_theme page = let theme = get_resolved_theme page in (theme, apply_theme theme page)

unfoldable pub set_theme : Theme → Page → Page
set_theme theme page = apply_theme theme (record page { stored_theme = some (theme_text theme) })

abbrev pub opposite : Theme → Theme
opposite dark = light
opposite light = dark

unfoldable pub toggle_theme : Page → Theme × Page
toggle_theme page = let next = opposite (get_resolved_theme page) in (next, set_theme next page)
