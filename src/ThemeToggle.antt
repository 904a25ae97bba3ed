-- ===== src/ThemeToggle.antt =====
-- web/src/components/ThemeToggle.tsx: the button that shows and changes the look. Its state is the
-- theme; the page is that of Theme.
pub mod System
mod Tests
use lab_keeper.Common.{Text, if◌then◌else◌, text, truthy}
use lab_keeper.Theme.{Theme, Page, light, dark, get_resolved_theme, toggle_theme}

-- `useState(…)`
unfoldable pub initial_button : Page → Theme
initial_button page = get_resolved_theme page

-- The listener of the system's preference, after that has changed.
unfoldable pub on_change : Page → Theme → Theme
on_change page shown = if truthy page.stored_theme then shown else get_resolved_theme page

-- `onClick`: the new state of the button, and the page
unfoldable pub on_click : Page → Theme × Page
on_click page = toggle_theme page

unfoldable pub button_label : Theme → Text
button_label dark = text "Light"
button_label light = text "Dark"
