-- ===== src/ThemeToggle/Tests.antt =====
-- The button of web/src/components/ThemeToggle.tsx when the system turns dark.
use lab_keeper.Common.{false, none, refl, text}
use lab_keeper.Theme.{
  Page, light, is_dark, system_theme, init_theme, parse_theme, get_stored_theme, get_resolved_theme,
}
use lab_keeper.Theme.Laws.{ShowsResolved}

abbrev day : Page
day = record {
  stored_theme = none;
  prefers_dark = false;
  dark_class = false;
  color_scheme = text "light";
}

day-ShowsResolved : ShowsResolved day
unfolding get_resolved_theme get_stored_theme parse_theme system_theme lab_keeper.Theme.theme_text
    text
day-ShowsResolved = record { class_shown = refl; scheme_shown = refl }
