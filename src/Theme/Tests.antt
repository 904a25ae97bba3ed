-- ===== src/Theme/Tests.antt =====
-- The look of web/src/lib/theme.ts at a concrete page.
use lab_keeper.Common.{false, some, text, true}
use lab_keeper.Theme.{Page}

abbrev garbled_page : Page
garbled_page = record {
  stored_theme = some (text "blue");
  prefers_dark = true;
  dark_class = false;
  color_scheme = text "";
}
