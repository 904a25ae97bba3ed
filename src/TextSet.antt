-- ===== src/TextSet.antt =====
-- A JavaScript `Set` of strings, as the list of its members in the order of their insertion.
pub mod Laws
use lab_keeper.Common.{Bool, List, Text, [], false, if◌then◌else◌, set, text_eq, ◌||◌, ◌∷◌}

unfoldable pub has_text : List Text → Text → Bool
has_text [] t = false
has_text (s ∷ set) t = text_eq s t || has_text set t

-- `set.add(t)` where `t` is not in the set yet
unfoldable pub append_text : List Text → Text → List Text
append_text [] t = t ∷ []
append_text (s ∷ set) t = s ∷ append_text set t

-- `set.add(t)`
unfoldable pub add_text : List Text → Text → List Text
unfolding has_text append_text
add_text set t = if has_text set t then set else append_text set t

-- `set.delete(t)`
unfoldable pub delete_text : List Text → Text → List Text
delete_text [] t = []
delete_text (s ∷ set) t = let rest = delete_text set t in if text_eq s t then rest else s ∷ rest
