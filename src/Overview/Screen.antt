-- ===== src/Overview/Screen.antt =====
-- What web/src/components/LabKeeperDetail.tsx shows.
use lab_keeper.Common.{List, Option, Text, [], decimal, none, some, text, ℕ, ◌++◌, ◌∷◌}
use lab_keeper.Items.{Item, words, link, mounts, error_words}
use lab_keeper.Overview.{View}

pub data Child : Type 0 where
  credentials_page : Child

abbrev pub count_text : Option ℕ → Text
count_text none = text "…"
count_text (some n) = decimal n

unfoldable pub overview_items : View → List (Item ⊥ Child)
overview_items v =
    words (text "LabKeeper")
    ∷ words (text "Global control plane — vault credentials and inventory overview for this Admin.")
    ∷ (error_words v.error
        ++ (words (text "Sites")
            ∷ words (count_text v.site_count)
            ∷ link (text "/sites/new") (text "Add site")
            ∷ mounts credentials_page
            ∷ []))
