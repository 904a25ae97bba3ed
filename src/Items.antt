-- ===== src/Items.antt =====
-- What a component of web/src/components and web/src/pages puts on the page: its texts, links, buttons,
-- fields and child components, in the order of the document. Tags, classes, icons, titles and
-- placeholders are left out.
pub mod Offers
pub mod Everywhere
pub mod Allows
use lab_keeper.Common.{
  Bool, List, Option, Text, [], if◌then◌else◌, non_empty, none, some, text, ◌++◌, ◌∷◌,
}

-- `M` is what a handler is called for, and `C` a child component with its properties.
pub data Item (M C : Type 0) : Type 0 where
  words : Text → Item M C
  -- the label, `disabled`, and `onClick`
  button : Text → Bool → M → Item M C
  -- the label, the value, `disabled`, and `onChange`
  field : Text → Text → Bool → (Text → M) → Item M C
  tick : Text → Bool → Bool → (Bool → M) → Item M C
  -- the options with their labels before `disabled`
  choice : Text → Text → List (Text × Text) → Bool → (Text → M) → Item M C
  -- the address and the text
  link : Text → Text → Item M C
  mounts : C → Item M C

module _ {M C : Type 0} where
  -- `{test ? … : null}`
  abbrev pub only : Bool → List (Item M C) → List (Item M C)
  only test items = if test then items else []

  -- `{error ? <p>{error}</p> : null}`
  abbrev pub error_words : Option Text → List (Item M C)
  error_words none = []
  error_words (some t) = if non_empty t then words t ∷ [] else []

  -- The addresses of the links.
  abbrev pub links : List (Item M C) → List Text
  links [] = []
  links (link to shown ∷ items) = to ∷ links items
  links (item ∷ items) = links items

-- `texts.join(", ")`
unfoldable pub join_comma : List Text → Text
join_comma [] = []
join_comma (t ∷ []) = t
join_comma (t ∷ u ∷ rest) = t ++ text ", " ++ join_comma (u ∷ rest)
