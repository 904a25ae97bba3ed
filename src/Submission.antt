-- ===== src/Submission.antt =====
-- The forms of web/src/components with `saving` and one `handleSubmit`: a form as an interface, and the form in
-- use, when only what it shows can be changed or clicked and each of its requests is answered once.
pub mod Single
use lab_keeper.Common.{Bool, List, if◌then◌else◌, suc, ℕ, ◌≡◌}
use lab_keeper.Items.{Item}
use lab_keeper.Items.Allows.{Allows}

pub record Form (State Click Answer Arrival : Type 0) : Type 0 where
  pub items : State → List (Item Click ⊥)
  pub submit : Click
  -- the fields' handlers
  pub edits : Click → State → State
  -- `handleSubmit` up to its request, and whether it makes one
  pub begins : State → State × Bool
  -- the rest of `handleSubmit`
  pub ends : Answer → State → State
  -- what the effects of the form load
  pub arrives : Arrival → State → State
  pub saving : State → Bool

-- The form, and the number of its submissions that are under way.
pub record InUse (State : Type 0) : Type 0 where
  pub form : State
  pub submissions : ℕ

module _ {State Click Answer Arrival : Type 0} (f : Form State Click Answer Arrival) where
  abbrev pub submitted : InUse State → InUse State
  submitted u =
      let (s, asks) = f.begins u.form in
      record { form = s; submissions = if asks then suc u.submissions else u.submissions }

  -- One thing that happens to the form.
  pub data Moves : InUse State → InUse State → Type 0 where
    edited :
        (u : InUse State) (m : Click)
        → Allows m (f.items u.form)
        → Moves u (record u { form = f.edits m u.form })
    submits : (u : InUse State) → Allows f.submit (f.items u.form) → Moves u (submitted u)
    ended :
        (u : InUse State) (n : ℕ) (r : Answer)
        → u.submissions ≡ suc n
        → Moves u (record { form = f.ends r u.form; submissions = n })
    arrived : (u : InUse State) (a : Arrival) → Moves u (record u { form = f.arrives a u.form })

  pub data Reaches (s : State) : InUse State → Type 0 where
    starts : Reaches s (record { form = s; submissions = 0 })
    moves : (u v : InUse State) → Reaches s u → Moves u v → Reaches s v
