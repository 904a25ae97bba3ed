-- ===== src/Effects.antt =====
-- The effects of the pages in web/src/components: each keeps `let cancelled = false`, starts a call of
-- the API, uses the answer only `if (!cancelled)`, and is cancelled by its clean-up. React runs the
-- effect anew when what it depends on has changed. A page is the interface here: what its effect does
-- at once, what it does with an answer, and what its handlers do.
pub mod Laws
use lab_keeper.Common.{Bool, List, Option, [], false, if◌then◌else◌, none, some, suc, ℕ, ◌==◌, ◌∷◌}

pub record Page (Props Answer Input View : Type 0) : Type 0 where
  -- the body up to the first `await`, and whether it goes on after that
  pub begins : Props → View → View × Bool
  -- what the run for these properties does with an answer
  pub answered : Props → Answer → View → View
  -- what happens outside the effect
  pub handles : Input → View → View

-- A mounted page: the properties of the last render, and the run that is not cancelled with the
-- properties that its closure has.
pub record Mounted (Props View : Type 0) : Type 0 where
  pub view : View
  pub props : Option Props
  pub live : Option (ℕ × Props)
  pub runs : ℕ

pub data Event (Props Answer Input : Type 0) : Type 0 where
  renders : Props → Event Props Answer Input
  answers : ℕ → Answer → Event Props Answer Input
  inputs : Input → Event Props Answer Input
  unmounts : Event Props Answer Input

abbrev pub mount : {Props View : Type 0} → View → Mounted Props View
mount view = record { view = view; props = none; live = none; runs = 0 }

-- `!cancelled` in the closure of a run
unfoldable pub is_live : {Props : Type 0} → ℕ → Option (ℕ × Props) → Bool
is_live run none = false
is_live run (some (r, p)) = r == run

module _ {Props Answer Input View : Type 0} (page : Page Props Answer Input View) where
  abbrev pub started : Props → View × Bool → Mounted Props View → Mounted Props View
  started p (v, goes_on) s = record s {
    view = v;
    props = some p;
    live = if goes_on then some (s.runs, p) else none;
    runs = suc s.runs;
  }

  abbrev pub take_answer : Option (ℕ × Props) → ℕ → Answer → View → View
  take_answer none run a v = v
  take_answer (some (r, p)) run a v = if r == run then page.answered p a v else v

  unfoldable pub step : Event Props Answer Input → Mounted Props View → Mounted Props View
  step (renders p) s = started p (page.begins p s.view) s
  step (answers run a) s = record s { view = take_answer s.live run a s.view }
  step (inputs i) s = record s { view = page.handles i s.view }
  step unmounts s = record s { live = none }

  unfoldable pub play : List (Event Props Answer Input) → Mounted Props View → Mounted Props View
  unfolding step
  play [] s = s
  play (e ∷ es) s = play es (step e s)
