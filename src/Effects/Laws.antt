-- ===== src/Effects/Laws.antt =====
-- What holds of every page whose effect follows the pattern.
use lab_keeper.Common.{
  ==→eq, Bool, Bool-cases, List, Option, [], ap, arith, false, inl, inr, none, refl, some, subst,
  sym, true, ℕ, ◌<◌, ◌==◌, ◌∷◌, ◌≡◌,
}
use lab_keeper.Effects.{
  Page, Mounted, Event, renders, answers, inputs, unmounts, is_live, started, take_answer, step,
  play,
}

module _ {Props Answer Input View : Type 0} (page : Page Props Answer Input View) where
  -- The run has started and is not the live one.
  abbrev pub IsCancelled : ℕ → Mounted Props View → Type 0
  IsCancelled run s = (run < s.runs) × (is_live run s.live ≡ false)

  started-IsCancelled :
      (run : ℕ) (p : Props) (goes_on : View × Bool) (s : Mounted Props View)
      → IsCancelled run s
      → IsCancelled run (started page p goes_on s)
  unfolding is_live
  started-IsCancelled run p (v, true) s (known, past) = (omega arith, ground arith)
  started-IsCancelled run p (v, false) s (known, past) = (omega arith, refl)

  step-IsCancelled :
      (run : ℕ) (e : Event Props Answer Input) (s : Mounted Props View)
      → IsCancelled run s
      → IsCancelled run (step page e s)
  unfolding step is_live
  step-IsCancelled run (renders p) s h = started-IsCancelled run p (page.begins p s.view) s h
  step-IsCancelled run (answers r a) s h = h
  step-IsCancelled run (inputs i) s h = h
  step-IsCancelled run unmounts s (known, past) = (known, refl)

  play-IsCancelled :
      (run : ℕ) (es : List (Event Props Answer Input)) (s : Mounted Props View)
      → IsCancelled run s
      → IsCancelled run (play page es s)
  unfolding play
  play-IsCancelled run [] s h = h
  play-IsCancelled run (e ∷ es) s h =
      play-IsCancelled run es (step page e s) (step-IsCancelled run e s h)

  take_answer-cancelled :
      (live : Option (ℕ × Props)) (run : ℕ) (a : Answer) (v : View)
      → is_live run live ≡ false
      → take_answer page live run a v ≡ v
  unfolding is_live
  take_answer-cancelled none run a v h = refl
  take_answer-cancelled (some (r, p)) run a v h = rw h refl

  -- Once a run is cancelled, its answer changes nothing, whenever it comes.
  pub play-answers_late :
      (run : ℕ) (es : List (Event Props Answer Input)) (a : Answer) (s : Mounted Props View)
      → run < s.runs
      → is_live run s.live ≡ false
      → step page (answers run a) (play page es s) ≡ play page es s
  unfolding step
  play-answers_late run es a s known past =
      let after : Mounted Props View = play page es s in
      let (still, gone) = play-IsCancelled run es s (known, past) in
      ap (λ v. record after { view = v }) (take_answer-cancelled after.live run a after.view gone)

module _ {Props Answer Input View : Type 0} (page : Page Props Answer Input View)
    (Inv : Option Props → View → Type 0) (FairAnswer : Props → Answer → Type 0)
    (FairInput : Option Props → Input → Type 0) where
  -- What a page has to keep, for answers and inputs that are fair.
  pub record Keeps : Type 0 where
    pub begins_keeps :
        (old : Option Props) (p : Props) (v : View) → Inv old v → Inv (some p) (page.begins p v).0
    pub answered_keeps :
        (p : Props) (a : Answer) (v : View)
        → FairAnswer p a
        → Inv (some p) v
        → Inv (some p) (page.answered p a v)
    pub handles_keeps :
        (p : Option Props) (i : Input) (v : View)
        → FairInput p i
        → Inv p v
        → Inv p (page.handles i v)

  abbrev pub FairTo : Option (ℕ × Props) → ℕ → Answer → Type 0
  FairTo none run a = Unit
  FairTo (some (r, p)) run a = (r ≡ run) → FairAnswer p a

  -- An answer to the live run is one to its properties; what reaches no live run may be anything.
  abbrev pub FairEvent : Event Props Answer Input → Mounted Props View → Type 0
  FairEvent (renders p) s = Unit
  FairEvent (answers run a) s = FairTo s.live run a
  FairEvent (inputs i) s = FairInput s.props i
  FairEvent unmounts s = Unit

  unfoldable pub AreFair : List (Event Props Answer Input) → Mounted Props View → Type 0
  AreFair [] s = Unit
  AreFair (e ∷ es) s = FairEvent e s × AreFair es (step page e s)

  -- The live run is for the properties of the last render.
  abbrev OfProps : Option (ℕ × Props) → Option Props → Type 0
  OfProps none props = Unit
  OfProps (some (r, p)) props = props ≡ some p

  abbrev IsGood : Mounted Props View → Type 0
  IsGood s = OfProps s.live s.props × Inv s.props s.view

  module _ (keeps : Keeps) where
    started-IsGood :
        (p : Props) (r : View × Bool) (s : Mounted Props View)
        → Inv (some p) r.0
        → IsGood (started page p r s)
    started-IsGood p (v, true) s h = (refl, h)
    started-IsGood p (v, false) s h = (tt, h)

    take_answer-Inv :
        (live : Option (ℕ × Props)) (props : Option Props) (run : ℕ) (a : Answer) (v : View)
        → OfProps live props
        → FairTo live run a
        → Inv props v
        → Inv props (take_answer page live run a v)
    take_answer-Inv none props run a v o fair h = h
    take_answer-Inv (some (r, p)) props run a v o fair h = elim (Bool-cases (r == run)) [
      | inl mine ↦ rw mine (
          subst (λ q. Inv q (page.answered p a v)) (sym o)
            (keeps.answered_keeps p a v (fair (==→eq r run mine)) (subst (λ q. Inv q v) o h)))
      | inr other ↦ rw other h
    ]

    step-IsGood :
        (e : Event Props Answer Input) (s : Mounted Props View)
        → FairEvent e s
        → IsGood s
        → IsGood (step page e s)
    unfolding step
    step-IsGood (renders p) s fair (o, h) =
        started-IsGood p (page.begins p s.view) s (keeps.begins_keeps s.props p s.view h)
    step-IsGood (answers run a) s fair (o, h) =
        (o, take_answer-Inv s.live s.props run a s.view o fair h)
    step-IsGood (inputs i) s fair (o, h) = (o, keeps.handles_keeps s.props i s.view fair h)
    step-IsGood unmounts s fair (o, h) = (tt, h)

    play-IsGood :
        (es : List (Event Props Answer Input)) (s : Mounted Props View)
        → AreFair es s
        → IsGood s
        → IsGood (play page es s)
    unfolding AreFair play
    play-IsGood [] s fair h = h
    play-IsGood (e ∷ es) s (now, later) h =
        play-IsGood es (step page e s) later (step-IsGood e s now h)

    -- What the page keeps holds after any fair events, in any order.
    pub play-Inv :
        (es : List (Event Props Answer Input)) (s : Mounted Props View)
        → AreFair es s
        → OfProps s.live s.props
        → Inv s.props s.view
        → Inv (play page es s).props (play page es s).view
    play-Inv es s fair o h = (play-IsGood es s fair (o, h)).1
