-- ===== src/Submission/Single.antt =====
-- That a form of web/src/components never has two submissions under way.
use lab_keeper.Common.{Bool, ap, arith, false, if◌then◌else◌, suc, sym, ℕ, ◌∙◌, ◌≡◌, ◌≤◌}
use lab_keeper.Items.Allows.{Allows}
use lab_keeper.Submission.{
  Form, InUse, Moves, edited, submits, ended, arrived, Reaches, starts, moves,
}

-- What a form has to do with its flag.
pub record MarksSaving {State Click Answer Arrival : Type 0} (f : Form State Click Answer Arrival)
    : Type 0 where
  pub offers_idle : (s : State) → Allows f.submit (f.items s) → f.saving s ≡ false
  pub begins_marks : (s : State) → f.saving (f.begins s).0 ≡ (f.begins s).1
  pub ends_clears : (r : Answer) (s : State) → f.saving (f.ends r s) ≡ false
  pub edits_keep : (m : Click) (s : State) → f.saving (f.edits m s) ≡ f.saving s
  pub arrives_keeps : (a : Arrival) (s : State) → f.saving (f.arrives a s) ≡ f.saving s

abbrev flag : Bool → ℕ
flag b = if b then 1 else 0

module _ {State Click Answer Arrival : Type 0} (f : Form State Click Answer Arrival)
    (laws : MarksSaving f) where
  move-flag :
      {u v : InUse State}
      → Moves f u v
      → u.submissions ≡ flag (f.saving u.form)
      → v.submissions ≡ flag (f.saving v.form)
  move-flag (edited u m allowed) h = h ∙ ap flag (sym (laws.edits_keep m u.form))
  move-flag (submits u allowed) h =
      let marks = laws.begins_marks u.form in
      let idle = laws.offers_idle u.form allowed in
      rw marks (asked (f.begins u.form).1 (h ∙ ap flag idle))
    where
      asked :
          (asks : Bool)
          → u.submissions ≡ 0
          → (if asks then suc u.submissions else u.submissions) ≡ flag asks
      asked asks none_yet = ground arith
  move-flag (ended u n r pending) h =
      let cleared = laws.ends_clears r u.form in rw cleared (last (f.saving u.form) h)
    where
      last : (b : Bool) → u.submissions ≡ flag b → n ≡ 0
      last b counted = ground arith
  move-flag (arrived u a) h = h ∙ ap flag (sym (laws.arrives_keeps a u.form))

  Reaches-flag :
      (s : State) {u : InUse State}
      → f.saving s ≡ false
      → Reaches f s u
      → u.submissions ≡ flag (f.saving u.form)
  Reaches-flag s idle starts = sym (ap flag idle)
  Reaches-flag s idle (moves u v before move) = move-flag move (Reaches-flag s idle before)

  pub Reaches-le-one :
      (s : State) (u : InUse State) → f.saving s ≡ false → Reaches f s u → u.submissions ≤ 1
  Reaches-le-one s u idle h =
      let counted = Reaches-flag s idle h in bounded (f.saving u.form) counted
    where
      bounded : (b : Bool) → u.submissions ≡ flag b → u.submissions ≤ 1
      bounded b same = ground arith
