-- ===== src/TextSet/Laws.antt =====
-- Membership in a set of strings.
use lab_keeper.Common.{
  Bool-cases, List, Text, [], ap, arith, inl, inr, not, set, sym, text_eq, text_eq_sound, ◌&&◌,
  ◌||◌, ◌∷◌, ◌≡◌,
}
use lab_keeper.TextSet.{has_text, append_text, add_text, delete_text}

pub has_text-append_text :
    (set : List Text) (t other : Text)
    → has_text (append_text set t) other ≡ (has_text set other || text_eq t other)
unfolding has_text append_text
has_text-append_text [] t other = ground arith
has_text-append_text (s ∷ set) t other = let rest = has_text-append_text set t other in ground arith

pub has_text-delete_text :
    (set : List Text) (t other : Text)
    → has_text (delete_text set t) other ≡ (has_text set other && not (text_eq t other))
unfolding has_text delete_text
has_text-delete_text [] t other = ground arith
has_text-delete_text (s ∷ set) t other =
    let rest = has_text-delete_text set t other in
    elim (Bool-cases (text_eq s t)) [
      | inl same ↦
          let k : text_eq s other ≡ text_eq t other =
            ap (λ v. text_eq v other) (text_eq_sound s t same) in
          ground arith
      | inr differs ↦ elim (Bool-cases (text_eq t other)) [
        | inl found ↦
            let k : text_eq s other ≡ text_eq s t =
              ap (λ v. text_eq s v) (sym (text_eq_sound t other found)) in
            ground arith
        | inr apart ↦ ground arith
      ]
    ]

pub has_text-add_text :
    (set : List Text) (t other : Text)
    → has_text (add_text set t) other ≡ (has_text set other || text_eq t other)
unfolding add_text
has_text-add_text set t other =
    let appended = has_text-append_text set t other in
    elim (Bool-cases (text_eq t other)) [
      | inl same ↦
          let k : has_text set t ≡ has_text set other =
            ap (λ v. has_text set v) (text_eq_sound t other same) in
          ground arith
      | inr differs ↦ ground arith
    ]
