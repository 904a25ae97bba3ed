-- ===== src/DiscoveryPanel/Candidates.antt =====
-- The candidates of web/src/components/DiscoveryPanel.tsx while hosts are added.
use lab_keeper.Common.{
  Bool, Bool-cases, List, Text, [], ap, arith, false, if◌then◌else◌, inl, inr, length, not, refl,
  sym, text_eq, text_eq_sound, ◌&&◌, ◌+◌, ◌||◌, ◌∙◌, ◌∷◌, ◌≡◌,
}
use lab_keeper.Oidc.Types.{Failure}
use lab_keeper.Oidc.World.{Result, ok, throws}
use lab_keeper.Json.{Json}
use lab_keeper.TextSet.{has_text}
use lab_keeper.TextSet.Laws.{has_text-add_text, has_text-delete_text}
use lab_keeper.DiscoveryPanel.{
  DiscoveryCandidate, View, mark_known, add_begins, add_ended, unknown_only, visible_candidates,
  count_known, known_count,
}

-- One of the candidates has the address.
abbrev pub has_ip : List DiscoveryCandidate → Text → Bool
has_ip [] ip = false
has_ip (item ∷ items) ip = text_eq item.ip ip || has_ip items ip

has_ip-mark_known :
    (items : List DiscoveryCandidate) (ip other : Text)
    → has_ip (unknown_only (mark_known ip items)) other
      ≡ (has_ip (unknown_only items) other && not (text_eq ip other))
unfolding unknown_only mark_known
has_ip-mark_known [] ip other = ground arith
has_ip-mark_known (item ∷ items) ip other =
    let rest = has_ip-mark_known items ip other in
    elim (Bool-cases (text_eq item.ip ip)) [
      | inl same ↦
          let k : text_eq item.ip other ≡ text_eq ip other =
            ap (λ v. text_eq v other) (text_eq_sound item.ip ip same) in
          ground arith
      | inr differs ↦ elim (Bool-cases (text_eq ip other)) [
        | inl found ↦
            let k : text_eq item.ip other ≡ text_eq item.ip ip =
              ap (λ v. text_eq item.ip v) (sym (text_eq_sound ip other found)) in
            ground arith
        | inr apart ↦ ground arith
      ]
    ]

-- What happens to additions: one begins, or one ends.
pub data Addition : Type 0 where
  begins : DiscoveryCandidate → Addition
  ends : DiscoveryCandidate → Result Json → Addition

-- Is an addition of the address under way, after these?
abbrev pub under_way : Text → List Addition → Bool → Bool
under_way ip [] before = before
under_way ip (begins c ∷ es) before = under_way ip es (before || text_eq c.ip ip)
under_way ip (ends c r ∷ es) before = under_way ip es (before && not (text_eq c.ip ip))

-- Has one of them put the address into the inventory?
abbrev pub added : Text → List Addition → Bool
added ip [] = false
added ip (begins c ∷ es) = added ip es
added ip (ends c (ok j) ∷ es) = text_eq c.ip ip || added ip es
added ip (ends c (throws e) ∷ es) = added ip es

module _ (engine : Failure → Text) where
  unfoldable pub take_addition : Addition → View → View
  take_addition (begins c) v = add_begins c v
  take_addition (ends c r) v = (add_ended engine c r v).0

  pub play : List Addition → View → View
  play [] v = v
  play (e ∷ es) v = play es (take_addition e v)

  adding-play :
      (es : List Addition) (ip : Text) (v : View) (before : Bool)
      → has_text v.adding_ips ip ≡ before
      → has_text (play es v).adding_ips ip ≡ under_way ip es before
  unfolding play take_addition add_begins add_ended
  adding-play [] ip v before h = h
  adding-play (begins c ∷ es) ip v before h =
      adding-play es ip (add_begins c v) _
        (has_text-add_text v.adding_ips c.ip ip ∙ ap (λ b. b || text_eq c.ip ip) h)
  adding-play (ends c (ok j) ∷ es) ip v before h =
      adding-play es ip (add_ended engine c (ok j) v).0 _
        (has_text-delete_text v.adding_ips c.ip ip ∙ ap (λ b. b && not (text_eq c.ip ip)) h)
  adding-play (ends c (throws e) ∷ es) ip v before h =
      adding-play es ip (add_ended engine c (throws e) v).0 _
        (has_text-delete_text v.adding_ips c.ip ip ∙ ap (λ b. b && not (text_eq c.ip ip)) h)

  candidates-play :
      (es : List Addition) (ip : Text) (v : View)
      → has_ip (unknown_only (play es v).candidates) ip
        ≡ (has_ip (unknown_only v.candidates) ip && not (added ip es))
  unfolding play take_addition add_begins add_ended
  candidates-play [] ip v = ground arith
  candidates-play (begins c ∷ es) ip v = candidates-play es ip (add_begins c v)
  candidates-play (ends c (ok j) ∷ es) ip v =
      let rest = candidates-play es ip (add_ended engine c (ok j) v).0 in
      let marked = has_ip-mark_known v.candidates c.ip ip in ground arith
  candidates-play (ends c (throws e) ∷ es) ip v =
      candidates-play es ip (add_ended engine c (throws e) v).0

  -- However additions overlap: an address is marked as being added from the begin of an addition of it to the
  -- next end of one, and it is offered for adding as before until one of its additions has succeeded.
  pub play-additions :
      (es : List Addition) (ip : Text) (v : View)
      → (has_text (play es v).adding_ips ip ≡ under_way ip es (has_text v.adding_ips ip))
        × (has_ip (unknown_only (play es v).candidates) ip
            ≡ (has_ip (unknown_only v.candidates) ip && not (added ip es)))
  play-additions es ip v =
      (adding-play es ip v (has_text v.adding_ips ip) refl, candidates-play es ip v)

length-unknown_only :
    (items : List DiscoveryCandidate)
    → length (unknown_only items) + count_known items ≡ length items
unfolding unknown_only count_known
length-unknown_only [] = omega arith
length-unknown_only (item ∷ items) = let rest = length-unknown_only items in ground arith

-- The table shows all candidates, or leaves out as many as the page says are in the inventory.
pub visible-known_count :
    (v : View)
    → length (visible_candidates v) + (if v.show_in_inventory then 0 else known_count v)
      ≡ length v.candidates
unfolding visible_candidates known_count
visible-known_count v = let counted = length-unknown_only v.candidates in ground arith
