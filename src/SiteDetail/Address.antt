-- ===== src/SiteDetail/Address.antt =====
-- Which site the page of web/src/components/SiteDetail.tsx shows, and acts on.
use lab_keeper.Common.{
  Bool-cases, List, Option, Text, ap, false, inl, inr, none, not, refl, some, subst, sym,
  text_eq_sound, true, truthy, ℕ, ◌<◌, ◌||◌, ◌∙◌, ◌≡◌, ◌≢◌, ◌⊎◌,
}
use lab_keeper.Oidc.Types.{Failure, is_expired, report-ne-none, report-keeps_some}
use lab_keeper.Oidc.World.{Result, ok, throws}
use lab_keeper.Api.Types.{Site}
use lab_keeper.Effects.{Mounted, Event, answers, is_live, mount, step, play}
use lab_keeper.Effects.Laws.{Keeps, AreFair, play-Inv, play-answers_late}
use lab_keeper.SiteDetail.{
  View, Input, click_mode, form_cancelled, delete_ended, option_eq, is_new, initial_view,
  load_begins, load_ended, handle, page,
}

-- The remembered id is that of the site.
abbrev Remembers : Option Site → Option Text → Type 0
Remembers none id = id ≡ none
Remembers (some row) id = id ≡ some row.id

-- The site is the one of the address, or the page says that it is loading or that something failed.
abbrev Shows : Option Text → View → Type 0
Shows site_id v =
    (v.site ≡ none) ⊎ (v.loaded_site_id ≡ site_id) ⊎ (v.loading ≡ true) ⊎ (v.error ≢ none)

abbrev pub Inv : Option (Option Text) → View → Type 0
Inv none v = Remembers v.site v.loaded_site_id
Inv (some site_id) v = Remembers v.site v.loaded_site_id × Shows site_id v

-- The server answers with the site that was asked for, while the session lasts.
abbrev pub FairAnswer : Option Text → Result (Site × ℕ) → Type 0
FairAnswer site_id (ok (row, count)) = site_id ≡ some row.id
FairAnswer site_id (throws e) = is_expired e ≡ false

option_eq_sound : (a b : Option Text) → option_eq a b ≡ true → a ≡ b
option_eq_sound none none h = refl
option_eq_sound none (some b) h = cc
option_eq_sound (some a) none h = cc
option_eq_sound (some a) (some b) h = ap some (text_eq_sound a b h)

Inv-Remembers :
    (old : Option (Option Text)) (v : View) → Inv old v → Remembers v.site v.loaded_site_id
Inv-Remembers none v h = h
Inv-Remembers (some p) v h = h.0

load_begins-Inv :
    (old : Option (Option Text)) (site_id : Option Text) (v : View)
    → Inv old v
    → Inv (some site_id) (load_begins site_id v).0
unfolding load_begins
load_begins-Inv old site_id v h =
    let kept = Inv-Remembers old v h in
    elim (Bool-cases (is_new site_id || not (truthy site_id))) [
      | inl bare ↦ rw bare (refl, inl refl)
      | inr asked ↦ elim (Bool-cases (option_eq v.loaded_site_id site_id)) [
        | inl same ↦
            rw (asked, same) (kept, inr (inl (option_eq_sound v.loaded_site_id site_id same)))
        | inr other ↦ rw (asked, other) (kept, inr (inr (inl refl)))
      ]
    ]

-- What a handler leaves alone.
record Same (v v' : View) : Type 0 where
  site_same : v'.site ≡ v.site
  id_same : v'.loaded_site_id ≡ v.loaded_site_id
  loading_same : v'.loading ≡ v.loading
  error_kept : v.error ≢ none → v'.error ≢ none

Same-Remembers :
    (v v' : View)
    → Same v v'
    → Remembers v.site v.loaded_site_id
    → Remembers v'.site v'.loaded_site_id
Same-Remembers v v' same h = rw (same.site_same, same.id_same) h

Same-Inv : (p : Option (Option Text)) (v v' : View) → Same v v' → Inv p v → Inv p v'
Same-Inv none v v' same h = Same-Remembers v v' same h
Same-Inv (some p) v v' same (h, inl k) = (Same-Remembers v v' same h, inl (same.site_same ∙ k))
Same-Inv (some p) v v' same (h, inr (inl k)) =
    (Same-Remembers v v' same h, inr (inl (same.id_same ∙ k)))
Same-Inv (some p) v v' same (h, inr (inr (inl k))) =
    (Same-Remembers v v' same h, inr (inr (inl (same.loading_same ∙ k))))
Same-Inv (some p) v v' same (h, inr (inr (inr k))) =
    (Same-Remembers v v' same h, inr (inr (inr (same.error_kept k))))

module _ (engine : Failure → Text) where
  load_ended-Inv :
      (site_id : Option Text) (a : Result (Site × ℕ)) (v : View)
      → FairAnswer site_id a
      → Inv (some site_id) v
      → Inv (some site_id) (load_ended engine site_id a v)
  unfolding load_ended
  load_ended-Inv site_id (ok (row, count)) v fair h = (fair, inr (inl refl))
  load_ended-Inv site_id (throws e) v fair h =
      (h.0, inr (inr (inr (report-ne-none engine e v.error fair))))

  handle-Same : (i : Input) (v : View) → Same v (handle engine i v)
  unfolding handle
  handle-Same (click_mode m) v = record {
    site_same = refl;
    id_same = refl;
    loading_same = refl;
    error_kept = λ h. h;
  }
  handle-Same (form_cancelled site_id) v = elim (Bool-cases (is_new site_id)) [
    | inl fresh ↦
        rw fresh
          (record { site_same = refl; id_same = refl; loading_same = refl; error_kept = λ h. h })
    | inr old ↦
        rw old
          (record { site_same = refl; id_same = refl; loading_same = refl; error_kept = λ h. h })
  ]
  handle-Same (delete_ended (throws e)) v = record {
    site_same = refl;
    id_same = refl;
    loading_same = refl;
    error_kept = report-keeps_some engine e v.error;
  }
  handle-Same _ v = record {
    site_same = refl;
    id_same = refl;
    loading_same = refl;
    error_kept = λ h. h;
  }

  page-Keeps : Keeps (page engine) Inv FairAnswer (λ p i. Unit)
  page-Keeps = record {
    begins_keeps = load_begins-Inv;
    answered_keeps = load_ended-Inv;
    handles_keeps = λ p i v fair h. Same-Inv p v (handle engine i v) (handle-Same i v) h;
  }

  shown_site :
      (site_id : Option Text) (v : View) (row : Site)
      → Inv (some site_id) v
      → v.loading ≡ false
      → v.error ≡ none
      → v.site ≡ some row
      → site_id ≡ some row.id
  shown_site site_id v row (kept, shown) idle well here =
      let id : v.loaded_site_id ≡ some row.id =
        subst (λ o. Remembers o v.loaded_site_id) here kept in
      elim shown [
        | inl nothing ↦ cc
        | inr (inl same) ↦ sym same ∙ id
        | inr (inr (inl busy)) ↦ cc
        | inr (inr (inr bad)) ↦ absurd (bad well)
      ]

  -- However the address changes and however late the answers come: while the session lasts and the server
  -- answers with the site that was asked for, a page that is not loading and shows no failure shows
  -- the site of its address, or none.
  pub play-shown_site :
      (first : Option Text) (es : List (Event (Option Text) (Result (Site × ℕ)) Input))
      (site_id : Option Text) (row : Site) (s : Mounted (Option Text) View)
      → play (page engine) es (mount (initial_view first)) ≡ s
      → AreFair (page engine) Inv FairAnswer (λ p i. Unit) es (mount (initial_view first))
      → s.props ≡ some site_id
      → s.view.loading ≡ false
      → s.view.error ≡ none
      → s.view.site ≡ some row
      → site_id ≡ some row.id
  unfolding initial_view
  play-shown_site first es site_id row s same fair now idle well here =
      let kept =
        play-Inv (page engine) Inv FairAnswer (λ p i. Unit) page-Keeps es
          (mount (initial_view first)) fair tt refl in
      let here_kept : Inv s.props s.view = subst (λ t. Inv t.props t.view) same kept in
      shown_site site_id s.view row (subst (λ p. Inv p s.view) now here_kept) idle well here

  -- An answer for an address that the page has left changes nothing, whatever has happened since.
  pub play_late :
      (run : ℕ) (es : List (Event (Option Text) (Result (Site × ℕ)) Input)) (a : Result (Site × ℕ))
      (s : Mounted (Option Text) View)
      → run < s.runs
      → is_live run s.live ≡ false
      → step (page engine) (answers run a) (play (page engine) es s) ≡ play (page engine) es s
  play_late run es a s known past = play-answers_late (page engine) run es a s known past
