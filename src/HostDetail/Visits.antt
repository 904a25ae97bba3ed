-- ===== src/HostDetail/Visits.antt =====
-- Which host the page of web/src/components/HostDetail.tsx shows, and acts on.
use lab_keeper.Common.{
  Bool, Bool-cases, List, Option, Text, [], false, inl, inr, none, not, refl, some, subst, true,
  truthy, ℕ, ◌||◌, ◌∙◌, ◌∷◌, ◌≡◌, ◌≢◌, ◌⊎◌,
}
use lab_keeper.Oidc.Types.{Failure, is_expired, report-ne-none, report-keeps_some}
use lab_keeper.Oidc.World.{Result, ok, throws}
use lab_keeper.Api.Types.{Host, Site}
use lab_keeper.Effects.{Mounted, Event, mount, play}
use lab_keeper.Effects.Laws.{Keeps, AreFair, play-Inv}
use lab_keeper.HostDetail.Handlers.{
  View, Answer, host_came, site_came, Input, refresh_clicked, refresh_ended, delete_ended,
  initial_view, load_begins, load_at, site_settled, load_ended, refresh_begins, handle, page,
}

-- The host is the one of the address.
abbrev IsHere : Option Text → View → Type 0
IsHere host_id v = (row : Host) × (v.host ≡ some row) × (host_id ≡ some row.id)

abbrev Shows : Option Text → View → Type 0
Shows host_id v =
    (truthy host_id ≡ false)
    ⊎ (v.host ≡ none)
    ⊎ IsHere host_id v
    ⊎ (v.loading ≡ true)
    ⊎ (v.error ≢ none)

-- A load that waits for its site has set the host.
abbrev pub Inv : Option (Option Text) → View → Type 0
Inv none v = Unit
Inv (some host_id) v = Shows host_id v × ((v.site_loads ≡ []) ⊎ IsHere host_id v)

-- The server answers with the host that was asked for, while the session lasts.
abbrev pub FairAnswer : Option Text → Answer → Type 0
FairAnswer host_id (host_came show (ok row)) = host_id ≡ some row.id
FairAnswer host_id (host_came show (throws e)) = is_expired e ≡ false
FairAnswer host_id (site_came n r) = Unit

-- The answer to a refresh comes while the page is still at the address that it was asked for.
abbrev pub FairInput : Option (Option Text) → Input → Type 0
FairInput p (refresh_ended host_id (ok row)) = p ≡ some (some row.id)
FairInput p i = Unit

load_begins-Inv :
    (old : Option (Option Text)) (host_id : Option Text) (v : View)
    → Inv old v
    → Inv (some host_id) (load_begins host_id v).0
unfolding load_begins
load_begins-Inv old host_id v h = elim (Bool-cases (truthy host_id)) [
  | inl asked ↦ rw asked (inr (inr (inr (inl refl))), inl refl)
  | inr bare ↦ rw bare (inl refl, inl refl)
]

record Same (v v' : View) : Type 0 where
  host_same : v'.host ≡ v.host
  loads_same : v'.site_loads ≡ v.site_loads
  loading_same : v'.loading ≡ v.loading
  error_kept : v.error ≢ none → v'.error ≢ none

Same-Inv : (p : Option (Option Text)) (v v' : View) → Same v v' → Inv p v → Inv p v'
Same-Inv none v v' same h = tt
Same-Inv (some p) v v' same (shown, waiting) = (still shown, pending waiting)
  where
    here : IsHere p v → IsHere p v'
    here (row, e, k) = (row, same.host_same ∙ e, k)

    still : Shows p v → Shows p v'
    still (inl bare) = inl bare
    still (inr (inl nothing)) = inr (inl (same.host_same ∙ nothing))
    still (inr (inr (inl k))) = inr (inr (inl (here k)))
    still (inr (inr (inr (inl busy)))) = inr (inr (inr (inl (same.loading_same ∙ busy))))
    still (inr (inr (inr (inr bad)))) = inr (inr (inr (inr (same.error_kept bad))))

    pending : (v.site_loads ≡ []) ⊎ IsHere p v → (v'.site_loads ≡ []) ⊎ IsHere p v'
    pending (inl e) = inl (same.loads_same ∙ e)
    pending (inr k) = inr (here k)

no_loads : (loads : List Bool) (n : ℕ) (show : Bool) → load_at n loads ≡ some show → loads ≢ []
no_loads [] n show h = cc
no_loads (b ∷ bs) n show h = cc

module _ (engine : Failure → Text) where
  site_settled-Inv :
      (host_id : Option Text) (o : Option Bool) (n : ℕ) (r : Result Site) (v : View)
      → load_at n v.site_loads ≡ o
      → Inv (some host_id) v
      → Inv (some host_id) (site_settled engine o n r v)
  site_settled-Inv host_id none n r v e h = h
  site_settled-Inv host_id (some show) n r v e (shown, inl empty) =
      absurd (no_loads v.site_loads n show e empty)
  site_settled-Inv host_id (some show) n r v e (shown, inr here) = (inr (inr (inl here)), inr here)

  load_ended-Inv :
      (host_id : Option Text) (a : Answer) (v : View)
      → FairAnswer host_id a
      → Inv (some host_id) v
      → Inv (some host_id) (load_ended engine host_id a v)
  unfolding load_ended
  load_ended-Inv host_id (host_came show (ok row)) v fair h =
      (inr (inr (inl (row, refl, fair))), inr (row, refl, fair))
  load_ended-Inv host_id (host_came show (throws e)) v fair h =
      (inr (inr (inr (inr (report-ne-none engine e v.error fair)))), h.1)
  load_ended-Inv host_id (site_came n r) v fair h =
      site_settled-Inv host_id (load_at n v.site_loads) n r v refl h

  -- What leaves the host, the loads and the message alone.
  still-Same : (v : View) → Same v v
  still-Same v = record {
    host_same = refl;
    loads_same = refl;
    loading_same = refl;
    error_kept = λ h. h;
  }

  refresh_begins-Same :
      (host_id : Option Text) (v : View) → Same v (refresh_begins engine host_id v)
  refresh_begins-Same host_id v = elim (Bool-cases (not (truthy host_id) || v.refreshing)) [
    | inl busy ↦ rw busy (still-Same v)
    | inr free ↦
        rw free
          (record { host_same = refl; loads_same = refl; loading_same = refl; error_kept = λ h. h })
  ]

  handle-Inv :
      (p : Option (Option Text)) (i : Input) (v : View)
      → FairInput p i
      → Inv p v
      → Inv p (handle engine i v)
  unfolding handle
  handle-Inv none i v fair h = tt
  handle-Inv (some p) (refresh_clicked host_id) v fair h =
      Same-Inv (some p) v _ (refresh_begins-Same host_id v) h
  handle-Inv (some p) (refresh_ended host_id (ok row)) v fair h =
      let here : p ≡ some row.id = cc in (inr (inr (inl (row, refl, here))), inr (row, refl, here))
  handle-Inv (some p) (refresh_ended host_id (throws e)) v fair h =
      Same-Inv (some p) v (handle engine (refresh_ended host_id (throws e)) v)
        (record {
          host_same = refl;
          loads_same = refl;
          loading_same = refl;
          error_kept = report-keeps_some engine e v.error;
        })
        h
  handle-Inv (some p) (delete_ended host (throws e)) v fair h =
      Same-Inv (some p) v (handle engine (delete_ended host (throws e)) v)
        (record {
          host_same = refl;
          loads_same = refl;
          loading_same = refl;
          error_kept = report-keeps_some engine e v.error;
        })
        h
  handle-Inv (some p) _ v fair h = h

  page-Keeps : Keeps (page engine) Inv FairAnswer FairInput
  page-Keeps = record {
    begins_keeps = load_begins-Inv;
    answered_keeps = load_ended-Inv;
    handles_keeps = handle-Inv;
  }

  shown_host :
      (host_id : Option Text) (v : View) (row : Host)
      → Inv (some host_id) v
      → truthy host_id ≡ true
      → v.loading ≡ false
      → v.error ≡ none
      → v.host ≡ some row
      → host_id ≡ some row.id
  shown_host host_id v row (shown, waiting) asked idle well here = elim shown [
    | inl bare ↦ cc
    | inr (inl nothing) ↦ cc
    | inr (inr (inl (r, e, k))) ↦ cc
    | inr (inr (inr (inl busy))) ↦ cc
    | inr (inr (inr (inr bad))) ↦ absurd (bad well)
  ]

  -- Through any changes of the address, repeated loads and late answers: while the session lasts, the server
  -- answers with the host that was asked for, and no refresh ends after the address has changed, a page
  -- that is not loading and shows no failure shows the host of its address, or none.
  pub play-shown_host :
      (es : List (Event (Option Text) Answer Input)) (host_id : Option Text) (row : Host)
      (s : Mounted (Option Text) View)
      → play (page engine) es (mount initial_view) ≡ s
      → AreFair (page engine) Inv FairAnswer FairInput es (mount initial_view)
      → s.props ≡ some host_id
      → truthy host_id ≡ true
      → s.view.loading ≡ false
      → s.view.error ≡ none
      → s.view.host ≡ some row
      → host_id ≡ some row.id
  play-shown_host es host_id row s same fair now asked idle well here =
      let kept =
        play-Inv (page engine) Inv FairAnswer FairInput page-Keeps es (mount initial_view) fair tt
          tt in
      let at_end : Inv s.props s.view = subst (λ t. Inv t.props t.view) same kept in
      shown_host host_id s.view row (subst (λ p. Inv p s.view) now at_end) asked idle well here
