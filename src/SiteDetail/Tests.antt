-- ===== src/SiteDetail/Tests.antt =====
-- The page of web/src/components/SiteDetail.tsx on the way from one site to another.
use lab_keeper.Common.{
  List, Option, Text, [], arith, inl, inr, refl, some, text, text_eq, true, ℕ, ◌∷◌, ◌≡◌,
}
use lab_keeper.Oidc.Types.{Failure}
use lab_keeper.Oidc.World.{Result, ok}
use lab_keeper.Api.Types.{Site}
use lab_keeper.Effects.{Mounted, Event, renders, answers, mount, step, play}
use lab_keeper.Effects.Laws.{AreFair}
use lab_keeper.SiteDetail.{View, Input, is_new, initial_view, load_begins, load_ended, page}
use lab_keeper.Items.Offers.{Offers}
use lab_keeper.Items.Everywhere.{Everywhere}
use lab_keeper.SiteDetail.Screen.{remove, site_page, screen_items}
use lab_keeper.SiteDetail.Subject.{Deletes, Serves, site_screen-Everywhere}
use lab_keeper.SiteDetail.Address.{Inv, FairAnswer, play-shown_site}

abbrev site : Text → Site
site id = record {
  id = id;
  name = text "lab";
  discovery_enabled = true;
  created_at = text "t";
  updated_at = text "t";
}

abbrev engine : Failure → Text
engine e = text "m"

-- The address changes from a to b, b is answered, and a only then.
abbrev visit : List (Event (Option Text) (Result (Site × ℕ)) Input)
visit =
    renders (some (text "a"))
    ∷ renders (some (text "b"))
    ∷ answers 1 (ok (site (text "b"), 3))
    ∷ answers 0 (ok (site (text "a"), 5))
    ∷ []

abbrev here : Mounted (Option Text) View
here = play (page engine) visit (mount (initial_view (some (text "a"))))

visit_fair :
    AreFair
      (page engine)
      Inv
      FairAnswer
      (λ p i. Unit)
      visit
      (mount (initial_view (some (text "a"))))
unfolding AreFair step load_begins is_new initial_view text text_eq
visit_fair = (tt, (tt, (λ e. refl, (λ e. absurd (omega (arith, e)), tt))))

play-shown_site_example : some (text "b") ≡ some (site (text "b")).id
unfolding play load_ended load_begins is_new initial_view text text_eq
play-shown_site_example =
    play-shown_site engine (some (text "a")) visit (some (text "b")) (site (text "b")) here refl
      visit_fair refl refl refl refl

site_screen-Everywhere_example :
    Everywhere
      (Deletes (some (text "b")))
      (Serves (some (text "b")))
      (screen_items (some (text "b")) here.view)
unfolding play load_ended load_begins is_new initial_view text text_eq
site_screen-Everywhere_example =
    site_screen-Everywhere engine (some (text "a")) visit (some (text "b")) here refl visit_fair
      refl refl

-- The page of the site offers to delete it.
deletes_shown : Offers (remove (site (text "b"))) (screen_items (some (text "b")) here.view)
unfolding play load_ended load_begins is_new initial_view text text_eq screen_items site_page
deletes_shown = inr (inr (inr (inl (refl, refl))))
