-- ===== src/SiteDetail.antt =====
-- web/src/components/SiteDetail.tsx: the page of a site, of the address `/sites/:siteId`. Where
-- the page passes a handler to a form or a button, the handler is an input here.
pub mod Address
pub mod Screen
pub mod Subject
mod Tests
use lab_keeper.Common.{
  Bool, Option, Text, false, if◌then◌else◌, none, not, some, suc, text, text_eq, true, truthy, ℕ,
  ◌++◌, ◌||◌,
}
use lab_keeper.Oidc.Types.{Failure, report}
use lab_keeper.Oidc.World.{World, Result, ok, throws}
use lab_keeper.Api.Types.{Site}
use lab_keeper.Api.Endpoints.{delete_site}
use lab_keeper.Effects.{Page}

pub data Mode : Type 0 where
  view_mode edit_mode create_host_mode discover_mode : Mode

pub record View : Type 0 where
  pub site : Option Site
  pub host_count : ℕ
  pub mode : Mode
  pub error : Option Text
  pub loading : Bool
  -- `loadedSiteIdRef`
  pub loaded_site_id : Option Text
  -- the last call of `navigate`, and the tree's `refreshKey`
  pub navigated : Option Text
  pub refresh_key : ℕ

abbrev pub option_eq : Option Text → Option Text → Bool
option_eq none none = true
option_eq none (some b) = false
option_eq (some a) none = false
option_eq (some a) (some b) = text_eq a b

-- `siteId === "new"`
unfoldable pub is_new : Option Text → Bool
is_new site_id = option_eq site_id (some (text "new"))

unfoldable pub initial_view : Option Text → View
unfolding is_new
initial_view site_id = record {
  site = none;
  host_count = 0;
  mode = if is_new site_id then edit_mode else view_mode;
  error = none;
  loading = not (is_new site_id);
  loaded_site_id = none;
  navigated = none;
  refresh_key = 0;
}

-- The effect up to the two requests, and whether it makes them.
unfoldable pub load_begins : Option Text → View → View × Bool
unfolding is_new
load_begins site_id v =
    if is_new site_id || not (truthy site_id)
    then (record v { site = none; mode = edit_mode; loading = false; loaded_site_id = none }, false)
    else if option_eq v.loaded_site_id site_id
    then (v, true)
    else (record v { mode = view_mode; loading = true }, true)

-- What the user and the forms do.
pub data Input : Type 0 where
  click_mode : Mode → Input
  form_cancelled : Option Text → Input
  site_saved : Site → Input
  host_form_closed host_saved panel_closed host_added : Input
  delete_ended : Result (Unit {0}) → Input

module _ (engine_message : Failure → Text) where
  -- The rest of the effect: the site and the number of its hosts, or the first failure.
  unfoldable pub load_ended : Option Text → Result (Site × ℕ) → View → View
  load_ended site_id (ok (row, count)) v = record v {
    site = some row;
    host_count = count;
    error = none;
    loaded_site_id = site_id;
    loading = false;
  }
  load_ended site_id (throws e) v = record v {
    error = report engine_message e v.error;
    loading = false;
  }

  -- `handleDelete` once `deleteSite` has ended.
  abbrev pub delete_settled : Result (Unit {0}) → View → View
  delete_settled (ok done) v = record v {
    refresh_key = suc v.refresh_key;
    navigated = some (text "/labkeeper");
  }
  delete_settled (throws e) v = record v { error = report engine_message e v.error }

  abbrev pub delete_shown : Option Site → Bool → View → World → View × World
  delete_shown none confirmed v w = (v, w)
  delete_shown (some site) confirmed v w =
      if confirmed
      then (let (r, w') = delete_site site.id w in (delete_settled r v, w'))
      else (v, w)

  -- `handleDelete`; the dialog's answer is the argument.
  unfoldable pub handle_delete : Bool → View → World → View × World
  handle_delete confirmed v w = delete_shown v.site confirmed v w

  unfoldable pub handle : Input → View → View
  handle (click_mode m) v = record v { mode = m }
  handle (form_cancelled site_id) v =
      if is_new site_id
      then record v { navigated = some (text "/labkeeper") }
      else record v { mode = view_mode }
  handle (site_saved saved) v = record v {
    refresh_key = suc v.refresh_key;
    navigated = some (text "/sites/" ++ saved.id);
    mode = view_mode;
  }
  handle host_form_closed v = record v { mode = view_mode }
  handle host_saved v = record v { refresh_key = suc v.refresh_key; mode = view_mode }
  handle panel_closed v = record v { mode = view_mode }
  handle host_added v = record v { refresh_key = suc v.refresh_key }
  handle (delete_ended r) v = delete_settled r v

  abbrev pub page : Page (Option Text) (Result (Site × ℕ)) Input View
  page = record { begins = load_begins; answered = load_ended; handles = handle }

-- `site={isNew ? null : site}` of the form
unfoldable pub form_site : Option Text → View → Option Site
form_site site_id v = if is_new site_id then none else v.site
