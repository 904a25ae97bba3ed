-- ===== src/HostDetail/Handlers.antt =====
-- The state of the page in web/src/components/HostDetail.tsx, of the address `/hosts/:hostId`: its
-- loads, which a timer repeats, and its handlers. The timer and the clipboard are the browser's: a
-- tick and the end of a copy are inputs.
use lab_keeper.Common.{
  Bool, List, Option, Text, [], false, if◌then◌else◌, non_empty, none, not, some, suc, text,
  text_eq, true, truthy, zero, ℕ, ◌++◌, ◌||◌, ◌∷◌,
}
use lab_keeper.Oidc.Types.{Failure, report}
use lab_keeper.Oidc.World.{World, Result, ok, throws}
use lab_keeper.Api.Types.{Host, Site}
use lab_keeper.Api.Endpoints.{delete_host}
use lab_keeper.Effects.{Page}

pub data Tab : Type 0 where
  overview network telemetry terminal : Tab

pub record View : Type 0 where
  pub host : Option Host
  pub site_name : Option Text
  pub editing : Bool
  pub tab : Tab
  pub error : Option Text
  pub loading : Bool
  pub refreshing : Bool
  pub copied : Option Text
  -- the loads of the live run that have their host and wait for its site, by `showLoading`
  pub site_loads : List Bool
  -- the last call of `navigate`, and the tree's `refreshKey`
  pub navigated : Option Text
  pub refresh_key : ℕ

abbrev pub initial_view : View
initial_view = record {
  host = none;
  site_name = none;
  editing = false;
  tab = overview;
  error = none;
  loading = true;
  refreshing = false;
  copied = none;
  site_loads = [];
  navigated = none;
  refresh_key = 0;
}

-- The effect up to the first request: `load(true)`. A run that is cancelled takes its loads with it.
unfoldable pub load_begins : Option Text → View → View × Bool
load_begins host_id v =
    if truthy host_id
    then (record v { loading = true; site_loads = [] }, true)
    else (record v { site_loads = [] }, false)

-- The timer's callback: whether it calls `load(false)`.
unfoldable pub tick_loads : View → Bool
tick_loads v = not v.editing

-- The two answers of a load: the host, and then the site for one of the loads that wait for it.
pub data Answer : Type 0 where
  host_came : Bool → Result Host → Answer
  site_came : ℕ → Result Site → Answer

abbrev pub if_shown : {A : Type 0} → Bool → A → A → A
if_shown true new old = new
if_shown false new old = old

abbrev pub site_result : Result Site → Option Text
site_result (ok site) = some site.name
site_result (throws e) = none

unfoldable pub remove_at : ℕ → List Bool → List Bool
remove_at n [] = []
remove_at zero (b ∷ bs) = bs
remove_at (suc n) (b ∷ bs) = b ∷ remove_at n bs

abbrev pub load_at : ℕ → List Bool → Option Bool
load_at n [] = none
load_at zero (b ∷ bs) = some b
load_at (suc n) (b ∷ bs) = load_at n bs

-- What the user does, and how the calls of the handlers end. The end of a refresh has the id that
-- the handler was called with, and that of a deletion the host.
pub data Input : Type 0 where
  click_tab : Tab → Input
  click_edit form_closed host_saved : Input
  refresh_clicked : Option Text → Input
  refresh_ended : Text → Result Host → Input
  delete_ended : Host → Result (Unit {0}) → Input
  copy_ended : Text → Input
  copy_timed_out : Text → Input

module _ (engine_message : Failure → Text) where
  abbrev pub site_settled : Option Bool → ℕ → Result Site → View → View
  site_settled none n r v = v
  site_settled (some show) n r v = record v {
    site_name = site_result r;
    loading = if_shown show false v.loading;
    site_loads = remove_at n v.site_loads;
  }

  -- The rest of `load`, in a run that is not cancelled.
  unfoldable pub load_ended : Option Text → Answer → View → View
  unfolding remove_at
  load_ended host_id (host_came show (ok row)) v = record v {
    host = some row;
    error = none;
    editing = if_shown show false v.editing;
    tab = if_shown show overview v.tab;
    site_loads = show ∷ v.site_loads;
  }
  load_ended host_id (host_came show (throws e)) v = record v {
    error = report engine_message e v.error;
    loading = if_shown show false v.loading;
  }
  load_ended host_id (site_came n r) v = site_settled (load_at n v.site_loads) n r v

  -- `handleRefresh` up to its request
  abbrev pub refresh_begins : Option Text → View → View
  refresh_begins host_id v =
      if not (truthy host_id) || v.refreshing then v else record v { refreshing = true }

  abbrev pub refresh_settled : Result Host → View → View
  refresh_settled (ok row) v = record v {
    host = some row;
    error = none;
    refresh_key = suc v.refresh_key;
    refreshing = false;
  }
  refresh_settled (throws e) v = record v {
    error = report engine_message e v.error;
    refreshing = false;
  }

  -- `navigate(host.site_id ? …)`
  abbrev pub after_delete : Host → Text
  after_delete host =
      if non_empty host.site_id then text "/sites/" ++ host.site_id else text "/labkeeper"

  abbrev pub delete_settled : Host → Result (Unit {0}) → View → View
  delete_settled host (ok done) v = record v {
    refresh_key = suc v.refresh_key;
    navigated = some (after_delete host);
  }
  delete_settled host (throws e) v = record v { error = report engine_message e v.error }

  abbrev pub delete_shown : Option Host → Bool → View → World → View × World
  delete_shown none confirmed v w = (v, w)
  delete_shown (some host) confirmed v w =
      if confirmed
      then (let (r, w') = delete_host host.id w in (delete_settled host r v, w'))
      else (v, w)

  -- `handleDelete`; the dialog's answer is the argument.
  unfoldable pub handle_delete : Bool → View → World → View × World
  handle_delete confirmed v w = delete_shown v.host confirmed v w

  -- `handleCopy`: the mark goes after a while, unless another has taken its place.
  abbrev pub unmark : Option Text → Text → Option Text
  unmark none key = none
  unmark (some current) key = if text_eq current key then none else some current

  unfoldable pub handle : Input → View → View
  handle (click_tab t) v = record v { tab = t }
  handle click_edit v = record v { editing = true }
  handle form_closed v = record v { editing = false }
  handle host_saved v = record v { refresh_key = suc v.refresh_key; editing = false }
  handle (refresh_clicked host_id) v = refresh_begins host_id v
  handle (refresh_ended host_id r) v = refresh_settled r v
  handle (delete_ended host r) v = delete_settled host r v
  handle (copy_ended key) v = record v { copied = some key }
  handle (copy_timed_out key) v = record v { copied = unmark v.copied key }

  abbrev pub page : Page (Option Text) Answer Input View
  page = record { begins = load_begins; answered = load_ended; handles = handle }
