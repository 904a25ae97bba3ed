-- ===== src/HostDetail/Subject.antt =====
-- Which host the buttons and forms of web/src/components/HostDetail.tsx are for.
use lab_keeper.Common.{
  Bool, List, Option, Text, [], false, none, not, refl, some, true, truthy, ◌++◌, ◌==◌, ◌∷◌, ◌≡◌,
}
use lab_keeper.Oidc.Types.{Failure}
use lab_keeper.Api.Types.{Host}
use lab_keeper.Effects.{Mounted, Event, mount, play}
use lab_keeper.Effects.Laws.{AreFair}
use lab_keeper.Items.{Item, only, error_words}
use lab_keeper.Items.Everywhere.{
  Everywhere, Everywhere-append, Everywhere-only, Everywhere-error_words,
}
use lab_keeper.HostDetail.{
  secondary_ips, primary_ip, shown_addresses, address_count, derive_events, DerivedEvent,
}
use lab_keeper.HostDetail.Handlers.{
  Tab, overview, network, telemetry, terminal, View, Answer, Input, initial_view, page,
}
use lab_keeper.HostDetail.Summary.{Tone, agent_pill}
use lab_keeper.HostDetail.Visits.{Inv, FairAnswer, FairInput, play-shown_host}
use lab_keeper.HostDetail.Screen.{
  Click, remove, Child, host_form, host_terminal, pill_words, header_items, extra_rows, extra_items,
  addressing_items, system_items, network_rows, network_items, telemetry_items, agent_items,
  event_rows, tab_items, screen_choice, screen_items,
}

-- The host that a click deletes is that of the address.
abbrev pub Deletes : Option Text → Click → Type 0
Deletes host_id (remove host) = host_id ≡ some host.id
Deletes host_id click = Unit

-- The host that the form edits, or the console connects to, is that of the address.
abbrev pub Serves : Option Text → Child → Type 0
Serves host_id (host_form site_id host) = host_id ≡ some host.id
Serves host_id (host_terminal host) = host_id ≡ some host.id

module _ (host_id : Option Text) where
  abbrev Own : List (Item Click Child) → Type 0
  Own items = Everywhere (Deletes host_id) (Serves host_id) items

  both : (p q : List (Item Click Child)) → Own p → Own q → Own (p ++ q)
  both p q h k = Everywhere-append (Deletes host_id) (Serves host_id) p q h k

  only-Own : (test : Bool) (p : List (Item Click Child)) → Own p → Own (only test p)
  only-Own test p h = Everywhere-only (Deletes host_id) (Serves host_id) test p (λ e. h)

  pill_words-Own : (o : Option (Tone × Text)) → Own (pill_words o)
  pill_words-Own none = tt
  pill_words-Own (some (tone, label)) = tt

  header_items-Own : (host : Host) (v : View) → host_id ≡ some host.id → Own (header_items host v)
  unfolding header_items
  header_items-Own host v own =
      both (pill_words (agent_pill host)) _ (pill_words-Own (agent_pill host)) (
        (λ e. tt),
        (
          (λ e. tt),
          (
            (λ e. tt),
            ((λ e. tt), ((λ e. own), ((λ e. tt), ((λ e. tt), ((λ e. tt), ((λ e. tt), tt)))))),
          ),
        ),
      )

  extra_rows-Own : (addrs : List Text) → Own (extra_rows addrs)
  unfolding extra_rows
  extra_rows-Own [] = tt
  extra_rows-Own (addr ∷ addrs) = ((λ e. tt), extra_rows-Own addrs)

  extra_items-Own : (addrs : List Text) → Own (extra_items addrs)
  extra_items-Own [] = tt
  extra_items-Own (addr ∷ addrs) = extra_rows-Own (addr ∷ addrs)

  network_rows-Own :
      (primary : Option Text) (first : Bool) (addrs : List Text)
      → Own (network_rows primary first addrs)
  unfolding network_rows
  network_rows-Own primary first [] = tt
  network_rows-Own primary first (addr ∷ addrs) = ((λ e. tt), network_rows-Own primary false addrs)

  event_rows-Own :
      (locale_date : Text → Text) (events : List DerivedEvent) → Own (event_rows locale_date events)
  unfolding event_rows
  event_rows-Own locale_date [] = tt
  event_rows-Own locale_date (event ∷ events) = event_rows-Own locale_date events

  tab_items-Own :
      (locale_date : Text → Text) (tab : Tab) (host : Host) (v : View)
      → host_id ≡ some host.id
      → Own (tab_items locale_date tab host v)
  unfolding tab_items addressing_items system_items agent_items network_items telemetry_items
  tab_items-Own locale_date overview host v own =
      both (addressing_items host v) _ ((λ e. tt), extra_items-Own (secondary_ips host))
        (both (system_items host) _ (only-Own (not host.agent_online) _ tt) (
          both (agent_items locale_date host) _
            (only-Own (truthy host.agent_fingerprint) _ ((λ e. tt), tt))
            (event_rows-Own locale_date (derive_events locale_date host))))
  tab_items-Own locale_date network host v own =
      both (network_rows (primary_ip host) true (shown_addresses host)) _
        (network_rows-Own (primary_ip host) true (shown_addresses host))
        (only-Own (address_count host == 0) _ tt)
  tab_items-Own locale_date telemetry host v own = only-Own (not host.agent_online) _ tt
  tab_items-Own locale_date terminal host v own = (own, tt)

  screen_choice-Own :
      (locale_date : Text → Text) (busy : Bool) (o : Option Host) (editing : Bool) (v : View)
      → (busy ≡ false → (row : Host) → o ≡ some row → host_id ≡ some row.id)
      → Own (screen_choice locale_date busy o editing v)
  screen_choice-Own locale_date true o editing v own = tt
  screen_choice-Own locale_date false none editing v own = tt
  screen_choice-Own locale_date false (some host) true v own = (own refl host refl, tt)
  screen_choice-Own locale_date false (some host) false v own =
      both (header_items host v) _ (header_items-Own host v (own refl host refl)) (
        both (error_words v.error) _
          (Everywhere-error_words (Deletes host_id) (Serves host_id) v.error)
          (tab_items-Own locale_date v.tab host v (own refl host refl)))

-- Whatever the page can do is done to the host of its address: through any changes of the address, repeated
-- loads and late answers, while the session lasts, the server answers with the host that was asked for and no
-- refresh ends after the address has changed, a page that shows no failure deletes, edits and
-- opens the console of no other host.
pub host_screen-Everywhere :
    (engine : Failure → Text) (locale_date : Text → Text)
    (es : List (Event (Option Text) Answer Input)) (host_id : Option Text)
    (s : Mounted (Option Text) View)
    → play (page engine) es (mount initial_view) ≡ s
    → AreFair (page engine) Inv FairAnswer FairInput es (mount initial_view)
    → s.props ≡ some host_id
    → truthy host_id ≡ true
    → s.view.error ≡ none
    → Everywhere (Deletes host_id) (Serves host_id) (screen_items locale_date s.view)
unfolding screen_items
host_screen-Everywhere engine locale_date es host_id s same fair now asked well =
    screen_choice-Own host_id locale_date s.view.loading s.view.host s.view.editing s.view
      (λ idle row here. play-shown_host engine es host_id row s same fair now asked idle well here)
