-- ===== src/HostDetail/Tests.antt =====
-- A host of web/src/components/HostDetail.tsx, and the theorems at it.
use lab_keeper.Common.{
  List, Option, Text, [], decimal, false, includes, none, refl, some, text, text_eq, trim, true,
  ◌∷◌, ◌≡◌,
}
use lab_keeper.Api.Inputs.{icmp}
use lab_keeper.Api.Types.{Host}
use lab_keeper.HostDetail.{has, primary_ip, secondary_ips, shown_addresses}
use lab_keeper.Oidc.Types.{Failure, network_error}
use lab_keeper.Oidc.World.{ok, throws}
use lab_keeper.Effects.{Mounted, Event, renders, answers, mount, step, play}
use lab_keeper.Effects.Laws.{AreFair}
use lab_keeper.HostDetail.Handlers.{
  View, Answer, host_came, site_came, Input, initial_view, load_begins, load_ended, page,
}
use lab_keeper.HostDetail.Summary.{format_memory, agent_dot, tone_warn}
use lab_keeper.HostDetail.Visits.{Inv, FairAnswer, FairInput, play-shown_host}
use lab_keeper.Items.Everywhere.{Everywhere}
use lab_keeper.HostDetail.Screen.{host_items, screen_items}
use lab_keeper.HostDetail.Subject.{Deletes, Serves, host_screen-Everywhere}

abbrev sample_host : Host
sample_host = record {
  id = text "h1";
  site_id = text "s1";
  name = text "";
  hostname = text "box";
  address = some (text "  ");
  subject = none;
  agent_fingerprint = some (text "f");
  os = none;
  ips = some (text "fe80::1" ∷ text "10.0.0.2" ∷ text "10.0.0.2" ∷ text "" ∷ text "fe80::1" ∷ []);
  remote_addr = none;
  online = true;
  agent_online = false;
  connected_at = none;
  last_seen = some (text "t");
  last_probe_at = some (text "t");
  probe_method = icmp;
  probe_port = 22;
  cpu_cores = none;
  memory_bytes = none;
  credential_id = none;
  credential = none;
  created_at = text "t";
  updated_at = text "t";
}

sample_addresses : shown_addresses sample_host ≡ text "10.0.0.2" ∷ text "fe80::1" ∷ []
unfolding shown_addresses secondary_ips primary_ip text trim includes text_eq has
sample_addresses = refl

abbrev engine : Failure → Text
engine e = text "m"

-- The page is opened, loads its host and then fails to load the site.
abbrev visit : List (Event (Option Text) Answer Input)
visit =
    renders (some (text "h1"))
    ∷ answers 0 (host_came true (ok sample_host))
    ∷ answers 0 (site_came 0 (throws network_error))
    ∷ []

abbrev visited : Mounted (Option Text) View
visited = play (page engine) visit (mount initial_view)

visit_fair : AreFair (page engine) Inv FairAnswer FairInput visit (mount initial_view)
unfolding AreFair step load_begins text
visit_fair = (tt, (λ e. refl, (λ e. tt, tt)))

play-shown_host_example : some (text "h1") ≡ some sample_host.id
unfolding play load_ended load_begins text
play-shown_host_example =
    play-shown_host engine visit (some (text "h1")) sample_host visited refl visit_fair refl refl
      refl refl refl

eight_gib : format_memory (some 8589934592) ≡ text "8.0 GiB"
unfolding format_memory text decimal
eight_gib = refl

amber_dot : agent_dot sample_host ≡ tone_warn
unfolding agent_dot
amber_dot = refl

host_screen-Everywhere_example :
    Everywhere
      (Deletes (some (text "h1")))
      (Serves (some (text "h1")))
      (screen_items (λ iso. iso) visited.view)
unfolding play load_ended load_begins text
host_screen-Everywhere_example =
    host_screen-Everywhere engine (λ iso. iso) visit (some (text "h1")) visited refl visit_fair refl
      refl refl

-- Its buttons are those of the page of the host.
page_is_shown :
    screen_items (λ iso. iso) visited.view ≡ host_items (λ iso. iso) sample_host visited.view
unfolding play load_ended load_begins text screen_items
page_is_shown = refl
