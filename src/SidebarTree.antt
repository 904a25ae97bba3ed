-- ===== src/SidebarTree.antt =====
-- web/src/components/SidebarTree.tsx: the sites, which of them are open, and the hosts of each. The
-- set of the open sites is the list of its members in the order of their insertion, and the record
-- of hosts by site is a list of pairs. Each effect is given by how its call of the API ends, if
-- nothing has cancelled it; the timer is left out.
pub mod Expanded
pub mod Hosts
pub mod Rows
pub mod Links
mod Tests
use lab_keeper.Common.{
  List, Option, Text, [], if◌then◌else◌, non_empty, none, not, or_else, or_text, some, take, text,
  text_eq, ◌∷◌,
}
use lab_keeper.Oidc.Types.{Failure, session_expired, message}
use lab_keeper.Oidc.World.{Result, ok, throws}
use lab_keeper.TextSet.{has_text, append_text, delete_text}
use lab_keeper.Api.Types.{Host, Site}

-- `host.name || host.hostname || host.subject || host.id.slice(0, 8)`
unfoldable pub host_label : Host → Text
host_label host =
    or_text host.name (or_text host.hostname (or_text (or_else host.subject []) (take 8 host.id)))

unfoldable pub host_status_title : Host → Text
host_status_title host =
    if not host.online
    then text "Offline"
    else if host.agent_online
    then text "Online · Agent connected"
    else text "Online · Agent offline"

abbrev pub HostsBySite : Type 0
HostsBySite = List (Text × List Host)

pub record Tree : Type 0 where
  pub sites : List Site
  pub expanded : List Text
  pub hosts_by_site : HostsBySite
  pub error : Option Text

-- Opens a site, unless it is open.
unfoldable pub expand : Text → Tree → Tree
unfolding has_text append_text
expand id t =
    if has_text t.expanded id then t else record t { expanded = append_text t.expanded id }

-- The effect for the site of the page's address.
unfoldable pub site_chosen : Option Text → Tree → Tree
unfolding expand
site_chosen none t = t
site_chosen (some id) t = if non_empty id then expand id t else t

-- The effect for the host of the page's address: the site of the host opens. A failure changes nothing.
unfoldable pub host_found : Result Host → Tree → Tree
unfolding expand
host_found (ok host) t = if non_empty host.site_id then expand host.site_id t else t
host_found (throws e) t = t

unfoldable pub toggle_site : Text → Tree → Tree
unfolding has_text append_text delete_text
toggle_site id t = record t {
  expanded =
      if has_text t.expanded id then delete_text t.expanded id else append_text t.expanded id;
}

-- `record[id]`
unfoldable pub hosts_of : HostsBySite → Text → Option (List Host)
hosts_of [] id = none
hosts_of ((site, hosts) ∷ rest) id = if text_eq site id then some hosts else hosts_of rest id

-- `next[id] = hosts`
unfoldable pub put_hosts : HostsBySite → Text → List Host → HostsBySite
put_hosts [] id hosts = (id, hosts) ∷ []
put_hosts ((site, old) ∷ rest) id hosts =
    let later = (site, old) ∷ put_hosts rest id hosts in
    if text_eq site id then (site, hosts) ∷ rest else later

-- The loop over the entries.
unfoldable pub merge : List (Text × List Host) → HostsBySite → HostsBySite
unfolding put_hosts
merge [] current = current
merge ((id, hosts) ∷ entries) current = merge entries (put_hosts current id hosts)

module _ (engine_message : Failure → Text) where
  unfoldable pub sites_fetched : Result (List Site) → Tree → Tree
  sites_fetched (ok sites) t = record t { sites = sites; error = none }
  sites_fetched (throws (session_expired m)) t = t
  sites_fetched (throws e) t = record t { error = some (message engine_message e) }

  -- `loadHosts`, by the answers for the open sites.
  unfoldable pub hosts_loaded : Result (List (Text × List Host)) → Tree → Tree
  unfolding merge
  hosts_loaded (ok entries) t = record t { hosts_by_site = merge entries t.hosts_by_site }
  hosts_loaded (throws (session_expired m)) t = t
  hosts_loaded (throws e) t = record t { error = some (message engine_message e) }
