-- ===== src/DiscoveryPanel.antt =====
-- web/src/components/DiscoveryPanel.tsx: the search for hosts in a network, and the adding of what was
-- found. Two additions may be under way at once.
pub mod Candidates
pub mod Panel
pub mod Requests
pub mod Offered
pub mod Once
mod Tests
use lab_keeper.Common.{
  Bool, List, Option, Text, [], false, if◌then◌else◌, none, or_text, some, text, text_eq, trim,
  true, ℕ, ◌+◌, ◌∷◌,
}
use lab_keeper.Oidc.Types.{Failure, report}
use lab_keeper.Oidc.World.{World, Result, ok, throws, Action}
use lab_keeper.Api.Inputs.{CreateHostInput}
use lab_keeper.Api.Endpoints.{create_host}
use lab_keeper.Json.{Json}
use lab_keeper.TextSet.{has_text, add_text, delete_text}

pub record DiscoveryNetwork : Type 0 where
  pub iface : Text
  pub cidr : Text
  pub address : Text

pub record DiscoveryStatus : Type 0 where
  pub enabled : Bool
  pub networks : List DiscoveryNetwork

pub record DiscoveryCandidate : Type 0 where
  pub ip : Text
  pub hostname : Option Text
  pub rtt_ms : Option ℕ
  pub open_ports : Option (List ℕ)
  pub methods : Option (List Text)
  pub already_known : Bool

pub record View : Type 0 where
  pub networks : List DiscoveryNetwork
  pub cidr : Text
  pub custom_cidr : Text
  pub candidates : List DiscoveryCandidate
  pub show_in_inventory : Bool
  pub adding_ips : List Text
  pub error : Option Text
  pub loading_status : Bool
  pub scanning : Bool

abbrev pub initial_view : View
initial_view = record {
  networks = [];
  cidr = [];
  custom_cidr = [];
  candidates = [];
  show_in_inventory = false;
  adding_ips = [];
  error = none;
  loading_status = true;
  scanning = false;
}

-- The fields' handlers
unfoldable pub choose_network : Text → View → View
choose_network cidr v = record v { cidr = cidr; custom_cidr = [] }

-- `(customCidr.trim() || cidr).trim()`
unfoldable pub scan_target : View → Text
scan_target v = trim (or_text (trim v.custom_cidr) v.cidr)

-- `handleScan` up to its request, with the network that is scanned
abbrev pub scan_for : Text → View → View × Option Text
scan_for [] v = (record v { error = some (text "Choose or enter a private CIDR (max /23)") }, none)
scan_for (c ∷ target) v =
    (record v { scanning = true; error = none; candidates = [] }, some (c ∷ target))

unfoldable pub scan_begins : View → View × Option Text
unfolding scan_target
scan_begins v = scan_for (scan_target v) v

-- `current.map((item) => item.ip === candidate.ip ? { ...item, already_known: true } : item)`
unfoldable pub mark_known : Text → List DiscoveryCandidate → List DiscoveryCandidate
mark_known ip [] = []
mark_known ip (item ∷ items) =
    (if text_eq item.ip ip then record item { already_known = true } else item)
    ∷ mark_known ip items

-- `handleAdd` up to its request
unfoldable pub add_begins : DiscoveryCandidate → View → View
unfolding add_text
add_begins candidate v = record v { adding_ips = add_text v.adding_ips candidate.ip; error = none }

-- `candidate.hostname || undefined`
abbrev pub given_name : Option Text → Option Text
given_name none = none
given_name (some []) = none
given_name (some (c ∷ name)) = some (c ∷ name)

unfoldable pub add_input : Text → DiscoveryCandidate → CreateHostInput
add_input site_id candidate = record {
  site_id = site_id;
  name = none;
  hostname = given_name candidate.hostname;
  address = some candidate.ip;
  os = none;
  credential_id = none;
  probe_method = none;
  probe_port = none;
}

unfoldable pub unknown_only : List DiscoveryCandidate → List DiscoveryCandidate
unknown_only [] = []
unknown_only (item ∷ items) =
    let rest = unknown_only items in if item.already_known then rest else item ∷ rest

unfoldable pub visible_candidates : View → List DiscoveryCandidate
unfolding unknown_only
visible_candidates v = if v.show_in_inventory then v.candidates else unknown_only v.candidates

unfoldable pub count_known : List DiscoveryCandidate → ℕ
count_known [] = 0
count_known (item ∷ items) = (if item.already_known then 1 else 0) + count_known items

unfoldable pub known_count : View → ℕ
unfolding count_known
known_count v = count_known v.candidates

module _ (engine_message : Failure → Text) where
  abbrev pub status_settled : Bool → List DiscoveryNetwork → View → View
  status_settled enabled [] v = record v {
    error = some (text "Discovery unavailable: Server has no private network interface");
    networks = [];
    loading_status = false;
  }
  status_settled false (n ∷ ns) v = record v {
    error = some (text "Discovery unavailable: Server has no private network interface");
    networks = [];
    loading_status = false;
  }
  status_settled true (n ∷ ns) v = record v {
    networks = n ∷ ns;
    cidr = n.cidr;
    error = none;
    loading_status = false;
  }

  -- The effect, if nothing has cancelled it
  unfoldable pub status_ended : Result DiscoveryStatus → View → View
  status_ended (ok status) v = status_settled status.enabled status.networks v
  status_ended (throws e) v = record v {
    error = report engine_message e v.error;
    loading_status = false;
  }

  -- The rest of `handleScan`
  unfoldable pub scan_ended : Result (List DiscoveryCandidate) → View → View
  scan_ended (ok []) v = record v {
    candidates = [];
    error = some (text "Scan finished — no hosts responded");
    scanning = false;
  }
  scan_ended (ok (item ∷ items)) v = record v { candidates = item ∷ items; scanning = false }
  scan_ended (throws e) v = record v { error = report engine_message e v.error; scanning = false }

  -- The rest of `handleAdd`, and whether `onAdded` is called
  unfoldable pub add_ended : DiscoveryCandidate → Result Json → View → View × Bool
  unfolding mark_known delete_text
  add_ended candidate (ok host) v = (
    record v {
      candidates = mark_known candidate.ip v.candidates;
      adding_ips = delete_text v.adding_ips candidate.ip;
    },
    true,
  )
  add_ended candidate (throws e) v = (
    record v {
      error = report engine_message e v.error;
      adding_ips = delete_text v.adding_ips candidate.ip;
    },
    false,
  )

  -- `handleAdd` when nothing comes in between
  unfoldable pub handle_add : Text → DiscoveryCandidate → View → World → (View × Bool) × World
  unfolding add_begins add_ended
  handle_add site_id candidate v w =
      let (r, w') = create_host (add_input site_id candidate) w in
      (add_ended candidate r (add_begins candidate v), w')
