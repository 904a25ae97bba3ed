-- ===== src/Api/Endpoints.antt =====
-- The exported calls of web/src/lib/api.ts. Each result is the parsed JSON: the casts to `Site`,
-- `Host`, `Credential` and so on check nothing.
use lab_keeper.Common.{Option, Text, [], if◌then◌else◌, non_empty, none, some, text, ◌++◌}
use lab_keeper.Json.{Json, str, obj, end, field}
use lab_keeper.Oidc.World.{Method, post, put, delete, empty, json, Action, ◌>>=◌, gets}
use lab_keeper.Api.Uri.{encode_uri_component}
use lab_keeper.Api.Fetch.{Init, plain, call, call_void}
use lab_keeper.Api.Inputs.{
  CreateSiteInput, UpdateSiteInput, CreateHostInput, UpdateHostInput, CreateCredentialInput,
  UpdateCredentialInput, TerminalInput, create_site_json, update_site_json, create_host_json,
  update_host_json, create_credential_json, update_credential_json, terminal_json,
}

abbrev pub sending : Method → Json → Init
sending method payload = record {
  method = method;
  content_type = some (text "application/json");
  body = json payload;
}

abbrev pub bare : Method → Init
bare method = record { method = method; content_type = none; body = empty }

unfoldable pub fetch_sites : Action Json
fetch_sites = call (text "/api/site") plain (text "Sites list failed")

unfoldable pub fetch_site : Text → Action Json
fetch_site id = do
  segment ← encode_uri_component id
  call (text "/api/site/" ++ segment) plain (text "Site get failed")

unfoldable pub create_site : CreateSiteInput → Action Json
create_site input =
    call (text "/api/site") (sending post (create_site_json input)) (text "Create site failed")

unfoldable pub update_site : Text → UpdateSiteInput → Action Json
update_site id input = do
  segment ← encode_uri_component id
  call (text "/api/site/" ++ segment) (sending put (update_site_json input))
      (text "Update site failed")

unfoldable pub delete_site : Text → Action (Unit {0})
delete_site id = do
  segment ← encode_uri_component id
  call_void (text "/api/site/" ++ segment) (bare delete) (text "Delete site failed")

-- `siteId ? "?site_id=" + encodeURIComponent(siteId) : ""`
unfoldable pub inventory_query : Option Text → Action Text
inventory_query none = gets (λ w. [])
inventory_query (some site_id) =
    if non_empty site_id
    then (do segment ← encode_uri_component site_id; gets (λ w. text "?site_id=" ++ segment))
    else gets (λ w. [])

unfoldable pub fetch_inventory : Option Text → Action Json
fetch_inventory site_id = do
  query ← inventory_query site_id
  call (text "/api/inventory" ++ query) plain (text "Inventory list failed")

unfoldable pub fetch_host : Text → Action Json
fetch_host id = do
  segment ← encode_uri_component id
  call (text "/api/inventory/" ++ segment) plain (text "Host get failed")

unfoldable pub create_host : CreateHostInput → Action Json
create_host input =
    call (text "/api/inventory") (sending post (create_host_json input)) (text "Create host failed")

unfoldable pub update_host : Text → UpdateHostInput → Action Json
update_host id input = do
  segment ← encode_uri_component id
  call (text "/api/inventory/" ++ segment) (sending put (update_host_json input))
      (text "Update host failed")

unfoldable pub delete_host : Text → Action (Unit {0})
delete_host id = do
  segment ← encode_uri_component id
  call_void (text "/api/inventory/" ++ segment) (bare delete) (text "Delete host failed")

unfoldable pub fetch_discovery_status : Action Json
fetch_discovery_status = call (text "/api/discovery/status") plain (text "Discovery status failed")

unfoldable pub scan_discovery : Text → Action Json
scan_discovery cidr =
    call (text "/api/discovery/scan") (sending post (obj (field (text "cidr") (str cidr) end)))
      (text "Discovery scan failed")

unfoldable pub fetch_credentials : Action Json
fetch_credentials = call (text "/api/credentials") plain (text "Credentials list failed")

unfoldable pub create_credential : CreateCredentialInput → Action Json
create_credential input =
    call (text "/api/credentials") (sending post (create_credential_json input))
      (text "Create credential failed")

unfoldable pub update_credential : Text → UpdateCredentialInput → Action Json
update_credential id input = do
  segment ← encode_uri_component id
  call (text "/api/credentials/" ++ segment) (sending put (update_credential_json input))
      (text "Update credential failed")

unfoldable pub delete_credential : Text → Action (Unit {0})
delete_credential id = do
  segment ← encode_uri_component id
  call_void (text "/api/credentials/" ++ segment) (bare delete) (text "Delete credential failed")

unfoldable pub generate_ssh_key : Action Json
generate_ssh_key =
    call (text "/api/credentials/ssh-keygen") (bare post) (text "SSH key generation failed")

unfoldable pub create_terminal_ticket : TerminalInput → Action Json
create_terminal_ticket input =
    call (text "/api/terminal") (sending post (terminal_json input)) (text "Terminal ticket failed")
