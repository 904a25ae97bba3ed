-- ===== src/Api/Tests.antt =====
-- Runs of `apiFetch` of web/src/lib/api.ts, and its theorems at concrete worlds.
use lab_keeper.Common.{
  All, IsUnit, [], arith, false, refl, text, text_eq, true, utf8, ◌+◌, ◌∷◌, ◌≡◌, ◌≤◌,
}
use lab_keeper.Oidc.World.{World, ok, effects}
use lab_keeper.Oidc.Rules.{After}
use lab_keeper.Oidc.Samples.{sample_world, reply}
use lab_keeper.Json.{property, lookup, field, end, str, num}
use lab_keeper.Oidc.Types.{as_token_set, uri_error}
use lab_keeper.Api.Uri.{
  encode_uri_component, terminal_websocket_url, is_well_formed, escape_bytes, escape_byte,
  is_unreserved,
}
use lab_keeper.Api.Segments.{Carries, terminal_websocket_url-Carries}
use lab_keeper.Api.Fetch.Renewal.{Renews}
use lab_keeper.Api.Fetch.{plain, api_fetch}
use lab_keeper.Api.Fetch.Retries.{authorized, api_fetch-le-two}
use lab_keeper.Api.Fetch.Outcomes.{Accepted, Honest, api_fetch-Accepted}

-- The server says 401 twice, with a refresh in between that goes well.
abbrev locked_world : World
locked_world = sample_world (reply 401 (text "") ∷ reply 200 (text "T") ∷ reply 401 (text "") ∷ [])

api_fetch-le-two_example :
    authorized (api_fetch (text "/api/site") plain locked_world).1.sent
    ≤ authorized locked_world.sent + 2
api_fetch-le-two_example = api_fetch-le-two (text "/api/site") plain locked_world

api_fetch-Accepted_example : After (api_fetch (text "/api/site") plain locked_world) Accepted Honest
api_fetch-Accepted_example = api_fetch-Accepted (text "/api/site") plain locked_world

sample_units : All IsUnit (text "a/b")
unfolding text All
sample_units = (omega arith, (omega arith, (omega arith, tt)))

terminal_websocket_url-Carries_example :
    After
      (terminal_websocket_url (text "a/b") locked_world)
      (λ url w'. Carries (text "a/b") locked_world url w' × (is_well_formed (text "a/b") ≡ true))
      (λ e w'. (e ≡ uri_error) × (is_well_formed (text "a/b") ≡ false) × (w' ≡ locked_world))
terminal_websocket_url-Carries_example =
    terminal_websocket_url-Carries (text "a/b") locked_world sample_units

-- A slash does not end the segment.
slash : (encode_uri_component (text "a/b") locked_world).0 ≡ ok (text "a%2Fb")
unfolding encode_uri_component effects escape_bytes escape_byte is_unreserved is_well_formed utf8
    text
slash = refl

abbrev busy_world : World
busy_world = sample_world (reply 401 (text "") ∷ reply 200 (text "T") ∷ reply 200 (text "E") ∷ [])

renewal : Renews busy_world.parse_json
unfolding text text_eq as_token_set property lookup
renewal = record {
  refusal = record { status = 401; body = text ""; elapsed = 10 };
  refused = refl;
  granted = record { status = 200; body = text "T"; elapsed = 10 };
  granted_ok = refl;
  fields = field (text "access_token") (str (text "a2")) (field (text "expires_in") (num 300) end);
  parsed = refl;
  next_token = text "a2";
  has_next = refl;
  next_given = refl;
  lasts = omega arith;
  answer = record { status = 200; body = text "E"; elapsed = 10 };
  accepted = refl;
}
