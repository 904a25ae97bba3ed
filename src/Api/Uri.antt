-- ===== src/Api/Uri.antt =====
-- The addresses of web/src/lib/api.ts: the API's base, `encodeURIComponent`, and the address of
-- the terminal's WebSocket.
use lab_keeper.Common.{
  Bool, List, Text, [], drop, if◌then◌else◌, leb, ltb, map, not, strip_slash, take, text, text_eq,
  true, utf8, ℕ, ◌%◌, ◌&&◌, ◌++◌, ◌+◌, ◌-◌, ◌/◌, ◌==◌, ◌||◌, ◌∷◌,
}
use lab_keeper.Config
use lab_keeper.Oidc.Types.{uri_error}
use lab_keeper.Oidc.World.{World, Action, pure, throw, gets, ◌>>=◌}

unfoldable pub api_base : World → Text
api_base w = strip_slash (Config.api_url w.env)

-- A letter, a digit or one of - _ . ! ~ * ' ( )
unfoldable pub is_unreserved : ℕ → Bool
is_unreserved c =
    (leb b'A' c && leb c b'Z')
    || (leb b'a' c && leb c b'z')
    || (leb b'0' c && leb c b'9')
    || (c == b'-')
    || (c == b'_')
    || (c == b'.')
    || (c == b'!')
    || (c == b'~')
    || (c == b'*')
    || (c == 39)
    || (c == b'(')
    || (c == b')')

abbrev pub hex_digit : ℕ → ℕ
hex_digit n = if ltb n 10 then b'0' + n else b'A' + (n - 10)

unfoldable pub escape_byte : ℕ → Text
unfolding is_unreserved
escape_byte b =
    if is_unreserved b then b ∷ [] else b'%' ∷ hex_digit (b / 16) ∷ hex_digit (b % 16) ∷ []

unfoldable pub escape_bytes : List ℕ → Text
unfolding escape_byte
escape_bytes [] = []
escape_bytes (b ∷ rest) = escape_byte b ++ escape_bytes rest

abbrev high_half : ℕ → Bool
high_half c = leb 0xd800 c && ltb c 0xdc00

abbrev low_half : ℕ → Bool
low_half c = leb 0xdc00 c && ltb c 0xe000

-- Every surrogate is half of a pair.
unfoldable pub is_well_formed : Text → Bool
is_well_formed [] = true
is_well_formed (c ∷ []) = not (high_half c || low_half c)
is_well_formed (c ∷ d ∷ s) =
    let paired = low_half d && is_well_formed s in
    let single = not (low_half c) && is_well_formed (d ∷ s) in
    if high_half c then paired else single

-- `encodeURIComponent`
unfoldable pub encode_uri_component : Text → Action Text
unfolding escape_bytes is_well_formed
encode_uri_component s = if is_well_formed s then pure (escape_bytes (utf8 s)) else throw uri_error

abbrev lower : ℕ → ℕ
lower c = if leb b'A' c && leb c b'Z' then c + 32 else c

-- `scheme.toLowerCase() === "https" ? "wss" : "ws"` at what the pattern has matched
unfoldable pub websocket_scheme : Text → Text
websocket_scheme scheme =
    if text_eq (map lower scheme) (text "https") then text "wss" else text "ws"

-- `httpBase.replace(/^http/i, …)`: the pattern takes four characters.
unfoldable pub websocket_base : Text → Text
unfolding websocket_scheme
websocket_base http_base =
    if text_eq (map lower (take 4 http_base)) (text "http")
    then websocket_scheme (take 4 http_base) ++ drop 4 http_base
    else http_base

unfoldable pub terminal_websocket_url : Text → Action Text
terminal_websocket_url ticket = do
  http_base ← gets api_base
  let ws_base = websocket_base http_base
  value ← encode_uri_component ticket
  pure (ws_base ++ text "/api/terminal/ws?ticket=" ++ value)
