-- ===== src/Oidc/Completion/Exchange.antt =====
-- The exchange of the code in web/src/lib/oidc.ts, when the provider answers.
use lab_keeper.Common.{
  Bool-cases, List, Option, Text, [], ap, if◌then◌else◌, inl, inr, non_empty, none, not, refl, some,
  subst, sym, true, ◌∷◌, ◌≡◌,
}
use lab_keeper.Json.{Json, obj, Fields}
use lab_keeper.Oidc.Types.{
  OidcDiscovery, TokenSet, SessionData, PendingAuth, as_token_set, as_discovery, type_error,
}
use lab_keeper.Oidc.World.{World, holds, absent, Response, Reply, answers, ok, is_ok}
use lab_keeper.Oidc.Session.{
  discover, fetch_discovery, cached_or, discovery_url, plain_get, read_tokens, stamp_expiry,
  save_session,
}
use lab_keeper.Oidc.Login.{
  exchange_code, exchange_request, fetch_userinfo, read_userinfo, userinfo_of, bearer_get,
}
use lab_keeper.Oidc.Runs.{
  Runs, Runs-bind, Runs-pure, Runs-gets, Runs-need, Runs-modify, Runs-throw_if, Runs-fetch,
  Runs-response_json, responded,
}
use lab_keeper.Oidc.Completion.Provider.{Provides, provided}

-- The worlds on the way of an exchange.
abbrev discovered : World → Response → Fields → List Reply → World
discovered w r fields later = record (responded (plain_get (discovery_url w)) r later w) {
  discovery_cache = some (as_discovery (obj fields));
}

discover-Runs :
    (w : World) (r : Response) (fields : Fields) (later : List Reply)
    → w.discovery_cache ≡ none
    → w.replies ≡ answers r ∷ later
    → is_ok r ≡ true
    → w.parse_json r.body ≡ some (obj fields)
    → Runs discover w (some (as_discovery (obj fields))) (discovered w r fields later)
unfolding discover fetch_discovery
discover-Runs w r fields later cold next fine parsed = record {
  ends =
      subst
        (λ c.
          cached_or c fetch_discovery w
          ≡ (ok (some (as_discovery (obj fields))), discovered w r fields later))
        (sym cold)
        (Runs-bind _ (Runs-gets discovery_url w) (
          Runs-bind _ (Runs-fetch _ r later w next) (
            Runs-bind _ (Runs-throw_if _ _ (ap not fine)) (
              Runs-bind _ (Runs-response_json r (obj fields) _ parsed)
                (Runs-bind _ (Runs-modify _ _) (Runs-pure _ _)))))).ends;
}

read_userinfo-Runs :
    (r : Response) (j : Json) (w : World)
    → w.parse_json r.body ≡ some j
    → Runs (read_userinfo r) w (if is_ok r then userinfo_of j else none) w
read_userinfo-Runs r j w parsed = elim (Bool-cases (is_ok r)) [
  | inl fine ↦ rw fine (Runs-bind _ (Runs-response_json r j w parsed) (Runs-pure _ _))
  | inr bad ↦ rw bad (Runs-pure none w)
]

-- The user's answer is asked for and read, whatever it says.
fetch_userinfo-Runs :
    (w : World) (doc : OidcDiscovery) (o : Option Text) (t : Text) (r : Response) (j : Json)
    (later : List Reply)
    → o ≡ some t
    → non_empty t ≡ true
    → w.replies ≡ answers r ∷ later
    → w.parse_json r.body ≡ some j
    → Runs
        (fetch_userinfo doc o)
        w
        (if is_ok r then userinfo_of j else none)
        (responded (bearer_get doc.userinfo_endpoint t) r later w)
unfolding fetch_userinfo
fetch_userinfo-Runs w doc o t r j later has given next parsed = record {
  ends =
      rw (has, given)
        (Runs-bind _ (Runs-fetch _ r later w next) (read_userinfo-Runs r j _ parsed)).ends;
}

pub read_tokens-Runs :
    (r : Response) (fields : Fields) (w : World)
    → w.parse_json r.body ≡ some (obj fields)
    → Runs (read_tokens r) w (stamp_expiry w.now (as_token_set (obj fields))) w
unfolding read_tokens
read_tokens-Runs r fields w parsed =
    Runs-bind _ (Runs-response_json r (obj fields) w parsed)
      (Runs-bind _ (Runs-gets _ w) (Runs-pure _ w))

module _ (w : World) (p : Provides w.parse_json) (code : Text) (pending : PendingAuth) where
  abbrev pub document : OidcDiscovery
  document = as_discovery (obj p.document_fields)

  abbrev pub asked : World
  asked = discovered w p.document p.document_fields (answers p.granted ∷ answers p.user ∷ [])

  abbrev pub granted_world : World
  granted_world =
      record (responded (exchange_request w.env document code pending) p.granted
        (answers p.user ∷ []) asked) { pending = absent }

  abbrev pub tokens : TokenSet
  tokens = stamp_expiry granted_world.now (as_token_set (obj p.token_fields))

  abbrev pub session : SessionData
  session = record {
    tokens = some tokens;
    userinfo = if is_ok p.user then userinfo_of p.user_json else none;
  }

  abbrev pub logged_in : World
  logged_in =
      record (responded (bearer_get document.userinfo_endpoint p.access_token) p.user []
        granted_world) { session = holds session }

  pub exchange_code-Runs :
      w.discovery_cache ≡ none
      → w.replies ≡ provided p
      → Runs (exchange_code code pending) w session logged_in
  unfolding exchange_code save_session stamp_expiry
  exchange_code-Runs cold next =
      Runs-bind _
        (discover-Runs w p.document p.document_fields _ cold next p.document_ok p.document_parsed)
        (Runs-bind _ (Runs-need type_error _ refl) (
          Runs-bind _ (Runs-gets _ _) (
            Runs-bind _ (Runs-fetch _ p.granted (answers p.user ∷ []) asked refl) (
              Runs-bind _ (Runs-throw_if _ _ (ap not p.granted_ok)) (
                Runs-bind _ (read_tokens-Runs p.granted p.token_fields _ p.token_parsed) (
                  Runs-bind _ (Runs-modify _ _) (
                    Runs-bind _
                      (fetch_userinfo-Runs granted_world document tokens.access_token p.access_token
                        p.user p.user_json [] p.has_access p.access_given refl p.user_parsed)
                      (Runs-bind _ (Runs-modify _ _) (Runs-pure _ _)))))))))
