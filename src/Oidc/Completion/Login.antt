-- ===== src/Oidc/Completion/Login.antt =====
-- The whole login of web/src/lib/oidc.ts: from the redirect to the provider, over the new load of the page, to the session.
use lab_keeper.Common.{
  List, Option, Text, [], ap, arith, non_empty, none, not, refl, some, subst, sym, text, text_eq,
  text_eq_refl, true, ◌∙◌, ◌∷◌, ◌≡◌,
}
use lab_keeper.Oidc.Types.{Failure, SessionData, PendingAuth}
use lab_keeper.Oidc.World.{Slot, World, holds, Result, ok}
use lab_keeper.Oidc.Session.{
  load_session, read_session, is_access_token_fresh, stamp_expiry, is_authenticated,
}
use lab_keeper.Oidc.Login.{
  find_exchange, join_or_run, exchange_key, remember, Search, param, throw_if_denied, need_text,
  read_pending, do_handle_callback, handle_callback, start_login, login_query,
}
use lab_keeper.Oidc.Rules.{After}
use lab_keeper.Oidc.Redirect.{IsRedirect, Plain, start_login-IsRedirect}
use lab_keeper.Oidc.Runs.{Runs, Runs-bind, Runs-pure, Runs-gets, Runs-throw_if}
use lab_keeper.Oidc.Completion.Provider.{reloaded, Provides, provided, SendsBack, query_of}
use lab_keeper.Oidc.Completion.Fresh.{signed_in-stamped}
use lab_keeper.Oidc.Completion.Exchange.{tokens, session, logged_in, exchange_code-Runs}

need_text-Runs :
    (o : Option Text) (t : Text) (e : Failure) (w : World)
    → o ≡ some t
    → non_empty t ≡ true
    → Runs (need_text o e) w t w
need_text-Runs o t e w has given = rw (has, given) (Runs-pure t w)

read_pending-Runs :
    (slot : Slot PendingAuth) (pending : PendingAuth) (w : World)
    → slot ≡ holds pending
    → Runs (read_pending slot) w pending w
read_pending-Runs slot pending w stored = rw stored (Runs-pure pending w)

throw_if_denied-Runs :
    (reason description : Option Text) (w : World)
    → reason ≡ none
    → Runs (throw_if_denied reason description) w tt w
throw_if_denied-Runs reason description w fine = rw fine (Runs-pure tt w)

module _ (w : World) (p : Provides w.parse_json) (code : Text) (pending : PendingAuth)
    (search : Search) where
  do_handle_callback-Runs :
      w.discovery_cache ≡ none
      → w.replies ≡ provided p
      → w.pending ≡ holds pending
      → non_empty pending.state ≡ true
      → param (text "error") search.params ≡ none
      → param (text "code") search.params ≡ some code
      → non_empty code ≡ true
      → param (text "state") search.params ≡ some pending.state
      → Runs (do_handle_callback search) w (session w p code pending) (logged_in w p code pending)
  unfolding do_handle_callback
  do_handle_callback-Runs cold next stored given fine has_code code_given has_state =
      Runs-bind _ (throw_if_denied-Runs _ _ w fine) (
        Runs-bind _ (need_text-Runs _ code _ w has_code code_given) (
          Runs-bind _ (need_text-Runs _ pending.state _ w has_state given) (
            Runs-bind _ (Runs-gets _ w) (
              Runs-bind _ (read_pending-Runs w.pending pending w stored) (
                Runs-bind _ (Runs-throw_if _ w (ap not (text_eq_refl pending.state)))
                  (exchange_code-Runs w p code pending cold next))))))

  handle_callback-Runs :
      w.exchanges ≡ []
      → Runs (do_handle_callback search) w (session w p code pending) (logged_in w p code pending)
      → (w3 : World) × Runs (handle_callback search) w (session w p code pending) w3
        × (w3.session ≡ holds (session w p code pending))
        × (is_authenticated w3 ≡ true)
  unfolding handle_callback is_authenticated is_access_token_fresh load_session read_session
      stamp_expiry find_exchange
  handle_callback-Runs new run =
      let key = exchange_key search in
      let after = logged_in w p code pending in
      let stored = session w p code pending in
      let fresh : List (Text × Result SessionData) = (key, ok stored) ∷ after.exchanges in
      (
        record after { exchanges = fresh },
        record {
          ends =
              subst
                (λ l.
                  join_or_run (find_exchange key l) key search w
                  ≡ (ok stored, record after { exchanges = fresh }))
                (sym new) (ap (remember key) run.ends);
        },
        refl,
        signed_in-stamped (record after { exchanges = fresh }) (tokens w p code pending)
            p.access_token _ p.has_access p.access_given refl (let lasts = p.lasts in omega arith),
      )

asked_state :
    (w : World) (sent : IsRedirect w)
    → param (text "state") (query_of w.location) ≡ some sent.pending.state
unfolding param login_query text text_eq
asked_state w sent = ap (λ l. param (text "state") (query_of l)) sent.left_for

-- A login that has begun is finished: once `startLogin` has sent the browser to the provider, and the
-- provider sends it back with a code and the state from the address, the new load of the page logs in. If the provider
-- answers with its document, with an access token that is good for more than a minute after the last answer, and with JSON about the
-- user, the callback returns the session that is then stored, and the user is signed in.
pub start_login-handle_callback :
    (w1 w2 : World) (search : Search) (p : Provides w2.parse_json)
    → start_login w1 ≡ (ok tt, w2)
    → SendsBack (query_of w2.location) search
    → (session : SessionData) × (w3 : World) × (handle_callback search (reloaded (provided p) w2)
        ≡ (ok session, w3))
      × (w3.session ≡ holds session)
      × (is_authenticated w3 ≡ true)
start_login-handle_callback w1 w2 search p begun back =
    let sent : IsRedirect w2 =
      subst (λ q. After q (λ _. IsRedirect) Plain) begun (start_login-IsRedirect w1) in
    let here : World = reloaded (provided p) w2 in
    let state = back.same_state ∙ asked_state w2 sent in
    let run =
      do_handle_callback-Runs here p back.code sent.pending search refl refl sent.stored
        sent.state_given back.not_denied back.has_code back.code_given state in
    let (w3, done, stored, known) =
      handle_callback-Runs here p back.code sent.pending search refl run in
    (session here p back.code sent.pending, w3, done.ends, stored, known)
