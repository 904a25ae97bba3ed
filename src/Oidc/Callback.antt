-- ===== src/Oidc/Callback.antt =====
-- `handleCallback` of web/src/lib/oidc.ts: which callbacks are taken for an answer to the login that
-- this browser began, and a callback that comes twice.
pub mod Exchange
use lab_keeper.Common.{
  List, Option, Text, [], ap, arith, false, none, not, refl, some, subst, sym, text, text_eq,
  text_eq_iff, text_eq_refl, ◌∙◌, ◌∷◌, ◌≡◌, ◌≢◌,
}
use lab_keeper.Json.{Json}
use lab_keeper.Oidc.Types.{
  OidcDiscovery, PendingAuth, SessionData, Failure, syntax_error, type_error,
}
use lab_keeper.Oidc.World.{
  World, Slot, absent, garbled, holds, Request, Response, Reply, unreachable, answers, Result, pure,
  throw, need, fetch, receive, response_json, is_ok,
}
use lab_keeper.Oidc.Session.{save_session, read_tokens, stamp_json}
use lab_keeper.Oidc.Login.{
  Search, param, throw_if_denied, need_text, read_pending, exchange_request, read_userinfo,
  fetch_userinfo, exchange_code, do_handle_callback, find_exchange, exchange_key, join_or_run,
  handle_callback,
}
use lab_keeper.Oidc.Frames.{Frame, discover-frame}
use lab_keeper.Oidc.Rules.{
  After, Triple, Triple-bind, Triple-weaken, Triple-pure, Triple-throw, Triple-gets, Triple-need,
  Triple-throw_if, Keeps-Triple, Triple-modify,
}

module _ {Pre : World → Type 0} {Q : Failure → World → Type 0} where
  throw_if_denied-Triple :
      (P : Unit {0} → World → Type 0) (reason description : Option Text)
      → ((w : World) → Pre w → P tt w)
      → ((e : Failure) (w : World) → Pre w → Q e w)
      → Triple Pre (throw_if_denied reason description) P Q
  throw_if_denied-Triple P none description h q = Triple-pure tt h
  throw_if_denied-Triple P (some reason) description h q =
      Triple-throw_if _ _ (λ w e pre. h w pre) (λ w e pre. q _ w pre)

  need_text-Triple :
      (P : Text → World → Type 0) (o : Option Text) (e : Failure)
      → ((t : Text) (w : World) → o ≡ some t → Pre w → P t w)
      → ((w : World) → Pre w → Q e w)
      → Triple Pre (need_text o e) P Q
  need_text-Triple P none e h q = Triple-throw e q
  need_text-Triple P (some []) e h q = Triple-throw e q
  need_text-Triple P (some (c ∷ t)) e h q = Triple-pure (c ∷ t) (λ w pre. h (c ∷ t) w refl pre)

  read_pending-Triple :
      (P : PendingAuth → World → Type 0) (slot : Slot PendingAuth)
      → ((p : PendingAuth) (w : World) → slot ≡ holds p → Pre w → P p w)
      → ((e : Failure) (w : World) → Pre w → Q e w)
      → Triple Pre (read_pending slot) P Q
  read_pending-Triple P absent h q = Triple-throw _ (q _)
  read_pending-Triple P (garbled raw) h q = Triple-throw _ (q _)
  read_pending-Triple P (holds p) h q = Triple-pure p (λ w pre. h p w refl pre)

same_state : (a b : Text) → not (text_eq a b) ≡ false → a ≡ b
same_state a b h = (text_eq_iff a b).0 (ground arith)

-- The answer names the stored login.
abbrev pub Matching : Search → Slot PendingAuth → Text → PendingAuth → Type 0
Matching search slot code pending =
    (param (text "code") search.params ≡ some code)
    × (slot ≡ holds pending)
    × (param (text "state") search.params ≡ some pending.state)

-- The checks in front of the exchange, as one rule: they change nothing.
module _ (search : Search) (u : World) {P : SessionData → World → Type 0}
    {Q : Failure → World → Type 0} where
  pub callback_rule :
      ((e : Failure) → Q e u)
      → ((code : Text) (pending : PendingAuth)
          → Matching search u.pending code pending
          → Triple (λ w. w ≡ u) (exchange_code code pending) P Q)
      → Triple (λ w. w ≡ u) (do_handle_callback search) P Q
  unfolding do_handle_callback
  callback_rule q h =
      Triple-bind (λ _ w. w ≡ u) (throw_if_denied-Triple _ _ _ (λ w same. same) failed)
        λ _.
          Triple-bind (λ code w. (w ≡ u) × (param (text "code") search.params ≡ some code))
            (need_text-Triple _ _ _ (λ t w e same. (same, e)) (failed _))
            λ code.
              Triple-bind
                (λ state w.
                  (w ≡ u)
                  × (param (text "code") search.params ≡ some code)
                  × (param (text "state") search.params ≡ some state))
                (need_text-Triple _ _ _ (λ t w e h. (h.0, h.1, e)) (λ w h. failed _ w h.0))
                λ state.
                  Triple-bind
                    (λ slot w.
                      (w ≡ u)
                      × (slot ≡ u.pending)
                      × (param (text "code") search.params ≡ some code)
                      × (param (text "state") search.params ≡ some state))
                    (Triple-gets _ λ w h. (h.0, ap (λ v. v.pending) h.0, h.1, h.2))
                    λ slot.
                      Triple-bind
                        (λ pending w.
                          (w ≡ u)
                          × (u.pending ≡ holds pending)
                          × (param (text "code") search.params ≡ some code)
                          × (param (text "state") search.params ≡ some state))
                        (read_pending-Triple _ slot (λ p w e h. (h.0, sym h.1 ∙ e, h.2, h.3))
                          λ e w h. failed e w h.0)
                        λ pending.
                          Triple-bind (λ _ w. (w ≡ u) × Matching search u.pending code pending)
                            (Triple-throw_if _ _
                              (λ w same h. (
                                h.0,
                                (
                                  h.2,
                                  h.1,
                                  h.3 ∙ ap some (sym (same_state pending.state state same)),
                                ),
                              ))
                              λ w other h. failed _ w h.0)
                            λ _. record { apply = λ w m. (h code pending m.1).apply w m.0 }
    where
      failed : (e : Failure) (w : World) → w ≡ u → Q e w
      failed e w same = subst (λ v. Q e v) (sym same) (q e)

-- A callback whose state is not that of the stored login is refused before anything happens: the
-- call throws, sends no request, and leaves all state as it was, the stored login included.
pub do_handle_callback_mismatch :
    (search : Search) (w : World) (pending : PendingAuth)
    → w.pending ≡ holds pending
    → param (text "state") search.params ≢ some pending.state
    → After (do_handle_callback search w) (λ _ _. ⊥) (λ _ w'. w' ≡ w)
do_handle_callback_mismatch search w pending stored differs =
    (callback_rule search w (λ e. refl) λ code p m. absurd (differs (m.2 ∙ ap some (cc)))).apply w
      refl

find_exchange_self :
    (code : Text) (r : Result SessionData) (rest : List (Text × Result SessionData))
    → find_exchange code ((code, r) ∷ rest) ≡ some r
unfolding find_exchange
find_exchange_self code r rest = rw (text_eq_refl code)

join_or_run-remembers :
    (o : Option (Result SessionData)) (code : Text) (search : Search) (w : World)
    → find_exchange code w.exchanges ≡ o
    → find_exchange code (join_or_run o code search w).1.exchanges
      ≡ some (join_or_run o code search w).0
join_or_run-remembers none code search w h =
    let (r, w') = do_handle_callback search w in find_exchange_self code r w'.exchanges
join_or_run-remembers (some r) code search w h = h

-- However a callback ends, a later one for the same code has the same result and does nothing: the
-- code, which the provider takes once, is not exchanged again.
pub handle_callback_again :
    (search again : Search) (w : World)
    → exchange_key again ≡ exchange_key search
    → let (r, w') = handle_callback search w in handle_callback again w' ≡ (r, w')
unfolding handle_callback
handle_callback_again search again w same =
    let (r, w') = handle_callback search w in
    let found : find_exchange (exchange_key search) w'.exchanges ≡ some r =
      join_or_run-remembers (find_exchange (exchange_key search) w.exchanges) (exchange_key search)
        search w refl in
    ap (λ o. join_or_run o (exchange_key again) again w')
      (ap (λ k. find_exchange k w'.exchanges) same ∙ found)
