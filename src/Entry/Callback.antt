-- ===== src/Entry/Callback.antt =====
-- The effect of web/src/pages/CallbackPage.tsx when React runs it twice.
use lab_keeper.Common.{Text, ap, false, none, refl, some, subst, sym, text, true, ◌≡◌}
use lab_keeper.Oidc.Types.{Failure, SessionData, message}
use lab_keeper.Oidc.World.{World, Result, ok, throws}
use lab_keeper.Oidc.Login.{Search, handle_callback}
use lab_keeper.Oidc.Callback.{handle_callback_again}
use lab_keeper.Entry.{CallbackView, initial_callback, callback_effect, callback_settled}

-- What the page shows, by how the exchange ended: it goes on to the portal, or says what failed.
abbrev pub Ends : (Failure → Text) → Result SessionData → CallbackView → Type 0
Ends engine (ok session) v = (v.navigated ≡ some (text "/labkeeper")) × (v.error ≡ none)
Ends engine (throws e) v = (v.navigated ≡ none) × (v.error ≡ some (message engine e))

callback_settled-Ends :
    (engine : Failure → Text) (r : Result SessionData)
    → Ends engine r (callback_settled engine r initial_callback)
unfolding callback_settled
callback_settled-Ends engine (ok session) = (refl, refl)
callback_settled-Ends engine (throws e) = (refl, refl)

-- In development React mounts the page twice: it runs the effect, cancels it and runs it again. The
-- two runs, taken one after the other, make one exchange: view and world end as after a single run,
-- and the view is that of the exchange's result.
pub callback_effect_twice :
    (engine : Failure → Text) (search : Search) (w : World)
    → let (v, w') = callback_effect engine search true initial_callback w in
      (callback_effect engine search false v w'
        ≡ callback_effect engine search false initial_callback w)
      × Ends engine (handle_callback search w).0 (callback_effect engine search false v w').0
unfolding callback_effect
callback_effect_twice engine search w =
    let (r, w') = handle_callback search w in
    let again : handle_callback search w' ≡ (r, w') = handle_callback_again search search w refl in
    (
      ap (λ p. (callback_settled engine p.0 initial_callback, p.1)) again,
      subst
          (λ (p : Result SessionData × World).
            Ends engine r (callback_settled engine p.0 initial_callback))
          (sym again) (callback_settled-Ends engine r),
    )
