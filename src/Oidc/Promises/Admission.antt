-- ===== src/Oidc/Promises/Admission.antt =====
-- `doHandleCallback` of web/src/lib/oidc.ts in its two halves, before and after the first `await`.
use lab_keeper.Common.{refl, ◌≡◌}
use lab_keeper.Oidc.World.{World, Result, Action, ok, throws, ◌>>=◌, pure}
use lab_keeper.Oidc.Login.{Search, do_handle_callback, exchange_code}
use lab_keeper.Oidc.Promises.{admit}

-- Two actions that do the same from every world.
record IsSame {A : Type 0} (m n : Action A) : Type 0 where
  apply : (w : World) → m w ≡ n w

module _ {A B C : Type 0} where
  assoc_result :
      (p : Result A × World) (f : A → Action B) (g : B → Action C) (h : A → Action C) (w : World)
      → ((a : A) → IsSame (f a >>= g) (h a))
      → (((λ _. p) >>= f) >>= g) w ≡ ((λ _. p) >>= h) w
  unfolding ◌>>=◌
  assoc_result (ok a, v) f g h w same = (same a).apply v
  assoc_result (throws e, v) f g h w same = refl

  -- What follows a `do` block follows its last action.
  bind_assoc :
      (m : Action A) (f : A → Action B) (g : B → Action C) {h : A → Action C}
      → ((a : A) → IsSame (f a >>= g) (h a))
      → IsSame ((m >>= f) >>= g) (m >>= h)
  unfolding ◌>>=◌
  bind_assoc m f g {h} same = record { apply = λ w. assoc_result (m w) f g h w same }

pure_bind : {A B : Type 0} (a : A) (g : A → Action B) → IsSame (pure a >>= g) (g a)
unfolding ◌>>=◌ pure
pure_bind a g = record { apply = λ w. refl }

admit-IsSame :
    (answer : Search)
    → IsSame (admit answer >>= λ found. exchange_code found.0 found.1) (do_handle_callback answer)
unfolding admit do_handle_callback
admit-IsSame answer = bind_assoc _ _ _ λ _. bind_assoc _ _ _ λ code. bind_assoc _ _ _ λ state.
    bind_assoc _ _ _
      λ stored. bind_assoc _ _ _ λ pending. bind_assoc _ _ _ λ _. pure_bind (code, pending) _

-- A callback is its check and then the exchange.
pub admit-exchange_code :
    (answer : Search) (w : World)
    → (admit answer >>= λ found. exchange_code found.0 found.1) w ≡ do_handle_callback answer w
admit-exchange_code answer w = (admit-IsSame answer).apply w
