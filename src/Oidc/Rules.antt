-- ===== src/Oidc/Rules.antt =====
-- Rules for reasoning about actions on the world: what holds after an action, by how it ended, and
-- relations between the worlds before and after.
use lab_keeper.Common.{Bool, Option, false, none, refl, some, true, ◌≡◌}
use lab_keeper.Oidc.Types.{Failure}
use lab_keeper.Oidc.World.{
  World, Result, Action, ok, throws, ◌>>=◌, pure, throw, gets, need, modify, throw_if,
}

-- `P` holds of the value and the world if the action returns, `Q` of the failure if it throws.
abbrev pub After :
    {A : Type 0} → Result A × World → (A → World → Type 0) → (Failure → World → Type 0) → Type 0
After (ok a, w) P Q = P a w
After (throws e, w) P Q = Q e w

-- From a world with `Pre` the action ends as `After` says.
pub record Triple {A : Type 0} (Pre : World → Type 0) (m : Action A) (P : A → World → Type 0)
    (Q : Failure → World → Type 0) : Type 0 where
  pub apply : (w : World) → Pre w → After (m w) P Q

-- Nothing is claimed.
abbrev pub Any : {A : Type 0} → A → World → Type 0
Any a w = Unit

abbrev pub Anywhere : World → Type 0
Anywhere w = Unit

weaken_result :
    {A : Type 0} {P P' : A → World → Type 0} {Q Q' : Failure → World → Type 0}
    (m : Result A × World)
    → After m P Q
    → ((a : A) (w : World) → P a w → P' a w)
    → ((e : Failure) (w : World) → Q e w → Q' e w)
    → After m P' Q'
weaken_result (ok a, w) h p q = p a w h
weaken_result (throws e, w) h p q = q e w h

bind_result :
    {A B : Type 0} {M : A → World → Type 0} {P : B → World → Type 0} {Q : Failure → World → Type 0}
    (u : World) (m : Result A × World) (f : A → Action B)
    → After m M Q
    → ((a : A) → Triple (M a) (f a) P Q)
    → After (((λ _. m) >>= f) u) P Q
unfolding ◌>>=◌
bind_result u (ok a, w) f h k = (k a).apply w h
bind_result u (throws e, w) f h k = h

both_results :
    {A : Type 0} (P P' : A → World → Type 0) (Q Q' : Failure → World → Type 0)
    (m : Result A × World)
    → After m P Q
    → After m P' Q'
    → After m (λ a w. P a w × P' a w) (λ e w. Q e w × Q' e w)
both_results P P' Q Q' (ok a, w) h k = (h, k)
both_results P P' Q Q' (throws e, w) h k = (h, k)

need_result :
    {A : Type 0} (P : A → World → Type 0) (Q : Failure → World → Type 0) (o : Option A)
    (e : Failure) (w : World)
    → ((a : A) → o ≡ some a → P a w)
    → Q e w
    → After (need o e w) P Q
unfolding need pure throw
need_result P Q none e w h q = q
need_result P Q (some a) e w h q = h a refl

throw_if_result :
    (P : Unit {0} → World → Type 0) (Q : Failure → World → Type 0) (b : Bool) (e : Failure)
    (w : World)
    → (b ≡ false → P tt w)
    → (b ≡ true → Q e w)
    → After (throw_if b e w) P Q
unfolding throw_if pure throw
throw_if_result P Q true e w p q = q refl
throw_if_result P Q false e w p q = p refl

kept_result :
    {A : Type 0} (R : World → Type 0) (m : Result A × World)
    → R m.1
    → After m (λ a w. R w) (λ e w. R w)
kept_result R (ok a, w) h = h
kept_result R (throws e, w) h = h

module _ {A : Type 0} {Pre : World → Type 0} {P P' : A → World → Type 0}
    {Q Q' : Failure → World → Type 0} where
  pub Triple-weaken :
      {m : Action A}
      → Triple Pre m P Q
      → ((a : A) (w : World) → P a w → P' a w)
      → ((e : Failure) (w : World) → Q e w → Q' e w)
      → Triple Pre m P' Q'
  Triple-weaken {m} h p q = record { apply = λ w pre. weaken_result (m w) (h.apply w pre) p q }

  pub Triple-both :
      {m : Action A}
      → Triple Pre m P Q
      → Triple Pre m P' Q'
      → Triple Pre m (λ a w. P a w × P' a w) (λ e w. Q e w × Q' e w)
  Triple-both {m} h k = record {
    apply = λ w pre. both_results P P' Q Q' (m w) (h.apply w pre) (k.apply w pre);
  }

pub Triple-bind :
    {A B : Type 0} {Pre : World → Type 0} (M : A → World → Type 0) {P : B → World → Type 0}
    {Q : Failure → World → Type 0} {m : Action A} {f : A → Action B}
    → Triple Pre m M Q
    → ((a : A) → Triple (M a) (f a) P Q)
    → Triple Pre (m >>= f) P Q
unfolding ◌>>=◌
Triple-bind M {m} {f} h k = record { apply = λ w pre. bind_result w (m w) f (h.apply w pre) k }

module _ {A : Type 0} {Pre : World → Type 0} {P : A → World → Type 0}
    {Q : Failure → World → Type 0} where
  pub Triple-pre :
      {Pre' : World → Type 0} {m : Action A}
      → ((w : World) → Pre' w → Pre w)
      → Triple Pre m P Q
      → Triple Pre' m P Q
  Triple-pre weaker h = record { apply = λ w pre. h.apply w (weaker w pre) }

  pub Triple-pure : (a : A) → ((w : World) → Pre w → P a w) → Triple Pre (pure a) P Q
  unfolding pure
  Triple-pure a h = record { apply = h }

  pub Triple-throw :
      (e : Failure) → ((w : World) → Pre w → Q e w) → Triple Pre (throw {A = A} e) P Q
  unfolding throw
  Triple-throw e h = record { apply = h }

  pub Triple-gets : (f : World → A) → ((w : World) → Pre w → P (f w) w) → Triple Pre (gets f) P Q
  unfolding gets
  Triple-gets f h = record { apply = h }

  pub Triple-need :
      (o : Option A) (e : Failure)
      → ((a : A) (w : World) → o ≡ some a → Pre w → P a w)
      → ((w : World) → Pre w → Q e w)
      → Triple Pre (need o e) P Q
  Triple-need o e h q = record {
    apply = λ w pre. need_result P Q o e w (λ a same. h a w same pre) (q w pre);
  }

module _ {Pre : World → Type 0} {P : Unit {0} → World → Type 0} {Q : Failure → World → Type 0} where
  pub Triple-modify :
      (f : World → World) → ((w : World) → Pre w → P tt (f w)) → Triple Pre (modify f) P Q
  unfolding modify
  Triple-modify f h = record { apply = h }

  pub Triple-throw_if :
      (b : Bool) (e : Failure)
      → ((w : World) → b ≡ false → Pre w → P tt w)
      → ((w : World) → b ≡ true → Pre w → Q e w)
      → Triple Pre (throw_if b e) P Q
  Triple-throw_if b e p q = record {
    apply = λ w pre. throw_if_result P Q b e w (λ h. p w h pre) (λ h. q w h pre);
  }

-- An action that leaves the world so that `R` relates it to the one before.
pub record Keeps (R : World → World → Type 0) {A : Type 0} (m : Action A) : Type 0 where
  pub apply : (w : World) → R w (m w).1

module _ (R : World → World → Type 0) (trans : (u v w : World) → R u v → R v w → R u w) where
  keeps_result :
      {A B : Type 0} (u : World) (m : Result A × World) (f : A → Action B)
      → R u m.1
      → ((a : A) → Keeps R (f a))
      → R u (((λ _. m) >>= f) u).1
  unfolding ◌>>=◌
  keeps_result u (ok a, w) f h k = trans u w (f a w).1 h ((k a).apply w)
  keeps_result u (throws e, w) f h k = h

  -- Such a relation passes from the parts of a `do` block to the whole, if it is transitive.
  pub Keeps-bind :
      {A B : Type 0} (m : Action A) (f : A → Action B)
      → Keeps R m
      → ((a : A) → Keeps R (f a))
      → Keeps R (m >>= f)
  unfolding ◌>>=◌
  Keeps-bind m f h k = record { apply = λ w. keeps_result w (m w) f (h.apply w) k }

-- What an action keeps can be assumed after it.
pub Keeps-Triple :
    {A : Type 0} {R : World → World → Type 0} {m : Action A} (Pre Post : World → Type 0)
    → Keeps R m
    → ((v w : World) → R v w → Pre v → Post w)
    → Triple Pre m (λ _. Post) (λ _. Post)
Keeps-Triple {m} Pre Post h k = record {
  apply = λ w pre. kept_result Post (m w) (k w (m w).1 (h.apply w) pre);
}
