-- ===== src/Oidc/Flights/Sharing.antt =====
-- Overlapping calls of `refreshAccessToken` in web/src/lib/oidc.ts share one exchange, and all settle.
use lab_keeper.Common.{
  List, Option, [], arith, inl, inr, none, refl, some, subst, suc, ℕ, ◌++◌, ◌+◌, ◌-◌, ◌∷◌, ◌≡◌, ◌≤◌,
  ◌⊎◌,
}
use lab_keeper.Oidc.Types.{SessionData, TokenSet}
use lab_keeper.Oidc.World.{World, Result}
use lab_keeper.Oidc.Flights.{
  Flights, grounded, join_flight, call_refresh, settle_all, land, end_flight, Event, calls, ends,
  meanwhile, step, play,
}

abbrev pub Waits : ℕ → List ℕ → Type 0
Waits caller [] = ⊥
Waits caller (c ∷ cs) = (caller ≡ c) ⊎ Waits caller cs

abbrev pub Settled : ℕ → List (ℕ × Result TokenSet) → Type 0
Settled caller [] = ⊥
Settled caller ((c, r) ∷ rest) = (caller ≡ c) ⊎ Settled caller rest

-- The caller is among those that called.
abbrev pub Called : ℕ → List Event → Type 0
Called caller [] = ⊥
Called caller (calls c ∷ es) = (caller ≡ c) ⊎ Called caller es
Called caller (e ∷ es) = Called caller es

abbrev pub count_ends : List Event → ℕ
count_ends [] = 0
count_ends (ends ∷ es) = suc (count_ends es)
count_ends (e ∷ es) = count_ends es

-- Who waits waits for an exchange that is under way.
abbrev Attended : Option SessionData → List ℕ → Type 0
Attended none waiting = waiting ≡ []
Attended (some session) waiting = Unit

abbrev Served : ℕ → Flights → Type 0
Served caller s = Waits caller s.waiting ⊎ Settled caller s.settled

abbrev flying : Option SessionData → ℕ
flying none = 0
flying (some session) = 1

Settled-later :
    (callers : List ℕ) (r : Result TokenSet) (settled : List (ℕ × Result TokenSet)) (caller : ℕ)
    → Settled caller settled
    → Settled caller (settle_all callers r settled)
Settled-later [] r settled caller h = h
Settled-later (c ∷ cs) r settled caller h = inr (Settled-later cs r settled caller h)

Settled-now :
    (callers : List ℕ) (r : Result TokenSet) (settled : List (ℕ × Result TokenSet)) (caller : ℕ)
    → Waits caller callers
    → Settled caller (settle_all callers r settled)
Settled-now [] r settled caller h = absurd h
Settled-now (c ∷ cs) r settled caller (inl e) = inl e
Settled-now (c ∷ cs) r settled caller (inr h) = inr (Settled-now cs r settled caller h)

-- The end of an exchange settles all that wait for it.
land-Settled :
    (o : Option SessionData) (s : Flights) (caller : ℕ)
    → Attended o s.waiting
    → Served caller s
    → Settled caller (land o s).settled × ((land o s).waiting ≡ [])
land-Settled none s caller nobody (inl w) = absurd (subst (Waits caller) nobody w)
land-Settled none s caller nobody (inr h) = (h, nobody)
land-Settled (some session) s caller att (inl w) =
    (Settled-now s.waiting _ s.settled caller w, refl)
land-Settled (some session) s caller att (inr h) =
    (Settled-later s.waiting _ s.settled caller h, refl)

land-Attended :
    (o : Option SessionData) (s : Flights)
    → s.in_flight ≡ o
    → Attended o s.waiting
    → Attended (land o s).in_flight (land o s).waiting
land-Attended none s e h = rw e h
land-Attended (some session) s e h = refl

join-Attended :
    (o : Option SessionData) (caller : ℕ) (s : Flights)
    → s.in_flight ≡ o
    → Attended (join_flight o caller s).in_flight (join_flight o caller s).waiting
join-Attended none caller s e = tt
join-Attended (some session) caller s e = rw e tt

step-Attended :
    (e : Event) (s : Flights)
    → Attended s.in_flight s.waiting
    → Attended (step e s).in_flight (step e s).waiting
unfolding step call_refresh end_flight
step-Attended (calls caller) s h = join-Attended s.in_flight caller s refl
step-Attended ends s h = land-Attended s.in_flight s refl h
step-Attended (meanwhile f) s h = h

join-Served :
    (o : Option SessionData) (c caller : ℕ) (s : Flights)
    → Attended o s.waiting
    → (caller ≡ c) ⊎ Served caller s
    → Served caller (join_flight o c s)
join-Served none c caller s nobody (inl e) = inl (inl e)
join-Served none c caller s nobody (inr (inl w)) = absurd (subst (Waits caller) nobody w)
join-Served none c caller s nobody (inr (inr h)) = inr h
join-Served (some session) c caller s att (inl e) = inl (inl e)
join-Served (some session) c caller s att (inr (inl w)) = inl (inr w)
join-Served (some session) c caller s att (inr (inr h)) = inr h

step-Served :
    (e : Event) (s : Flights) (caller : ℕ)
    → Attended s.in_flight s.waiting
    → Served caller s
    → Served caller (step e s)
unfolding step call_refresh end_flight
step-Served (calls c) s caller att h = join-Served s.in_flight c caller s att (inr h)
step-Served ends s caller att h = inr (land-Settled s.in_flight s caller att h).0
step-Served (meanwhile f) s caller att h = h

play-Served :
    (es : List Event) (s : Flights) (caller : ℕ)
    → Attended s.in_flight s.waiting
    → Called caller es ⊎ Served caller s
    → Served caller (play es s) × Attended (play es s).in_flight (play es s).waiting
unfolding play step call_refresh
play-Served [] s caller att (inl h) = absurd h
play-Served [] s caller att (inr h) = (h, att)
play-Served (calls c ∷ es) s caller att (inl (inl e)) =
    play-Served es (step (calls c) s) caller (step-Attended (calls c) s att)
      (inr (join-Served s.in_flight c caller s att (inl e)))
play-Served (calls c ∷ es) s caller att (inl (inr h)) =
    play-Served es (step (calls c) s) caller (step-Attended (calls c) s att) (inl h)
play-Served (ends ∷ es) s caller att (inl h) =
    play-Served es (step ends s) caller (step-Attended ends s att) (inl h)
play-Served (meanwhile f ∷ es) s caller att (inl h) =
    play-Served es (step (meanwhile f) s) caller (step-Attended (meanwhile f) s att) (inl h)
play-Served (e ∷ es) s caller att (inr h) =
    play-Served es (step e s) caller (step-Attended e s att) (inr (step-Served e s caller att h))

begun-join :
    (o : Option SessionData) (caller : ℕ) (es : List Event) (s : Flights)
    → s.in_flight ≡ o
    → ((join_flight o caller s).begun
          + (count_ends es + (1 - flying (join_flight o caller s).in_flight))
        ≤ s.begun + (count_ends es + (1 - flying s.in_flight)))
begun-join none caller es s e = rw e (omega arith)
begun-join (some session) caller es s e = rw e (omega arith)

begun-land :
    (o : Option SessionData) (es : List Event) (s : Flights)
    → s.in_flight ≡ o
    → ((land o s).begun + (count_ends es + (1 - flying (land o s).in_flight))
        ≤ s.begun + (suc (count_ends es) + (1 - flying s.in_flight)))
begun-land none es s e = rw e (omega arith)
begun-land (some session) es s e = rw e (omega arith)

-- What an event adds: an exchange begins only where none is under way.
step-begun :
    (e : Event) (es : List Event) (s : Flights)
    → ((step e s).begun + (count_ends es + (1 - flying (step e s).in_flight))
        ≤ s.begun + (count_ends (e ∷ es) + (1 - flying s.in_flight)))
unfolding step call_refresh end_flight
step-begun (calls caller) es s = begun-join s.in_flight caller es s refl
step-begun ends es s = begun-land s.in_flight es s refl
step-begun (meanwhile f) es s = omega arith

play-begun :
    (es : List Event) (s : Flights)
    → (play es s).begun ≤ s.begun + (count_ends es + (1 - flying s.in_flight))
unfolding play
play-begun [] s = omega arith
play-begun (e ∷ es) s =
    let later = play-begun es (step e s) in let now = step-begun e es s in omega arith

play-++ : (es later : List Event) (s : Flights) → play (es ++ later) s ≡ play later (play es s)
unfolding play
play-++ [] later s = refl
play-++ (e ∷ es) later s = play-++ es later (step e s)

-- Whatever calls come, exchanges end and other work changes the world in the meantime: once the
-- exchange under way ends, each call has settled and none waits; and at most one more exchange has
-- begun than there were ends, so that calls that overlap share one.
pub play-Settled :
    (es : List Event) (w : World) (caller : ℕ)
    → Called caller es
    → Settled caller (play (es ++ ends ∷ []) (grounded w)).settled
      × ((play (es ++ ends ∷ []) (grounded w)).waiting ≡ [])
      × ((play es (grounded w)).begun ≤ suc (count_ends es))
unfolding play step end_flight
play-Settled es w caller called =
    let (served, att) = play-Served es (grounded w) caller refl (inl called) in
    let here = play es (grounded w) in
    let (settled, nobody) = land-Settled here.in_flight here caller att served in
    (
      rw (play-++ es (ends ∷ []) (grounded w)) settled,
      rw (play-++ es (ends ∷ []) (grounded w)) nobody,
      let most = play-begun es (grounded w) in omega arith,
    )
