-- ===== src/Oidc/Promises/Sharing.antt =====
-- Overlapping calls of `handleCallback` in web/src/lib/oidc.ts share one exchange for each code.
use lab_keeper.Common.{
  Bool-cases, List, Option, Text, [], ap, arith, inl, inr, none, refl, some, text_eq, text_eq_refl,
  true, ◌∷◌, ◌≡◌, ◌≤◌, ◌⊎◌,
}
use lab_keeper.Oidc.Types.{SessionData, PendingAuth}
use lab_keeper.Oidc.World.{World, Result, ok, throws}
use lab_keeper.Oidc.Login.{Search, exchange_code, exchange_key}
use lab_keeper.Oidc.Promises.{
  Promise, open_for, settled, Callbacks, fresh, find_promise, admit, set_promise, join_promise,
  call_callback, settle, end_exchange, Event, calls, ends, meanwhile, step, play,
}
use lab_keeper.Oidc.Promises.Once.{
  IsOnce, promise_of, count_key, occupied, found_at, IsOnce-at, step-IsOnce, play-IsOnce,
}

abbrev pub HasSettled : Text → Result SessionData → Callbacks → Type 0
HasSettled key r s = promise_of key s ≡ some (settled r)

-- A promise that has settled stays as it is.
set_promise-HasSettled :
    (k key : Text) (a : Result (Text × PendingAuth) × World) (r : Result SessionData)
    (s : Callbacks)
    → find_promise k s.promises ≡ none
    → HasSettled key r s
    → HasSettled key r (set_promise k a s)
unfolding find_promise
set_promise-HasSettled k key (throws e, w) r s new h = elim (Bool-cases (text_eq k key)) [
  | inl same ↦ let gone = found_at k key s.promises none same new in cc
  | inr other ↦ rw other h
]
set_promise-HasSettled k key (ok (code, pending), w) r s new h = elim (Bool-cases (text_eq k key)) [
  | inl same ↦ let gone = found_at k key s.promises none same new in cc
  | inr other ↦ rw other h
]

join_promise-HasSettled :
    (o : Option Promise) (k key : Text) (search : Search) (r : Result SessionData) (s : Callbacks)
    → find_promise k s.promises ≡ o
    → HasSettled key r s
    → HasSettled key r (join_promise o k search s)
join_promise-HasSettled none k key search r s new h =
    set_promise-HasSettled k key (admit search s.world) r s new h
join_promise-HasSettled (some p) k key search r s new h = h

settle-HasSettled :
    (o : Option Promise) (k key : Text) (r : Result SessionData) (s : Callbacks)
    → find_promise k s.promises ≡ o
    → HasSettled key r s
    → HasSettled key r (settle o k s)
unfolding find_promise
settle-HasSettled none k key r s here h = h
settle-HasSettled (some (settled q)) k key r s here h = h
settle-HasSettled (some (open_for code pending)) k key r s here h =
    elim (Bool-cases (text_eq k key)) [
      | inl same ↦ let still = found_at k key s.promises _ same here in cc
      | inr other ↦ rw other h
    ]

step-HasSettled :
    (e : Event) (key : Text) (r : Result SessionData) (s : Callbacks)
    → HasSettled key r s
    → HasSettled key r (step e s)
unfolding step call_callback end_exchange
step-HasSettled (calls search) key r s h =
    join_promise-HasSettled (find_promise (exchange_key search) s.promises) (exchange_key search)
      key search r s refl h
step-HasSettled (ends k) key r s h = settle-HasSettled (find_promise k s.promises) k key r s refl h
step-HasSettled (meanwhile f) key r s h = h

play-HasSettled :
    (es : List Event) (key : Text) (r : Result SessionData) (s : Callbacks)
    → HasSettled key r s
    → HasSettled key r (play es s)
unfolding play
play-HasSettled [] key r s h = h
play-HasSettled (e ∷ es) key r s h =
    play-HasSettled es key r (step e s) (step-HasSettled e key r s h)

-- There is a promise for the key.
abbrev IsKnown : Text → Callbacks → Type 0
IsKnown key s = occupied (promise_of key s) ≡ 1

set_promise-IsKnown :
    (k key : Text) (a : Result (Text × PendingAuth) × World) (s : Callbacks)
    → (text_eq k key ≡ true) ⊎ IsKnown key s
    → IsKnown key (set_promise k a s)
unfolding find_promise
set_promise-IsKnown k key (throws e, w) s (inl same) = rw same refl
set_promise-IsKnown k key (ok (code, pending), w) s (inl same) = rw same refl
set_promise-IsKnown k key (throws e, w) s (inr h) = elim (Bool-cases (text_eq k key)) [
  | inl same ↦ rw same refl
  | inr other ↦ rw other h
]
set_promise-IsKnown k key (ok (code, pending), w) s (inr h) = elim (Bool-cases (text_eq k key)) [
  | inl same ↦ rw same refl
  | inr other ↦ rw other h
]

join_promise-IsKnown :
    (o : Option Promise) (k key : Text) (search : Search) (s : Callbacks)
    → find_promise k s.promises ≡ o
    → (text_eq k key ≡ true) ⊎ IsKnown key s
    → IsKnown key (join_promise o k search s)
join_promise-IsKnown none k key search s here h =
    set_promise-IsKnown k key (admit search s.world) s h
join_promise-IsKnown (some p) k key search s here (inl same) =
    ap occupied (found_at k key s.promises (some p) same here)
join_promise-IsKnown (some p) k key search s here (inr h) = h

settle-IsKnown :
    (o : Option Promise) (k key : Text) (s : Callbacks) → IsKnown key s → IsKnown key (settle o k s)
unfolding find_promise
settle-IsKnown none k key s h = h
settle-IsKnown (some (settled q)) k key s h = h
settle-IsKnown (some (open_for code pending)) k key s h = elim (Bool-cases (text_eq k key)) [
  | inl same ↦ rw same refl
  | inr other ↦ rw other h
]

step-IsKnown : (e : Event) (key : Text) (s : Callbacks) → IsKnown key s → IsKnown key (step e s)
unfolding step call_callback end_exchange
step-IsKnown (calls search) key s h =
    join_promise-IsKnown (find_promise (exchange_key search) s.promises) (exchange_key search) key
      search s refl (inr h)
step-IsKnown (ends k) key s h = settle-IsKnown (find_promise k s.promises) k key s h
step-IsKnown (meanwhile f) key s h = h

play-IsKnown :
    (es : List Event) (key : Text) (s : Callbacks) → IsKnown key s → IsKnown key (play es s)
unfolding play
play-IsKnown [] key s h = h
play-IsKnown (e ∷ es) key s h = play-IsKnown es key (step e s) (step-IsKnown e key s h)

call-IsKnown :
    (search : Search) (s : Callbacks) → IsKnown (exchange_key search) (step (calls search) s)
unfolding step call_callback
call-IsKnown search s =
    join_promise-IsKnown (find_promise (exchange_key search) s.promises) (exchange_key search)
      (exchange_key search) search s refl (inl (text_eq_refl (exchange_key search)))

settle-HasSettled_now :
    (o : Option Promise) (key : Text) (s : Callbacks)
    → find_promise key s.promises ≡ o
    → occupied o ≡ 1
    → (r : Result SessionData) × HasSettled key r (settle o key s)
unfolding find_promise
settle-HasSettled_now none key s here h = absurd (omega (arith, h))
settle-HasSettled_now (some (settled r)) key s here h = (r, here)
settle-HasSettled_now (some (open_for code pending)) key s here h =
    ((exchange_code code pending s.world).0, rw (text_eq_refl key) refl)

-- Whatever came before, and whatever happens between a call and the end of the exchange for its key: the
-- promise of the call then has a result, which it keeps through whatever comes later, for every
-- call with that key; and never does more than one exchange begin for a key.
pub play-Shared :
    (before between later : List Event) (search : Search) (w : World)
    → let key = exchange_key search in
      let called = step (calls search) (play before (fresh w)) in
      let ended = step (ends key) (play between called) in
      (r : Result SessionData) × HasSettled key r ended
      × HasSettled key r (play later ended)
      × (count_key key (play later ended).begun ≤ 1)
unfolding step end_exchange find_promise
play-Shared before between later search w =
    let key = exchange_key search in
    let start = play before (fresh w) in
    let called = step (calls search) start in
    let here = play between called in
    let ended = step (ends key) here in
    let known = play-IsKnown between key called (call-IsKnown search start) in
    let (r, done) = settle-HasSettled_now (promise_of key here) key here refl known in
    let still = play-HasSettled later key r ended done in
    let once : IsOnce key called =
      step-IsOnce (calls search) key start (play-IsOnce before key (fresh w) (omega arith)) in
    let once_later : IsOnce key (play later ended) =
      play-IsOnce later key ended
        (step-IsOnce (ends key) key here (play-IsOnce between key called once)) in
    (r, done, still, IsOnce-at key (play later ended) (some (settled r)) still once_later)
