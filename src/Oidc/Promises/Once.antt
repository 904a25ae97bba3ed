-- ===== src/Oidc/Promises/Once.antt =====
-- In the map `pendingExchanges` of web/src/lib/oidc.ts at most one exchange begins for a key.
use lab_keeper.Common.{
  Bool-cases, List, Option, Text, [], arith, if◌then◌else◌, inl, inr, none, refl, some, subst,
  text_eq, text_eq_sound, true, ℕ, ◌+◌, ◌∷◌, ◌≡◌, ◌≤◌,
}
use lab_keeper.Oidc.Types.{PendingAuth}
use lab_keeper.Oidc.World.{World, Result, ok, throws}
use lab_keeper.Oidc.Login.{Search, exchange_key}
use lab_keeper.Oidc.Promises.{
  Promise, open_for, settled, Callbacks, find_promise, admit, set_promise, join_promise,
  call_callback, settle, end_exchange, Event, calls, ends, meanwhile, step, play,
}

abbrev pub promise_of : Text → Callbacks → Option Promise
promise_of key s = find_promise key s.promises

abbrev pub count_key : Text → List Text → ℕ
count_key key [] = 0
count_key key (k ∷ ks) = (if text_eq k key then 1 else 0) + count_key key ks

abbrev pub occupied : Option Promise → ℕ
occupied none = 0
occupied (some p) = 1

-- A key for which an exchange has begun has a promise, and one exchange only.
abbrev pub IsOnce : Text → Callbacks → Type 0
IsOnce key s = count_key key s.begun ≤ occupied (promise_of key s)

pub found_at :
    (k key : Text) (l : List (Text × Promise)) (o : Option Promise)
    → text_eq k key ≡ true
    → find_promise k l ≡ o
    → find_promise key l ≡ o
found_at k key l o same h = subst (λ t. find_promise t l ≡ o) (text_eq_sound k key same) h

pub IsOnce-at :
    (key : Text) (s : Callbacks) (o : Option Promise)
    → promise_of key s ≡ o
    → IsOnce key s
    → count_key key s.begun ≤ occupied o
IsOnce-at key s o here h = subst (λ p. count_key key s.begun ≤ occupied p) here h

set_promise-IsOnce :
    (k key : Text) (a : Result (Text × PendingAuth) × World) (s : Callbacks)
    → find_promise k s.promises ≡ none
    → IsOnce key s
    → IsOnce key (set_promise k a s)
unfolding find_promise
set_promise-IsOnce k key (throws e, w) s new h = elim (Bool-cases (text_eq k key)) [
  | inl same ↦
      let before = IsOnce-at key s none (found_at k key s.promises none same new) h in
      rw same (omega arith)
  | inr other ↦ rw other h
]
set_promise-IsOnce k key (ok (code, pending), w) s new h = elim (Bool-cases (text_eq k key)) [
  | inl same ↦
      let before = IsOnce-at key s none (found_at k key s.promises none same new) h in
      rw same (omega arith)
  | inr other ↦ rw other (omega arith)
]

join_promise-IsOnce :
    (o : Option Promise) (k key : Text) (search : Search) (s : Callbacks)
    → find_promise k s.promises ≡ o
    → IsOnce key s
    → IsOnce key (join_promise o k search s)
join_promise-IsOnce none k key search s new h =
    set_promise-IsOnce k key (admit search s.world) s new h
join_promise-IsOnce (some p) k key search s new h = h

settle-IsOnce :
    (o : Option Promise) (k key : Text) (s : Callbacks)
    → find_promise k s.promises ≡ o
    → IsOnce key s
    → IsOnce key (settle o k s)
unfolding find_promise
settle-IsOnce none k key s here h = h
settle-IsOnce (some (settled r)) k key s here h = h
settle-IsOnce (some (open_for code pending)) k key s here h = elim (Bool-cases (text_eq k key)) [
  | inl same ↦
      let before = IsOnce-at key s _ (found_at k key s.promises _ same here) h in rw same before
  | inr other ↦ rw other h
]

pub step-IsOnce : (e : Event) (key : Text) (s : Callbacks) → IsOnce key s → IsOnce key (step e s)
unfolding step call_callback end_exchange
step-IsOnce (calls search) key s h =
    join_promise-IsOnce (find_promise (exchange_key search) s.promises) (exchange_key search) key
      search s refl h
step-IsOnce (ends k) key s h = settle-IsOnce (find_promise k s.promises) k key s refl h
step-IsOnce (meanwhile f) key s h = h

pub play-IsOnce :
    (es : List Event) (key : Text) (s : Callbacks) → IsOnce key s → IsOnce key (play es s)
unfolding play
play-IsOnce [] key s h = h
play-IsOnce (e ∷ es) key s h = play-IsOnce es key (step e s) (step-IsOnce e key s h)
