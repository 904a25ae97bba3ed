-- ===== src/Entry/Tests.antt =====
-- The callback's page at concrete worlds.
use lab_keeper.Common.{Text, [], false, refl, some, text, true, ◌∷◌, ◌≡◌}
use lab_keeper.Oidc.Types.{Failure}
use lab_keeper.Oidc.World.{World}
use lab_keeper.Oidc.Login.{Search, handle_callback}
use lab_keeper.Oidc.Samples.{sample_login, reply}
use lab_keeper.Entry.{initial_callback, callback_effect, legacy_target}
use lab_keeper.Entry.Callback.{Ends, callback_effect_twice}

abbrev engine : Failure → Text
engine e = text "m"

abbrev search : Search
search = record {
  raw = text "?code=c&state=s";
  params = (text "code", text "c") ∷ (text "state", text "s") ∷ [];
}

abbrev replying : World
replying = sample_login (reply 200 (text "T") ∷ reply 200 (text "{}") ∷ [])

old_address : legacy_target (some (text "h1")) ≡ text "/hosts/h1"
unfolding legacy_target text
old_address = refl

callback_effect_twice_example :
    let (v, w') = callback_effect engine search true initial_callback replying in
    (callback_effect engine search false v w'
      ≡ callback_effect engine search false initial_callback replying)
    × Ends engine (handle_callback search replying).0 (callback_effect engine search false v w').0
callback_effect_twice_example = callback_effect_twice engine search replying
