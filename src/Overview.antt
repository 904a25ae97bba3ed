-- ===== src/Overview.antt =====
-- web/src/components/LabKeeperDetail.tsx, the number of sites, and the refresh key of
-- web/src/lib/inventoryTree.tsx that makes it count anew.
pub mod Screen
use lab_keeper.Common.{List, Option, Text, length, none, some, suc, true, ℕ}
use lab_keeper.Oidc.Types.{Failure, report}
use lab_keeper.Oidc.World.{Result, ok, throws}
use lab_keeper.Api.Types.{Site}
use lab_keeper.Effects.{Page}

pub record View : Type 0 where
  pub site_count : Option ℕ
  pub error : Option Text

abbrev pub initial_view : View
initial_view = record { site_count = none; error = none }

unfoldable pub bump_refresh : ℕ → ℕ
bump_refresh refresh_key = suc refresh_key

unfoldable pub sites_ended : (Failure → Text) → ℕ → Result (List Site) → View → View
sites_ended engine_message refresh_key (ok sites) v = record v {
  site_count = some (length sites);
  error = none;
}
sites_ended engine_message refresh_key (throws e) v = record v {
  error = report engine_message e v.error;
}

-- The effect makes its request at once, and has no handlers beside it.
abbrev pub page : (Failure → Text) → Page ℕ (Result (List Site)) ⊥ View
page engine_message = record {
  begins = λ refresh_key v. (v, true);
  answered = sites_ended engine_message;
  handles = λ i v. absurd i;
}
