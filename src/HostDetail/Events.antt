-- ===== src/HostDetail/Events.antt =====
-- The events that web/src/components/HostDetail.tsx derives from a host.
use lab_keeper.Common.{
  Bool, List, Text, [], arith, false, length, not, true, truthy, ℕ, ◌&&◌, ◌+◌, ◌||◌, ◌∷◌, ◌≡◌,
}
use lab_keeper.Api.Types.{Host}
use lab_keeper.HostDetail.{Tone, warn_tone, DerivedEvent, derive_events}

abbrev pub is_warning : Tone → Bool
is_warning warn_tone = true
is_warning _ = false

abbrev pub has_warning : List DerivedEvent → Bool
has_warning [] = false
has_warning (e ∷ es) = is_warning e.tone || has_warning es

abbrev pub count_if : Bool → ℕ
count_if true = 1
count_if false = 0

-- There is one event for a probe that was made, one for an agent that was seen, and that of the
-- registration; the limit of five cuts none of them. A warning is among them exactly when the last
-- probe did not reach the host or the agent that was seen is gone.
pub derive_events-warning :
    (locale_date : Text → Text) (host : Host)
    → (length (derive_events locale_date host)
        ≡ count_if (truthy host.last_probe_at)
          + count_if (truthy host.agent_fingerprint && truthy host.last_seen)
          + 1)
      × (has_warning (derive_events locale_date host) ≡ (
          (truthy host.last_probe_at && not host.online)
          || (truthy host.agent_fingerprint && truthy host.last_seen && not host.agent_online)))
unfolding derive_events
derive_events-warning locale_date host = (ground arith, ground arith)
