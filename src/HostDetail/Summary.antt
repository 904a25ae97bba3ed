-- ===== src/HostDetail/Summary.antt =====
-- The texts that web/src/components/HostDetail.tsx prints of a host besides its addresses and events, and
-- `formatMemory` of web/src/components/HostForm.tsx. A number of bytes below 2 ^ 53 is exact in the
-- engine, and so is its quotient by a power of 2; `toFixed` takes the nearest numeral, and of two
-- the larger.
use lab_keeper.Common.{
  Option, Text, [], arith, decimal, if◌then◌else◌, leb, ltb, none, or_else, some, take, text,
  truthy, ℕ, ◌%◌, ◌*◌, ◌++◌, ◌+◌, ◌/◌, ◌<◌, ◌^◌, ◌≤◌,
}
use lab_keeper.Api.Types.{Host}
use lab_keeper.HostDetail.{probe_label}

abbrev pub gib : ℕ
gib = 2 ^ 30

abbrev pub mib : ℕ
mib = 2 ^ 20

-- The nearest whole number to `n / d`; halves go up.
unfoldable pub nearest : ℕ → ℕ → ℕ
nearest n d = (2 * n + d) / (2 * d)

-- One digit after the point, from the number of tenths
abbrev pub one_decimal : ℕ → Text
one_decimal tenths = decimal (tenths / 10) ++ text "." ++ decimal (tenths % 10)

abbrev pub memory_text : ℕ → Text
memory_text bytes =
    if leb gib bytes
    then one_decimal (nearest (10 * bytes) gib) ++ text " GiB"
    else decimal (nearest bytes mib) ++ text " MiB"

-- `formatMemory` of the page
unfoldable pub format_memory : Option ℕ → Text
unfolding nearest
format_memory none = text "—"
format_memory (some bytes) = memory_text bytes

-- `formatMemory` of the form
unfoldable pub form_memory : Option ℕ → Text
unfolding nearest
form_memory none = []
form_memory (some bytes) = if ltb 0 bytes then memory_text bytes else []

unfoldable pub fingerprint_short : Host → Text
fingerprint_short host =
    if truthy host.agent_fingerprint
    then take 16 (or_else host.agent_fingerprint []) ++ text "_"
    else text "—"

pub data Tone : Type 0 where
  tone_ok tone_warn tone_danger : Tone

unfoldable pub agent_dot : Host → Tone
agent_dot host =
    if host.agent_online then tone_ok else if host.online then tone_warn else tone_danger

unfoldable pub reachability_pill : Host → Tone × Text
reachability_pill host =
    if host.online
    then (tone_ok, text "Host Alcançável (" ++ probe_label host ++ text ")")
    else (tone_danger, text "Host Inalcançável")

unfoldable pub agent_pill : Host → Option (Tone × Text)
agent_pill host = if host.agent_online then some (tone_ok, text "Agente Online") else none

-- A printed number of units is off by half a unit at most.
abbrev pub IsClose : ℕ → ℕ → Type 0
IsClose n unit =
    (nearest n unit * unit * 2 ≤ n * 2 + unit) × (n * 2 < nearest n unit * unit * 2 + unit)

-- The printed memory is off by half a mebibyte, or half a tenth of a gibibyte, at most. Below a gibibyte at
-- most 1024 MiB are printed, and from there on at least 1.0 GiB.
pub memory_text-IsClose :
    (bytes : ℕ)
    → IsClose bytes mib
      × IsClose (10 * bytes) gib
      × (bytes < gib → nearest bytes mib ≤ 1024)
      × (gib ≤ bytes → 10 ≤ nearest (10 * bytes) gib)
unfolding nearest
memory_text-IsClose bytes =
    ((omega arith, omega arith), (omega arith, omega arith), (λ h. omega arith), (λ h. omega arith))
