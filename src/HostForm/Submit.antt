-- ===== src/HostForm/Submit.antt =====
-- What `handleSubmit` of web/src/components/HostForm.tsx lets through.
use lab_keeper.Common.{
  Bool-cases, Option, Text, [], ap, arith, false, inl, inr, non_empty, none, refl, some, text, trim,
  true, ℕ, ◌||◌, ◌∙◌, ◌∷◌, ◌≡◌, ◌≢◌, ◌≤◌, ◌⊎◌,
}
use lab_keeper.Api.Inputs.{ProbeMethod, icmp, tcp}
use lab_keeper.HostForm.{FormState, Checked, check, checked_port, valid_port, parse_int, in_range}

-- Name, hostname and address are blank; one of them is not.
abbrev pub IsUnnamed : FormState → Type 0
IsUnnamed s = (trim s.name ≡ []) × (trim s.hostname ≡ []) × (trim s.address ≡ [])

abbrev pub IsNamed : FormState → Type 0
IsNamed s = (trim s.name ≢ []) ⊎ (trim s.hostname ≢ []) ⊎ (trim s.address ≢ [])

-- The port that is sent: 22 for a ping, and for a probe by TCP the number in the field.
abbrev pub SendsPort : ProbeMethod → Text → ℕ → Type 0
SendsPort icmp field port = port ≡ 22
SendsPort tcp field port = (parse_int field ≡ some port) × (1 ≤ port) × (port ≤ 65535)

-- The field holds no number from 1 to 65535.
abbrev pub HasNoPort : Text → Type 0
HasNoPort field = (port : ℕ) → parse_int field ≡ some port → 1 ≤ port → port ≤ 65535 → ⊥

-- Why the checks refuse, with the message.
abbrev pub IsRefused : FormState → Text → Type 0
IsRefused s refusal =
    (IsUnnamed s × (refusal ≡ text "Provide a name, hostname, or address"))
    ⊎ (IsNamed s
        × (s.probe_method ≡ tcp)
        × HasNoPort s.probe_port
        × (refusal ≡ text "TCP probe port must be between 1 and 65535"))

abbrev pub IsChecked : FormState → Text ⊎ Checked → Type 0
IsChecked s (inl refusal) = IsRefused s refusal
IsChecked s (inr c) =
    (c.name ≡ trim s.name)
    × (c.hostname ≡ trim s.hostname)
    × (c.address ≡ trim s.address)
    × IsNamed s
    × SendsPort s.probe_method s.probe_port c.probe_port

no_port :
    (o : Option ℕ) → in_range o ≡ false → (port : ℕ) → o ≡ some port → 1 ≤ port → port ≤ 65535 → ⊥
no_port none h port e low high = cc
no_port (some n) h port e low high =
    let same : n ≡ port = cc in
    let outside : in_range (some port) ≡ false = rw⁻¹ same h in ground (arith, outside)

valid_port-eq-none :
    (m : ProbeMethod) (port : Option ℕ)
    → valid_port m port ≡ none
    → (m ≡ tcp) × (in_range port ≡ false)
valid_port-eq-none icmp port h = cc
valid_port-eq-none tcp none h = (refl, refl)
valid_port-eq-none tcp (some n) h = (refl, ground arith)

valid_port-SendsPort :
    (m : ProbeMethod) (field : Text) (parsed : Option ℕ) (port : ℕ)
    → parse_int field ≡ parsed
    → valid_port m parsed ≡ some port
    → SendsPort m field port
valid_port-SendsPort icmp field parsed port e h = ground arith
valid_port-SendsPort tcp field none port e h = cc
valid_port-SendsPort tcp field (some n) port e h =
    let same : n ≡ port = ground arith in (e ∙ ap some same, ground arith, ground arith)

named_by :
    (a b c : Text)
    → (non_empty a || non_empty b || non_empty c) ≡ true
    → (a ≢ []) ⊎ (b ≢ []) ⊎ (c ≢ [])
named_by (x ∷ a) b c h = inl (cc)
named_by [] (x ∷ b) c h = inr (inl (cc))
named_by [] [] (x ∷ c) h = inr (inr (cc))
named_by [] [] [] h = cc

all_blank :
    (a b c : Text)
    → (non_empty a || non_empty b || non_empty c) ≡ false
    → (a ≡ []) × (b ≡ []) × (c ≡ [])
all_blank [] [] [] h = (refl, refl, refl)
all_blank (x ∷ a) b c h = cc
all_blank [] (x ∷ b) c h = cc
all_blank [] [] (x ∷ c) h = cc

checked_port-IsChecked :
    (s : FormState)
    → IsNamed s
    → (port : Option ℕ) → valid_port s.probe_method (parse_int s.probe_port) ≡ port
    → IsChecked s (checked_port s port)
checked_port-IsChecked s named none e =
    let (by_tcp, outside) = valid_port-eq-none s.probe_method (parse_int s.probe_port) e in
    inr (named, by_tcp, no_port (parse_int s.probe_port) outside, refl)
checked_port-IsChecked s named (some port) e = (
  refl,
  refl,
  refl,
  named,
  valid_port-SendsPort s.probe_method s.probe_port (parse_int s.probe_port) port refl e,
)

-- The checks refuse a form, each time with the message for it, when name, hostname and address are all blank, and else when
-- the probe is by TCP and its field holds no number from 1 to 65535. What they let through has the three
-- names trimmed, one of them not empty, and the port: 22 for a ping, and for TCP the number in the
-- field, from 1 to 65535.
pub check-IsChecked : (s : FormState) → IsChecked s (check s)
unfolding check
check-IsChecked s =
    elim (Bool-cases
      (non_empty (trim s.name) || non_empty (trim s.hostname) || non_empty (trim s.address))) [
        | inl named ↦ rw named (
            checked_port-IsChecked s
              (named_by (trim s.name) (trim s.hostname) (trim s.address) named) _ refl)
        | inr blank ↦
            rw blank (inl (all_blank (trim s.name) (trim s.hostname) (trim s.address) blank, refl))
      ]
