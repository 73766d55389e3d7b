-- ===== src/Midi/Reads/Leases.antt =====
-- The lease messages of the bridge (coreaudio/NS6MIDILease.h).
use numark_ns6_mac_arm.Midi.Parser.Messages.{bytes}
use numark_ns6_mac_arm.Midi.Reads.{lease_decode}
use numark_ns6_mac_arm.Prelude.{
  ℕ, ◌≡◌, refl, ap, ◌∙◌, ◌↔◌, Bool, true, false, some, List, [], ◌∷◌, arith, if◌then◌else◌,
}

-- The message for each value of `active`: "NS6L" and a flag.
abbrev pub lease_message : Bool → List ℕ
lease_message active = 0x4e ∷ 0x53 ∷ 0x36 ∷ 0x4c ∷ (if active then 1 else 0) ∷ []

five_bytes :
    (n s six l flag : ℕ) (active : Bool)
    → lease_decode (n ∷ s ∷ six ∷ l ∷ flag ∷ []) ≡ some active
    → n ∷ s ∷ six ∷ l ∷ flag ∷ [] ≡ lease_message active
unfolding lease_decode
five_bytes n s six l flag true h = ground arith
five_bytes n s six l flag false h = ground arith

only_message :
    (data_in : List ℕ) (active : Bool)
    → lease_decode data_in ≡ some active
    → data_in ≡ lease_message active
unfolding lease_decode
only_message [] active h = cc
only_message (a ∷ []) active h = cc
only_message (a ∷ b ∷ []) active h = cc
only_message (a ∷ b ∷ c ∷ []) active h = cc
only_message (a ∷ b ∷ c ∷ d ∷ []) active h = cc
only_message (a ∷ b ∷ c ∷ d ∷ e ∷ []) active h = five_bytes a b c d e active h
only_message (a ∷ b ∷ c ∷ d ∷ e ∷ f ∷ rest) active h = cc

message_decodes : (active : Bool) → lease_decode (lease_message active) ≡ some active
unfolding lease_decode
message_decodes true = refl
message_decodes false = refl

-- Decoding gives a value exactly for the two messages of the protocol, and the right one.
pub lease_decode_iff :
    (bytes : List ℕ) (active : Bool)
    → (lease_decode bytes ≡ some active) ↔ (bytes ≡ lease_message active)
lease_decode_iff bytes active =
    (only_message bytes active, (λ e. ap lease_decode e ∙ message_decodes active))
