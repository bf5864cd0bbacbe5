-- ===== src/Tests/Codec.antt =====
-- The binary frames, the pairing code and the slot of the PC, at concrete inputs.
use remote_control.Base.{
  ℕ, ◌+◌, ◌≡◌, refl, ◌≤◌, true, false, List, [], ◌∷◌, ◌++◌, arith, replicate, some, nat_eq,
}
use remote_control.Base.Utf8.{from_utf8, is_utf8}
use remote_control.FileSend.{new_bridge}
use remote_control.FileSend.Slot.{run-holder, run, Event, enters, leaves, holder, without}
use remote_control.Pairing.{PairingStore}
use remote_control.Pairing.Once.{accepted-le_codes, Call, verifies, accepted, rotations}
use remote_control.Relay.Frame.{
  TunnelFrame as RelayFrame, data_frame as relay_data, decode as relay_decode,
  decode_type as relay_decode_type,
}

abbrev uuid : List ℕ
uuid = replicate 36 b'a'

abbrev greeting : RelayFrame
greeting = relay_data uuid true (1 ∷ 2 ∷ [])

received : relay_decode (3 ∷ (uuid ++ (7 ∷ 1 ∷ 2 ∷ []))) ≡ some greeting
unfolding relay_decode relay_decode_type from_utf8 is_utf8
received = refl

abbrev issued : PairingStore
issued = record { code = b'1' ∷ b'2' ∷ []; key = []; created = 5; consumed = false }

abbrev history : List Call
history = verifies 6 (b'1' ∷ b'2' ∷ []) ∷ verifies 7 (b'1' ∷ b'2' ∷ []) ∷ []

accepted-le_codes_example : accepted issued history ≤ 1 + rotations history
accepted-le_codes_example = accepted-le_codes issued history

-- The second session enters before the first one leaves.
abbrev sessions : List Event
sessions = enters 10 ∷ enters 11 ∷ leaves 0 ∷ []

run-holder_example : (run new_bridge sessions).inner ≡ some (1, 11)
unfolding new_bridge holder without
run-holder_example = run-holder new_bridge sessions (omega arith)
