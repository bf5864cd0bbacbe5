-- ===== src/Connection/State.antt =====
-- server-pc/src/connection.rs: the state that one connection works on, its own and the shared one, and
-- what the outside answers while it handles a message.
use remote_control.Base.{ℕ, ◌++◌, Bool, List, [], ◌∷◌, Option}
use remote_control.Base.Int.{ℤ}
use remote_control.Connection.Uploads.{Uploads, say}
use remote_control.Files.{Disk}
use remote_control.Pairing.{PairingStore}
use remote_control.Protocol.Messages.{ServerMsg, MouseButton, ErrorCode, error, Reason}
use remote_control.Stream.{StreamHandle, StreamAnswers}
use remote_control.Trusted.{TrustedDevicesStore, MintDraws, SaveOutcome}

-- The calls that act on the PC's desktop: `input::…` and `clipboard::write_text`.
pub data InputCall : Type 0 where
  move_to : ℕ → ℕ → InputCall
  button : MouseButton → Bool → InputCall
  scroll : ℤ → ℤ → InputCall
  type_unicode : List ℕ → InputCall
  vkey : ℕ → Bool → InputCall
  write_text : List ℕ → InputCall

-- `stopped` holds the handles of streams that were told to stop; `inputs` the calls made so far.
pub record Peer : Type 0 where
  pub label : List ℕ
  pub authenticated : Bool
  pub active_stream : Option StreamHandle
  pub stopped : List StreamHandle
  pub inputs : List InputCall
  pub pairing : PairingStore
  pub trusted : TrustedDevicesStore
  pub uploads : Uploads
  pub open uploads use *

pub record Answers : Type 0 where
  pub now_ns : ℕ
  pub now_ms : ℕ
  pub session : List ℕ
  pub mint_draws : MintDraws
  pub saved : SaveOutcome
  pub stream : StreamAnswers
  pub clipboard : Option (List ℕ)

abbrev pub tell : Peer → ServerMsg → Peer
tell p m = record p { uploads = say p.uploads m }

abbrev pub send_error : Peer → ErrorCode → Reason → Peer
send_error p code why = tell p (error code why)

abbrev pub set_disk : Peer → Disk → Peer
set_disk p d = record p { uploads = record p.uploads { disk = d } }

abbrev pub inject : Peer → InputCall → Peer
inject p call = record p { inputs = p.inputs ++ (call ∷ []) }
