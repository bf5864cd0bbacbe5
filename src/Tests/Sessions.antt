-- ===== src/Tests/Sessions.antt =====
-- The loop of a session and its clean-up, at concrete inputs.
use remote_control.Base.{
  List, ℕ, ◌≡◌, refl, ◌≢◌, true, false, [], ◌∷◌, none, some, get, list_eq, nat_eq,
}
use remote_control.Base.Text.{codes, contains}
use remote_control.Connection.Dispatch.{handle_client_msg, guarded}
use remote_control.Connection.Session.{
  Event, FileSendState, Session, tear_down, ping_frame, message, run_loop, handle, on_message,
  claim, IoOutcome,
}
use remote_control.Connection.Session.CleanUp.{tear_down_outcome}
use remote_control.Connection.Session.Locked.{run_loop-Untouched}
use remote_control.Connection.Session.Locked.Idle.{Untouched}
use remote_control.Connection.Uploads.{FileTransferState, writes}
use remote_control.Crypto.{plain_crypto}
use remote_control.FileSend.{new_bridge}
use remote_control.Protocol.Messages.{ping}
use remote_control.Stream.{StreamHandle, stop}
use remote_control.Tests.Devices.{plain_json}
use remote_control.Tests.Phone.{stranger, relayed, config, answers}

abbrev fresh : Session
fresh = record {
  peer = stranger;
  sends = [];
  next_flag = 0;
  cancelled = [];
  pongs = [];
  channel = 7;
  bridge = new_bridge;
  registration = none;
}

abbrev io : IoOutcome
io = record {
  begin = record { downloads = none; created = false };
  removed = true;
  written = writes;
}

abbrev events : List Event
events = ping_frame [] ∷ message (ping 4) answers io ∷ []

run_loop-Untouched_example :
    Untouched [] (run_loop plain_crypto plain_json config events fresh).0.peer
    × ((run_loop plain_crypto plain_json config events fresh).0.sends ≡ [])
    × ((run_loop plain_crypto plain_json config events fresh).0.registration ≡ none)
unfolding run_loop handle on_message handle_client_msg guarded claim
run_loop-Untouched_example =
    run_loop-Untouched plain_crypto plain_json config events fresh [] (tt, (tt, tt))
      (refl, refl, refl) refl refl refl

-- A stream, an upload and a download are on.
abbrev busy : Session
busy = record {
  peer = record stranger {
    authenticated = true;
    active_stream = some relayed;
    uploads = record {
      transfers =
          (
            1,
            record {
              dest_path = codes "a";
              expected_size = 9;
              bytes_written = 0;
              next_expected_seq = 0;
            },
          )
          ∷ [];
      disk = (codes "a", []) ∷ (codes "spool", []) ∷ [];
      outbox = [];
    };
  };
  sends =
      (
        2,
        record {
          name = codes "b";
          temp_path = codes "spool";
          expected_size = 3;
          dest_path = none;
          cancel_flag = 0;
        },
      )
      ∷ [];
  next_flag = 1;
  cancelled = [];
  pongs = [];
  channel = 7;
  bridge = record { inner = some (4, 7); next_instance = 5; next_transfer_id = 3 };
  registration = some 4;
}

abbrev ended : Session
ended = tear_down (λ id. true) (λ id. true) busy

tear_down_outcome_example :
    (ended.peer.active_stream ≡ none)
    × ((h : StreamHandle)
        → busy.peer.active_stream ≡ some h
        → ended.peer.stopped ≡ stop h ∷ busy.peer.stopped)
    × ((id : ℕ) (st : FileTransferState)
        → get id busy.peer.transfers ≡ some st
        → true ≡ true
        → get st.dest_path ended.peer.disk ≡ none)
    × ((id : ℕ) (st : FileSendState)
        → get id busy.sends ≡ some st
        → contains st.cancel_flag ended.cancelled ≡ true)
    × ((id : ℕ) (st : FileSendState)
        → get id busy.sends ≡ some st
        → true ≡ true
        → get st.temp_path ended.peer.disk ≡ none)
    × ((r tx : ℕ) → busy.registration ≡ some r → ended.bridge.inner ≢ some (r, tx))
    × ((r tx : ℕ)
        → busy.bridge.inner ≡ some (r, tx)
        → busy.registration ≢ some r
        → ended.bridge ≡ busy.bridge)
tear_down_outcome_example = tear_down_outcome busy (λ id. true) (λ id. true)
