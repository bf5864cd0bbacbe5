-- ===== src/Tests/Phone.antt =====
-- A phone's connection, its uploads and the files it is sent, at concrete inputs.
use remote_control.Base.{
  ℕ, ◌*◌, ◌≡◌, refl, ◌≢◌, ◌≤◌, ◌↔◌, ◌⊎◌, true, false, List, [], ◌∷◌, ◌++◌, some, none, get, list_eq,
  nat_eq, arith, list_beq,
}
use remote_control.Base.Text.{codes, starts_with, strip_prefix, to_ascii_lowercase}
use remote_control.Config.{Config}
use remote_control.Connection.Dispatch.{
  handle_client_msg, handle_stream_request, on_relay, requested_codec, start, relay_params,
}
use remote_control.Connection.Dispatch.Access.{authenticated_iff, Presents}
use remote_control.Connection.Dispatch.Limits.{relay_budget}
use remote_control.Connection.Dispatch.Streams.{handle_client_msg-StreamsOk, StreamsOk, announced}
use remote_control.Connection.Names.{
  unique_dest_path, sanitize_filename, trim, trim_end, trim_start, without_forbidden, is_forbidden,
  is_whitespace,
}
use remote_control.Connection.Sender.{spawn_file_sender}
use remote_control.Connection.Sender.Streams.{spawn_file_sender-chunk_frames, good_rounds}
use remote_control.Connection.State.{Peer, Answers}
use remote_control.Connection.Uploads.{Uploads, handle_file_begin, writes}
use remote_control.Connection.Uploads.Invariant.{Good}
use remote_control.Connection.Uploads.Receive.{chunk_frames, receive, concat}
use remote_control.Connection.Uploads.Requests.{
  begins, aborts, sends, Request, loses, any_loses, serve_all, serve_all-Good,
}
use remote_control.Connection.Uploads.Whole.{upload_arrives}
use remote_control.Crypto.{plain_crypto}
use remote_control.Files.{FilePath, exists_file, join}
use remote_control.Protocol.{build_file_chunk_frame}
use remote_control.Protocol.Messages.{
  ClientMsg, hello, file_transfer_accepted, file_transfer_complete,
}
use remote_control.Stream.{
  StreamHandle, start_stream, capture_retry, choose_encoder, encoder_config, codec_wire,
  threads_start,
}
use remote_control.Tests.Devices.{plain_json, empty_store, draws}
use remote_control.Trusted.{saves}

spawn_file_sender-chunk_frames_example :
    spawn_file_sender 5 3 true (good_rounds ((1 ∷ 2 ∷ []) ∷ (3 ∷ []) ∷ []) ++ [])
    ≡ chunk_frames 5 0 (1 ∷ 2 ∷ []) ((3 ∷ []) ∷ [])
unfolding concat
spawn_file_sender-chunk_frames_example =
    spawn_file_sender-chunk_frames 5 (1 ∷ 2 ∷ []) ((3 ∷ []) ∷ []) [] ((λ e. cc), ((λ e. cc), tt))
      (omega arith)

abbrev pub idle : Uploads
idle = record { transfers = []; disk = []; outbox = [] }

abbrev dest : FilePath
dest = join (codes "d") (codes "a")

abbrev received : Uploads
received = receive (chunk_frames 5 0 (1 ∷ []) ((2 ∷ []) ∷ [])) (
    handle_file_begin 5 (codes "a") 2 (record { downloads = some (codes "d"); created = true })
      idle)

upload_arrives_example :
    (exists_file idle.disk dest ≡ false)
    × (get dest received.disk ≡ some (1 ∷ 2 ∷ []))
    × (get 5 received.transfers ≡ none)
    × (received.outbox
        ≡ idle.outbox ++ (file_transfer_accepted 5 dest ∷ file_transfer_complete 5 dest ∷ []))
    × ((path : FilePath) → path ≢ dest → get path received.disk ≡ get path idle.disk)
    × ((j : ℕ) → j ≢ 5 → get j received.transfers ≡ get j idle.transfers)
unfolding get unique_dest_path exists_file sanitize_filename list_beq trim trim_end trim_start
    without_forbidden is_forbidden is_whitespace concat
upload_arrives_example =
    upload_arrives 5 (codes "a") 2 (codes "d") dest idle (1 ∷ []) ((2 ∷ []) ∷ []) (omega arith) refl
      (omega arith) refl

abbrev requests : List Request
requests =
    begins 1 (codes "a") 4 (record { downloads = some (codes "d"); created = true })
    ∷ sends (build_file_chunk_frame 1 0 false (7 ∷ 8 ∷ [])) writes true
    ∷ begins 2 (codes "a") 4 (record { downloads = some (codes "d"); created = true })
    ∷ aborts 1 false
    ∷ []

serve_all-Good_example :
    Good false (serve_all requests (record { transfers = []; disk = []; outbox = [] }))
unfolding any_loses loses
serve_all-Good_example = serve_all-Good requests [] []

abbrev pub config : Config
config = record { port = 9999; server_name = "pc"; os = "windows" }

abbrev pub answers : Answers
answers = record {
  now_ns = 9;
  now_ms = 1;
  session = [];
  mint_draws = draws;
  saved = saves;
  stream = record {
    captures = λ n. some (1920, 1080);
    backends = record {
      nvenc_sdk = true;
      nvenc_mft = true;
      nvenc_mft_hevc = true;
      software = true;
    };
    wasapi = false;
    video_spawned = true;
    audio_spawned = true;
    opus = true;
    base64_encode = λ bytes. bytes;
    stream_id = 1 ∷ [];
    now_ms = 1;
  };
  clipboard = none;
}

abbrev pub stranger : Peer
stranger = record {
  label = codes "relay/a";
  authenticated = false;
  active_stream = none;
  stopped = [];
  inputs = [];
  pairing = record { code = codes "12"; key = []; created = 5; consumed = false };
  trusted = empty_store;
  uploads = idle;
}

abbrev greeting : ClientMsg
greeting = hello 6 (codes "12") [] (record { name = []; os = []; app_version = [] })

authenticated_iff_example :
    ((handle_client_msg plain_crypto plain_json config greeting answers stranger).0.authenticated
      ≡ true)
    ↔ ((stranger.authenticated ≡ true) ⊎ Presents plain_crypto greeting answers stranger)
authenticated_iff_example =
    authenticated_iff plain_crypto plain_json config greeting answers stranger

handle_client_msg-StreamsOk_example :
    StreamsOk (handle_client_msg plain_crypto plain_json config greeting answers stranger).0
unfolding announced
handle_client_msg-StreamsOk_example =
    handle_client_msg-StreamsOk plain_crypto plain_json config greeting answers stranger (refl, tt)

abbrev pub relayed : StreamHandle
relayed = record {
  stream_id = 1 ∷ [];
  width = 1920;
  height = 1080;
  fps = 60;
  bitrate_kbps = 3000;
  keyframe_interval_frames = 120;
  profile = "high";
  codec_wire_name = "h264";
  started_at_unix_ms = 1;
  audio_metadata = none;
  force_keyframe_flag = false;
  stop_flag = false;
}

relay_budget_example :
    (relayed.bitrate_kbps ≤ 3000) × (2 * relayed.fps ≤ relayed.keyframe_interval_frames)
unfolding handle_stream_request on_relay starts_with strip_prefix requested_codec list_beq
    to_ascii_lowercase start start_stream capture_retry choose_encoder relay_params encoder_config
    codec_wire threads_start
relay_budget_example =
    relay_budget (codes "H264") none none none answers stranger relayed refl refl refl
