-- ===== src/Lib.antt =====
-- Verification of the RemoteControl server: a Windows PC (server-pc/) that streams its screen to a
-- phone, takes the phone's input and exchanges files with it, over the local network or through a
-- relay server (relay/).
--
-- The parts, and the files that model them:
--
--   Protocol        server-pc/src/protocol.rs: `ClientMsg` and `ServerMsg` (Protocol/Messages) and the
--                   binary frames with their parsers.
--   Relay           relay/src/main.rs: Relay/Frame is `TunnelFrame` with `encode`, `decode` and
--                   `push_uuid`; Relay/Registry is `host_register`, `load_hosts_from_disk`,
--                   `persist_hosts_to_disk` and the test of `host_ws`; Relay/Pipe is the two queues of
--                   a phone with its writer and `send_to_phone`; Relay/Hub is the shared state, with
--                   `host_loop` in Relay/Hub/Host and `client_ws` and `client_loop` in
--                   Relay/Hub/Client, as steps of their tasks in any order.
--   RelayClient     server-pc/src/relay_client.rs: RelayClient/Frame is the copy of the tunnel frames,
--                   RelayClient/Sessions the reader and the pumps of `RelayClient::run`,
--                   RelayClient/Writer its writer, RelayClient/Url `host_ws_url` and
--                   `parse_ws_authority`; RelayClient/Reconnect is the loop in lib.rs that runs it.
--   WsServer        server-pc/src/ws_server.rs: the reader and the writer of `bridge_lan_peer`.
--   QrServer        server-pc/src/qr_server.rs: QrServer/Request is `handle_conn`, QrServer/SendFile is
--                   `handle_send_file`, QrServer/Cancel is `handle_cancel_send` and `parse_id_query`,
--                   QrServer/Percent is `percent_decode`.
--   Config, Pairing server-pc/src/config.rs and pairing.rs: the one-shot pairing code.
--   Trusted         server-pc/src/trusted_devices.rs: `open`, `mint`, `verify`, `save`.
--   FileSend        server-pc/src/file_send.rs: the slot that leads the HTTP server to the phone.
--   Net             server-pc/src/net.rs: the addresses that the page offers, and their order.
--   Stream          server-pc/src/stream.rs: `start_stream` and the handle; Stream/Video is
--                   `run_video_loop`, Stream/Audio is `run_audio_loop` with `read_into` of
--                   server-pc/src/audio/capture.rs and the codec header of audio/encoder.rs.
--   Encoder         server-pc/src/encoder/common.rs and resize.rs: `frame_to_nv12` and `resize_into`;
--                   Encoder/Nv12 is `bgra_to_nv12`; Encoder/Sdk is `capture_and_encode` of
--                   encoder/nvenc_sdk.rs, Encoder/Mft is `encode` and `drain_events` of
--                   encoder/nvenc_mft.rs, Encoder/Software the same of encoder/mf_h264.rs.
--   QrPage          server-pc/src/qr.rs: `build_payload`, `build_combined_payload`, `html_escape` and
--                   the values that `build_qr_html` shows.
--   Input           server-pc/src/input.rs: the events of each call.
--   Connection      server-pc/src/connection.rs, one phone's session: Connection/State is its state,
--                   Connection/Handshake and Connection/Dispatch are `handle_client_msg`,
--                   Connection/Uploads is `handle_file_begin`, `handle_file_abort` and
--                   `handle_file_chunk`, Connection/Names is `sanitize_filename` and
--                   `unique_dest_path`, Connection/Sender is `spawn_file_sender`, Connection/Session
--                   is the loop of `run_connection` over its events, with the clean-up.
--   Files           the file system as a map from paths to contents, with the operations that a
--                   crash can cut short.
--   Hex, Crypto     `hex_encode`, and the functions of other crates as parameters with their laws.
--   Base            numbers, lists, maps, bytes, UTF-8 and text, shared by all parts.
--   Tests           the theorems at concrete inputs.
--
-- How they interact: a phone's message is decoded by `Protocol`, and `Connection` serves it with the
-- pairing code, the trusted devices, the stream and the disk. Uploads come as file frames, downloads
-- go out as the same frames; over the relay each frame travels inside a tunnel frame: a phone's
-- message goes through `client_loop` into the PC's tunnel and there to the phone's session, and the
-- session's pump sends its answers back, which `host_loop` puts into the queues of that phone. A file
-- that the PC's user drops on the page is spooled by `QrServer` and handed to a session by `FileSend`.
--
-- How the code is read. A state behind a mutex or an atomic is a record that each operation takes
-- and returns. The clock, random draws, fresh ids and the outcome of every call of the operating
-- system (a read, a write, a rename, an encoder's constructor) are arguments, so that the theorems
-- hold for all of them. Machine integers keep their wrap-around. An Ok of
-- tokio's `write_all` on an upload may stand for bytes that are never stored (`defers`), since that file
-- writes later. Loops are structural recursions:
-- over the answers that are left (`capture_retry`, 15 attempts), over the numbers that are left
-- (`first_free`, 999 of them), or over the rounds of the sender. The spool loop of an upload runs
-- on fuel, one unit for each byte of the body, which is proved to be enough; the loop that cuts the
-- pending samples into frames has one unit for each sample, which is proved to be enough as well. The
-- video worker is a list of events: its own passes, each with the answers of the clock, the capture
-- and the encoder, and the moments at which another thread sets one of the two shared flags. Frame
-- intervals and coordinates, which the code computes in floating point, are arguments. A call that has to
-- wait for room in a bounded queue is a step that changes nothing and can be taken again. Where the
-- relay's instances have to differ, its histories are shorter than 2^64 steps, so that the counter does
-- not wrap around. The
-- code is the Windows build.
--
-- What is not modelled: the scaling of a picture (fast_image_resize), the text of the JSON messages
-- and files (serde_json), SHA-256, HMAC and base64 beyond the laws in Crypto, the contents of
-- packets and the passing of time in a session's loop, the WebSocket and HTTP libraries below their
-- messages, the relay.toml file, the drawing of the QR code and the text
-- around the values of its page, the construction and the release of encoders, Direct3D, NVENC, Media
-- Foundation, WASAPI, libopus and SendInput below their answers, the counters of log lines, the tray,
-- the build script and the Android app.
pub mod Base
pub mod Protocol
pub mod Stream
pub mod FileSend
pub mod Relay
pub mod RelayClient
pub mod Config
pub mod Crypto
pub mod Hex
pub mod Pairing
pub mod Files
pub mod Trusted
pub mod Connection
pub mod Tests
pub mod QrServer
pub mod Encoder
pub mod Net
pub mod QrPage
pub mod Input
pub mod WsServer
