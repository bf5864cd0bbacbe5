-- ===== src/QrServer.antt =====
-- server-pc/src/qr_server.rs: the small HTTP server on the PC: its state, its responses and its routes.
pub mod Request
pub mod Percent
pub mod SendFile
pub mod Cancel
use remote_control.Base.{ℕ, List, [], ◌∷◌, ◌++◌, Option, none, some, length}
use remote_control.Base.Decimal.{to_string}
use remote_control.Base.Text.{codes, as_bytes}
use remote_control.FileSend.{FileSendBridge, Channels}
use remote_control.Files.{Disk}
use remote_control.Pairing.{PairingStore}

-- What the requests share and change.
pub record Shared : Type 0 where
  pub pairing : PairingStore
  pub bridge : FileSendBridge
  pub channels : Channels
  pub disk : Disk

pub record Response : Type 0 where
  pub status : ℕ
  pub status_text : List ℕ
  pub content_type : List ℕ
  pub extra_header : Option (List ℕ × List ℕ)
  pub body : List ℕ

-- A connection ends with a response, without one, or with an error.
pub data Reply : Type 0 where
  answers : Response → Reply
  silent : Reply
  fails : Reply

abbrev pub crlf : List ℕ
crlf = 13 ∷ 10 ∷ []

abbrev header_lines : Option (List ℕ × List ℕ) → List ℕ
header_lines none = []
header_lines (some (k, v)) = k ++ (codes ": " ++ (v ++ crlf))

-- What `send_json` and `send_response` write.
unfoldable pub response_bytes : Response → List ℕ
response_bytes r =
    as_bytes (
      codes "HTTP/1.1 "
      ++ (to_string r.status
          ++ (codes " "
              ++ (r.status_text
                  ++ (crlf
                      ++ (codes "Content-Type: "
                          ++ (r.content_type
                              ++ (codes "; charset=utf-8"
                                  ++ (crlf
                                      ++ (codes "Content-Length: "
                                          ++ (to_string (length (as_bytes r.body))
                                              ++ (crlf
                                                  ++ (codes "Cache-Control: no-store"
                                                      ++ (crlf
                                                          ++ (codes "Connection: close"
                                                            ++ (crlf
                                                            ++ (header_lines r.extra_header
                                                            ++ crlf)))))))))))))))))
    ++ as_bytes r.body

unfoldable pub send_json : ℕ → List ℕ → List ℕ → Reply
send_json status status_text body = answers (record {
  status = status;
  status_text = status_text;
  content_type = codes "application/json";
  extra_header = none;
  body = body;
})

unfoldable pub send_response : ℕ → List ℕ → Option (List ℕ × List ℕ) → List ℕ → Reply
send_response status status_text extra_header body = answers (record {
  status = status;
  status_text = status_text;
  content_type = codes "text/html";
  extra_header = extra_header;
  body = body;
})

unfoldable pub send_html : ℕ → List ℕ → List ℕ → Reply
send_html status status_text body = send_response status status_text none body
