-- ===== src/QrServer/Request.antt =====
-- server-pc/src/qr_server.rs: `handle_conn`, from the request line to the answer. A line is what
-- `read_line` yields, with its end; the page itself is an argument.
use remote_control.Base.{
  ℕ, not, ◌&&◌, ◌||◌, List, [], ◌∷◌, ◌++◌, Option, none, some, ◌==◌, list_eq, if◌then◌else◌,
}
use remote_control.Base.Text.{codes, split_once, starts_with, to_ascii_lowercase}
use remote_control.Connection.Names.{is_whitespace, trim, trim_end}
use remote_control.Pairing.{Draws, rotate}
use remote_control.QrServer.{Shared, Reply, silent, fails, send_response, send_html}
use remote_control.QrServer.Cancel.{handle_cancel_send}
use remote_control.QrServer.SendFile.{Headers, SendIo, Bridge, handle_send_file}

-- `split_whitespace`, with the word that has begun.
unfoldable pub split_whitespace : List ℕ → List ℕ → List (List ℕ)
split_whitespace word [] = if word == [] then [] else word ∷ []
split_whitespace word (c ∷ s) =
    let rest = split_whitespace (if is_whitespace c then [] else word ++ (c ∷ [])) s in
    if is_whitespace c && not (word == []) then word ∷ rest else rest

unfoldable pub header_of : List ℕ → Option (List ℕ × List ℕ)
header_of buf = elim (split_once b':' buf) [
  | none ↦ none
  | some (key, value) ↦ some (to_ascii_lowercase (trim key), trim value)
]

-- The lines up to an empty one or the end; `none` where a read fails.
unfoldable pub read_headers : List (Option (List ℕ)) → Option Headers
read_headers [] = some []
read_headers (none ∷ lines) = none
read_headers (some buf ∷ lines) =
    let rest = read_headers lines in
    if buf == (13 ∷ 10 ∷ []) || buf == (10 ∷ []) then some [] else elim (header_of buf) [
      | none ↦ rest
      | some header ↦ elim rest [ none ↦ none | some headers ↦ some (header ∷ headers) ]
    ]

-- What a request meets: what `rotate` draws and the time, the page, and the rest for an upload.
pub record RequestIo : Type 0 where
  pub draws : Draws
  pub now : ℕ
  pub html : Option (List ℕ)
  pub upload : SendIo
  pub later : Bridge
  pub from_utf8_lossy : List ℕ → List ℕ

unfoldable pub show_page : RequestIo → Reply
show_page io = elim io.html [ none ↦ fails | some html ↦ send_html 200 (codes "OK") html ]

unfoldable pub refresh : RequestIo → Shared → Shared × Reply
refresh io sh = (
  record sh { pairing = rotate sh.pairing io.draws io.now },
  send_response 303 (codes "See Other") (some (codes "Location", codes "/")) (codes "refreshing…"),
)

unfoldable pub respond : RequestIo → List ℕ → List ℕ → Headers → Shared → Shared × Reply
respond io method path headers sh =
    if method == codes "GET" && (path == codes "/" || path == codes "/index.html")
    then (sh, show_page io)
    else if (method == codes "GET" || method == codes "POST") && path == codes "/refresh"
    then refresh io sh
    else if method == codes "POST" && path == codes "/send-file"
    then handle_send_file io.from_utf8_lossy io.upload headers io.later sh
    else if method == codes "POST" && starts_with (codes "/cancel-send") path
    then handle_cancel_send path sh
    else if method == codes "GET" && path == codes "/favicon.ico"
    then (sh, send_response 404 (codes "Not Found") none [])
    else (sh, send_html 404 (codes "Not Found") (codes "<h1>404</h1>"))

-- A request line of fewer than three words is dropped.
unfoldable pub by_parts : RequestIo → List (List ℕ) → Option Headers → Shared → Shared × Reply
by_parts io (method ∷ path ∷ version ∷ more) (some headers) sh = respond io method path headers sh
by_parts io (method ∷ path ∷ version ∷ more) none sh = (sh, fails)
by_parts io _ headers sh = (sh, silent)

unfoldable pub handle_conn : RequestIo → List (Option (List ℕ)) → Shared → Shared × Reply
handle_conn io [] sh = (sh, silent)
handle_conn io (none ∷ lines) sh = (sh, fails)
handle_conn io (some req_line ∷ lines) sh =
    by_parts io (split_whitespace [] (trim_end req_line)) (read_headers lines) sh
