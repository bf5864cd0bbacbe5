-- ===== src/QrServer/SendFile/Outcome.antt =====
-- server-pc/src/qr_server.rs: what a request to send a file comes to.
use remote_control.Base.{
  ℕ, ◌≤◌, ◌≡◌, refl, ◌≢◌, inl, inr, ◌⊎◌, true, List, [], ◌∷◌, ◌++◌, Option, none, some, nat_eq,
  list_eq, if_intro, option_intro, take, length, get, insert, get-insert, get-remove,
  get-insert_self, arith, sym, ◌∙◌, ap,
}
use remote_control.Base.Text.{codes}
use remote_control.FileSend.{
  FileSendBridge, FileSendCmd, Channels, send, allocate_transfer_id, dispatch, dispatch_dry_run,
  DispatchError,
}
use remote_control.Files.{FilePath, Disk}
use remote_control.QrServer.{Shared, Response, Reply, answers, silent, fails, send_json}
use remote_control.QrServer.SendFile.{
  Headers, SendIo, Spooled, complete, closed_early, io_error, out_of_fuel, spool, temp_path,
  remove_spool, accepted_body, Length, length_ok, refused, body_length, display_name, answer,
  hand_off, Bridge, with_bridge, on_disk, after_spool, handle_send_file,
}
use remote_control.QrServer.SendFile.Spool.{spool_completes}

-- Allocating an id leaves the slot alone.
allocate_inner : (b : FileSendBridge) → (allocate_transfer_id b).0.inner ≡ b.inner
unfolding allocate_transfer_id
allocate_inner b = ground arith

dispatched :
    (b : FileSendBridge) (channels : Channels) (cmd : FileSendCmd) (i tx : ℕ)
    (queue : List FileSendCmd)
    → b.inner ≡ some (i, tx)
    → get tx channels ≡ some queue
    → dispatch b channels cmd ≡ (insert tx (queue ++ (cmd ∷ [])) channels, none)
unfolding dispatch
dispatched b channels cmd i tx queue e g = rw (e, dispatch) (rw (g) refl)

module _ (io : SendIo) (name : List ℕ) (len : ℕ) (sh : Shared) where
  abbrev new_id : ℕ
  new_id = (allocate_transfer_id sh.bridge).1

  abbrev command : FileSendCmd
  command = send new_id name len (temp_path io)

  abbrev sent : Channels × Option DispatchError
  sent = dispatch (allocate_transfer_id sh.bridge).0 sh.channels command

  handed :
      (channels : Channels)
      → sent ≡ (channels, none)
      → hand_off io name len sh ≡ (
        record sh { bridge = (allocate_transfer_id sh.bridge).0; channels = channels },
        send_json 200 (codes "OK") (accepted_body new_id),
      )
  unfolding hand_off answer
  handed channels e = ap (answer io new_id (allocate_transfer_id sh.bridge).0 sh) e

spooled_file :
    (lossy : List ℕ → List ℕ) (io : SendIo) (headers : Headers) (later : Bridge) (sh : Shared)
    (len : ℕ)
    → body_length headers ≡ length_ok len
    → dispatch_dry_run sh.bridge ≡ none
    → io.created ≡ true
    → handle_send_file lossy io headers later sh
      ≡ after_spool io (display_name lossy headers) len later (spool len io 0 len [] io.body) sh
unfolding handle_send_file
spooled_file lossy io headers later sh len a c d = ground arith

flushed_file :
    (io : SendIo) (name : List ℕ) (len : ℕ) (later : Bridge) (file : List ℕ) (sh : Shared)
    → io.flushed ≡ true
    → after_spool io name len later (complete file) sh
      ≡ hand_off io name len (on_disk io file (with_bridge later sh))
unfolding after_spool
flushed_file io name len later file sh f = ground arith

slot_held : (b : FileSendBridge) (s : ℕ × ℕ) → b.inner ≡ some s → dispatch_dry_run b ≡ none
unfolding dispatch_dry_run
slot_held b s e = rw (e, dispatch_dry_run) refl

-- A file with an announced length of at most 5 GiB whose bytes all arrive, where a phone session holds
-- the slot before and after, and the file operations succeed: the answer is 200 with the new id, the
-- session's queue gets the command with the name, the length and the spool file last, and the spool
-- file holds exactly that many bytes of the body.
pub send_file_arrives :
    (lossy : List ℕ → List ℕ) (io : SendIo) (headers : Headers) (later : Bridge) (sh : Shared)
    (len i tx : ℕ) (session : ℕ × ℕ) (queue : List FileSendCmd)
    → body_length headers ≡ length_ok len
    → len ≤ length io.body
    → sh.bridge.inner ≡ some session
    → io.created ≡ true
    → ((j : ℕ) → io.writes j ≡ none)
    → io.flushed ≡ true
    → later.0.inner ≡ some (i, tx)
    → get tx later.1 ≡ some queue
    → ((handle_send_file lossy io headers later sh).1
        ≡ send_json 200 (codes "OK") (accepted_body (allocate_transfer_id later.0).1))
      × (get tx (handle_send_file lossy io headers later sh).0.channels
          ≡ some (
              queue
              ++ (send
                    (allocate_transfer_id later.0).1
                    (display_name lossy headers)
                    len
                    (temp_path io)
                  ∷ [])))
      × (get (temp_path io) (handle_send_file lossy io headers later sh).0.disk
          ≡ some (take len io.body))
send_file_arrives lossy io headers later sh len i tx session queue a b c d e f g h =
    let file : List ℕ = take len io.body in
    let name : List ℕ = display_name lossy headers in
    let ready : Shared = on_disk io file (with_bridge later sh) in
    let cmd : FileSendCmd = command io name len ready in
    let whole : handle_send_file lossy io headers later sh ≡ (
      record ready {
        bridge = (allocate_transfer_id later.0).0;
        channels = insert tx (queue ++ (cmd ∷ [])) later.1;
      },
      send_json 200 (codes "OK") (accepted_body (allocate_transfer_id later.0).1),
    ) =
      spooled_file lossy io headers later sh len a (slot_held sh.bridge session c) d
      ∙ ap (λ x. after_spool io name len later x sh)
          (spool_completes len io 0 len [] io.body (omega arith) e b)
      ∙ flushed_file io name len later file sh f
      ∙ handed io name len ready (insert tx (queue ++ (cmd ∷ [])) later.1) (
          dispatched (allocate_transfer_id later.0).0 later.1 cmd i tx queue
            (allocate_inner later.0 ∙ g) h) in
    (
      ap (λ x. x.1) whole,
      ap (λ x. get tx x.0.channels) whole ∙ get-insert_self tx (queue ++ (cmd ∷ [])) later.1,
      ap (λ x. get (temp_path io) x.0.disk) whole ∙ get-insert_self (temp_path io) file sh.disk,
    )

-- A refused command leaves the queues as they are.
refused_dispatch :
    (b : FileSendBridge) (channels : Channels) (cmd : FileSendCmd) (reason : DispatchError)
    → (dispatch b channels cmd).1 ≡ some reason
    → (dispatch b channels cmd).0 ≡ channels
unfolding dispatch
refused_dispatch b channels cmd reason =
    let P : Channels × Option DispatchError → Type 0 = λ x. x.1 ≡ some reason → x.0 ≡ channels in
    option_intro P b.inner (λ e. refl)
      (λ s t. option_intro P (get s.1 channels) (λ e. refl) (λ queue f e. cc (e)))

abbrev status_of : Reply → ℕ
status_of (answers r) = r.status
status_of silent = 0
status_of fails = 0

removed_again :
    (io : SendIo) (file : List ℕ) (disk : Disk) (p : FilePath)
    → get (temp_path io) disk ≡ none
    → io.removed ≡ true
    → get p (remove_spool io (insert (temp_path io) file disk)) ≡ get p disk
unfolding remove_spool
removed_again io file disk p fresh gone = ground (
  arith,
  get-remove (temp_path io) p (insert (temp_path io) file disk),
  get-insert (temp_path io) p file disk,
  list_eq.test_iff (temp_path io) p,
)

module _ (io : SendIo) (later : Bridge) (sh : Shared) (fresh : get (temp_path io) sh.disk ≡ none)
    (gone : io.removed ≡ true) where
  -- Unless the answer is 200, the disk and the queues are those of before.
  abbrev Harmless : Shared × Reply → Type 0
  Harmless x =
      (r : Response)
      → x.1 ≡ answers r
      → r.status ≢ 200
      → ((p : FilePath) → get p x.0.disk ≡ get p sh.disk)
        × ((x.0.channels ≡ sh.channels) ⊎ (x.0.channels ≡ later.1))

  answer-Harmless :
      (id : ℕ) (bridge : FileSendBridge) (file : List ℕ) (d : Channels × Option DispatchError)
      → ((reason : DispatchError) → d.1 ≡ some reason → d.0 ≡ later.1)
      → Harmless (answer io id bridge (on_disk io file (with_bridge later sh)) d)
  unfolding answer send_json
  answer-Harmless id bridge file (channels, none) same r e ne = absurd (ne (ap status_of (sym e)))
  answer-Harmless id bridge file (channels, some reason) same r e ne =
      (λ p. removed_again io file sh.disk p fresh gone, inr (same reason refl))

  after-Harmless :
      (name : List ℕ) (len : ℕ) (x : Spooled) → Harmless (after_spool io name len later x sh)
  unfolding after_spool hand_off
  after-Harmless name len (complete file) =
      if_intro Harmless io.flushed
        (λ b.
          answer-Harmless _ _ file _
            (λ reason. refused_dispatch (allocate_transfer_id later.0).0 later.1 _ reason))
        (λ b r e. cc (e))
  after-Harmless name len (closed_early file) =
      λ r e ne. (λ p. removed_again io file sh.disk p fresh gone, inl refl)
  after-Harmless name len (io_error file) = λ r e. cc (e)
  after-Harmless name len out_of_fuel = λ r e. cc (e)

length_intro :
    (P : Shared × Reply → Type 0) (x : Length) {f : ℕ → Shared × Reply} {g : Reply → Shared × Reply}
    → ((n : ℕ) → P (f n))
    → ((reply : Reply) → P (g reply))
    → P (elim x [ length_ok n ↦ f n | refused reply ↦ g reply ])
length_intro P (length_ok n) a b = a n
length_intro P (refused reply) a b = b reply

-- Whatever happens, an answer other than 200 leaves every file as it was, if the name of the spool file
-- was unused and its removal succeeds where it is tried, and no command in any queue.
pub send_file_refused :
    (lossy : List ℕ → List ℕ) (io : SendIo) (headers : Headers) (later : Bridge) (sh : Shared)
    → get (temp_path io) sh.disk ≡ none
    → io.removed ≡ true
    → (r : Response) → (handle_send_file lossy io headers later sh).1 ≡ answers r
    → r.status ≢ 200
    → ((p : FilePath) → get p (handle_send_file lossy io headers later sh).0.disk ≡ get p sh.disk)
      × (((handle_send_file lossy io headers later sh).0.channels ≡ sh.channels)
          ⊎ ((handle_send_file lossy io headers later sh).0.channels ≡ later.1))
unfolding handle_send_file
send_file_refused lossy io headers later sh fresh gone =
    let P : Shared × Reply → Type 0 = Harmless io later sh fresh gone in
    length_intro P (body_length headers)
      (λ len.
        option_intro P (dispatch_dry_run sh.bridge)
          (if_intro P io.created
            (λ b.
              after-Harmless io later sh fresh gone (display_name lossy headers) len
                (spool len io 0 len [] io.body))
            (λ b r e. cc (e)))
          (λ reason f r e ne. (λ p. refl, inl refl)))
      (λ reply r e ne. (λ p. refl, inl refl))
