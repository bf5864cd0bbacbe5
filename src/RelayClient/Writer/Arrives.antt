-- ===== src/RelayClient/Writer/Arrives.antt =====
-- server-pc/src/relay_client.rs and relay/src/main.rs: what the writer sends is what the relay decodes.
pub mod Traffic
use remote_control.Base.{
  ℕ, true, false, List, [], ◌∷◌, ◌++◌, some, map, length, All, if◌then◌else◌, ◌≡◌, refl, ◌⊎◌, inl,
  inr, ap, sym, ◌∙◌, append_assoc, append-nil, if_intro, list_intro, arith, Bool-cases, subst,
}
use remote_control.Base.Utf8.{is_utf8}
use remote_control.Relay.Frame.Shape.{client_of}
use remote_control.Relay.Frame.{
  TunnelFrame as RelayFrame, client_open as relay_open, client_close as relay_close,
  data_frame as relay_data, decode as relay_decode,
}
use remote_control.RelayClient.Frame.Agreement.{tunnel_crosses, to_pc}
use remote_control.RelayClient.Frame.{TunnelFrame, client_open, client_close, data_frame, encode}
use remote_control.RelayClient.Writer.{
  TunnelOut, frame_out, ping_out, TunnelWriter, new_writer, host_send, sink_send, on_frame_turn,
  on_tick, WriterEvent, host_sends, senders_gone, frame_turn, tick, writer_step, writer_run,
}
use remote_control.RelayClient.Writer.Arrives.Traffic.{
  binaries, newly, queued, Keeps, IsIdle, run-IsIdle, nothing_sent, step-Keeps,
}

map-append : (xs ys : List TunnelFrame) → map encode (xs ++ ys) ≡ map encode xs ++ map encode ys
map-append [] ys = refl
map-append (x ∷ xs) ys = ap (◌∷◌ (encode x)) (map-append xs ys)

Keeps-append :
    (u v w : TunnelWriter) (new later : List TunnelFrame)
    → Keeps u new v
    → Keeps v later w
    → (v.writing ≡ false → IsIdle v later w)
    → Keeps u (new ++ later) w
Keeps-append u v w new later (done, rest, b, q, inr go) (done', rest', b', q', on) idle = (
  done ++ done',
  rest',
  b'
      ∙ ap (λ bs. bs ++ map encode done') b
      ∙ append_assoc (binaries u.wire) (map encode done) (map encode done')
      ∙ ap (◌++◌ (binaries u.wire)) (sym (map-append done done')),
  sym (append_assoc u.host_out new later)
      ∙ ap (λ fs. fs ++ later) (q ∙ ap (◌++◌ done) go)
      ∙ append_assoc done v.host_out later
      ∙ ap (◌++◌ done) q'
      ∙ sym (append_assoc done done' rest'),
  on,
)
Keeps-append u v w new later (done, rest, b, q, inl off) (done', rest', b', q', on) idle =
    let (wire, none_later, off') = idle off in
    (
      done,
      rest,
      ap binaries wire ∙ b,
      ap (◌++◌ u.host_out) (ap (◌++◌ new) none_later ∙ append-nil new) ∙ q,
      inl off',
    )

run-Keeps : (es : List WriterEvent) (w : TunnelWriter) → Keeps w (queued es w) (writer_run es w)
unfolding writer_run
run-Keeps [] w = nothing_sent w w refl (inr refl)
run-Keeps (e ∷ es) w =
    Keeps-append w (writer_step e w) (writer_run es (writer_step e w)) (newly e w)
      (queued es (writer_step e w)) (step-Keeps e w) (run-Keeps es (writer_step e w))
      (run-IsIdle es (writer_step e w))

-- The relay's name for a frame of the PC.
abbrev pub to_relay : TunnelFrame → RelayFrame
to_relay (client_open c) = relay_open c
to_relay (client_close c) = relay_close c
to_relay (data_frame c t p) = relay_data c t p

to_pc-to_relay : (f : TunnelFrame) → to_pc (to_relay f) ≡ f
to_pc-to_relay (client_open c) = refl
to_pc-to_relay (client_close c) = refl
to_pc-to_relay (data_frame c t p) = refl

-- A frame for a client whose id is a UUID.
abbrev pub IsForUuid : TunnelFrame → Type 0
IsForUuid f = (length (client_of (to_relay f)) ≡ 36) × (is_utf8 (client_of (to_relay f)) ≡ true)

decoded :
    (fs : List TunnelFrame)
    → All IsForUuid fs
    → map relay_decode (map encode fs) ≡ map (λ f. some (to_relay f)) fs
decoded [] a = refl
decoded (f ∷ fs) a =
    let one : relay_decode (encode f) ≡ some (to_relay f) =
      ap (λ g. relay_decode (encode g)) (sym (to_pc-to_relay f))
      ∙ (tunnel_crosses (to_relay f) a.0.0 a.0.1).1 in
    rw (one) (ap (◌∷◌ (some (to_relay f))) (decoded fs a.1))

All-first : (xs ys : List TunnelFrame) → All IsForUuid (xs ++ ys) → All IsForUuid xs
All-first [] ys a = tt
All-first (x ∷ xs) ys a = (a.0, All-first xs ys a.1)

-- In every history of the tunnel's writer, with keepalive pings at any time and whatever the sink answers,
-- where the frames are for clients whose ids are UUIDs: the binary messages that were sent are decoded
-- by the relay to the frames that the sessions put into the queue, in the same order, up to some that are
-- left; these still wait in the queue unless the writer has ended.
pub tunnel_wire_decodes :
    (es : List WriterEvent)
    → All IsForUuid (queued es new_writer)
    → let w = writer_run es new_writer in
      (done : List TunnelFrame) × (rest : List TunnelFrame) × (map relay_decode (binaries w.wire)
        ≡ map (λ f. some (to_relay f)) done)
      × (queued es new_writer ≡ done ++ rest)
      × ((w.writing ≡ false) ⊎ (rest ≡ w.host_out))
tunnel_wire_decodes es a =
    let (done, rest, b, q, on) = run-Keeps es new_writer in
    (
      done,
      rest,
      ap (map relay_decode) b ∙ decoded done (All-first done rest (subst (All IsForUuid) q a)),
      q,
      on,
    )
