-- ===== src/Relay/Hub/Reachable.antt =====
-- relay/src/main.rs: every step of the relay keeps the invariant.
pub mod Links
pub mod Hosts
pub mod Phones
use remote_control.Base.{
  ℕ, suc, ◌+◌, ◌≤◌, ◌<◌, ◌^◌, ◌≡◌, refl, inl, inr, Bool, true, false, not, List, [], ◌∷◌, length,
  Option, none, some, ◌&&◌, nat_eq, list_eq, Map, get, insert, remove, get-insert, if_intro,
  option_intro, arith, subst,
}
use remote_control.Relay.Frame.{TunnelFrame, client_open, client_close, data_frame, decode}
use remote_control.Relay.Hub.{
  HostLoop, new_loop, Phone, Phase, opening, serving, closing, done, Hub, new_hub, set_loop,
  set_phone, set_pipe, with_loop, with_phone,
}
use remote_control.Relay.Hub.Client.{
  PhoneMsg, text_msg, binary_msg, ping_msg, phone_end, phone_other, phone_enters, open_client,
  phone_opens, forward, on_phone_msg, when_serving, phone_message, close_client, phone_closes,
  phone_writes, is_writing, give_up, push, detach, has_room, new_phone, in_phase, stop_reading,
}
use remote_control.Relay.Hub.History.{
  Event, enters, draws, displaces, message, cancelled, delivers, leaves, clears, writes,
  client_enters, client_opens, client_closes, client_message, client_writes, step, run,
}
use remote_control.Relay.Hub.Host.{
  displace, enter, host_enters, HostMsg, binary, host_end, host_other, end_reader, to_client,
  on_frame, on_host_msg, at_select, host_message, host_cancelled, deliver, host_delivers,
  has_sender, write_one, host_writes, host_clears, host_leaves,
}
use remote_control.Relay.Hub.Invariant.{
  asked, served, LoopOk, Inv, new_hub-Inv, insert_found, remove_found, with_loop_intro,
  with_phone_intro, set_loop-Inv, set_phone-Inv, served_keeps, served_self, asked_keeps, asked_self,
}
use remote_control.Relay.Pipe.{Pipe, PhoneOut, must_deliver, send_bulk, write_round}
use remote_control.Relay.Hub.Reachable.Links.{set_pipe-Inv, end_reader-Inv, clean_up-Inv}
use remote_control.Relay.Hub.Reachable.Hosts.{
  host_draws-Inv, host_displaces-Inv, host_enters-Inv, host_msg-Inv, delivers-Inv, write_one-Inv,
}
use remote_control.Relay.Hub.Reachable.Phones.{
  phone_enters-Inv, open_client-Inv, close_client-Inv, phone_msg-Inv,
}

when_serving-Inv : (ph : Phase) (t s : Hub) → Inv t → Inv s → Inv (when_serving ph t s)
unfolding when_serving
when_serving-Inv serving t s v w = v
when_serving-Inv opening t s v w = w
when_serving-Inv closing t s v w = w
when_serving-Inv done t s v w = w

pub step-Inv : (e : Event) (s : Hub) → Inv s → Inv (step e s)
unfolding get step host_message host_cancelled host_delivers host_leaves host_clears host_writes
    phone_opens phone_closes phone_message phone_writes
step-Inv (draws x) s v = host_draws-Inv x s v
step-Inv (enters x) s v = host_enters-Inv x s v
step-Inv (displaces j) s v = host_displaces-Inv j s v
step-Inv (message i msg) s v =
    with_loop_intro Inv i s _ v
      (λ l e. if_intro Inv (at_select l) (λ b. host_msg-Inv i l msg s e v) (λ b. v))
step-Inv (cancelled i) s v = with_loop_intro Inv i s _ v (λ l e.
    if_intro Inv (at_select l && l.cancelled)
      (λ b. end_reader-Inv i l (record l { cancelled = false }) s e (refl, refl, refl) v) (λ b. v))
step-Inv (delivers i) s v = with_loop_intro Inv i s _ v (λ l e. delivers-Inv i l l.pending s e v)
step-Inv (leaves i) s v = with_loop_intro Inv i s _ v (λ l e.
    if_intro Inv (not l.reading && l.entered)
      (λ b. clean_up-Inv i l l s e refl (v.loops_ok i l e) v) (λ b. v))
step-Inv (clears i) s v = with_loop_intro Inv i s _ v (λ l e.
    if_intro Inv (not l.entered && not l.writing)
      (λ b.
        set_loop-Inv i l (record l { clients = [] }) s e refl
          (λ c h g. cc (g), (v.loops_ok i l e).1) v)
      (λ b. v))
step-Inv (writes i sent) s v =
    with_loop_intro Inv i s _ v
      (λ l e. if_intro Inv l.writing (λ b. write_one-Inv i sent l l.to_host s e v) (λ b. v))
step-Inv (client_enters x c) s v = phone_enters-Inv x c s v
step-Inv (client_opens h) s v =
    with_phone_intro Inv h s _ v (λ p e. open_client-Inv h p p.phase s e v)
step-Inv (client_closes h) s v =
    with_phone_intro Inv h s _ v (λ p e. close_client-Inv h p p.phase s e v)
step-Inv (client_message h msg) s v =
    with_phone_intro Inv h s _ v
      (λ p e. when_serving-Inv p.phase _ s (phone_msg-Inv h p msg s e v) v)
step-Inv (client_writes h sent) s v = with_phone_intro Inv h s _ v (λ p e.
    if_intro Inv (is_writing p)
      (λ b. option_intro Inv (write_round sent p.pipe) v (λ pipe g. set_pipe-Inv h p pipe s e v))
      (λ b. v))

run-Inv : (es : List Event) (s : Hub) → Inv s → Inv (run es s)
unfolding run
run-Inv [] s v = v
run-Inv (e ∷ es) s v = run-Inv es (step e s) (step-Inv e s v)

-- After any history of the relay's tasks.
pub reachable-Inv : (es : List Event) → Inv (run es new_hub)
reachable-Inv es = run-Inv es new_hub new_hub-Inv
