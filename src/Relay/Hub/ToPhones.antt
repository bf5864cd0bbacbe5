-- ===== src/Relay/Hub/ToPhones.antt =====
-- relay/src/main.rs: `host_loop` reaches only phones that asked for its host.
use remote_control.Base.{
  ℕ, ◌≡◌, refl, ◌≢◌, Bool, not, ◌&&◌, List, [], ◌∷◌, Option, none, some, nat_eq, list_eq, Map, get,
  get-insert_ne, if_intro, option_intro, subst, ◌∙◌,
}
use remote_control.Relay.Frame.{TunnelFrame, client_open, client_close, data_frame, decode}
use remote_control.Relay.Hub.{HostLoop, Phone, Hub, set_phone}
use remote_control.Relay.Hub.History.{
  Event, enters, draws, displaces, message, cancelled, delivers, leaves, clears, writes,
  client_enters, client_opens, client_closes, client_message, client_writes, step,
}
use remote_control.Relay.Hub.Host.{
  HostMsg, binary, host_end, host_other, end_reader, to_client, on_frame, on_host_msg, at_select,
  host_message, host_cancelled, deliver, host_delivers, has_sender, write_one, host_writes,
  host_clears, host_leaves, clean_up,
}
use remote_control.Relay.Hub.Invariant.{asked, Inv, with_loop_intro, with_phone_intro}
use remote_control.Relay.Pipe.{PhoneOut, must_deliver, send_bulk}
use remote_control.Relay.Hub.History.{host_task, task}

-- Phones that asked for different hosts are different.
asked_ne :
    (g h : ℕ) (phones : Map ℕ Phone) (x : List ℕ) (p : Phone)
    → asked g phones ≡ some x
    → get h phones ≡ some p
    → x ≢ p.host_id
    → g ≢ h
unfolding asked
asked_ne g h phones x p a e ne same = ne (cc (rw (same, e, asked) at a))

module _ (i : ℕ) (l : HostLoop) (h : ℕ) (p : Phone) (s : Hub) (v : Inv s)
    (there : get i s.loops ≡ some l) (here : get h s.phones ≡ some p)
    (ne : l.host_id ≢ p.host_id) where
  abbrev Kept : Hub → Type 0
  Kept t = get h t.phones ≡ some p

  other_phone : (g : ℕ) (q : Phone) → asked g s.phones ≡ some l.host_id → Kept (set_phone g q s)
  other_phone g q a =
      get-insert_ne g h q s.phones (asked_ne g h s.phones l.host_id p a here ne) ∙ here

  to_client-Kept :
      (k : HostLoop) (o : Option ℕ) (out : PhoneOut)
      → ((g : ℕ) → o ≡ some g → asked g s.phones ≡ some l.host_id)
      → Kept (to_client i k o out s)
  unfolding to_client
  to_client-Kept k none out to = here
  to_client-Kept k (some g) out to =
      if_intro Kept (must_deliver out) (λ b. here)
        (λ b. with_phone_intro Kept g s _ here (λ q e. other_phone g _ (to g refl)))

  frame-Kept :
      (k : HostLoop) → get i s.loops ≡ some k → (frame : TunnelFrame) → Kept (on_frame i k frame s)
  unfolding on_frame
  frame-Kept k e (data_frame c text payload) =
      to_client-Kept k (get c k.clients) _ (λ g f. (v.loops_ok i k e).0 c g f ∙ cc (e, there))
  frame-Kept k e (client_open c) = here
  frame-Kept k e (client_close c) = here

  msg-Kept :
      (k : HostLoop) → get i s.loops ≡ some k → (msg : HostMsg) → Kept (on_host_msg i k msg s)
  unfolding on_host_msg end_reader
  msg-Kept k e (binary bytes) =
      option_intro Kept (decode bytes) here (λ frame f. frame-Kept k e frame)
  msg-Kept k e host_end = here
  msg-Kept k e host_other = here

  deliver-Kept :
      (k : HostLoop) (o : Option (ℕ × PhoneOut))
      → get i s.loops ≡ some k
      → k.pending ≡ o
      → Kept (deliver i k o s)
  deliver-Kept k none e w = here
  deliver-Kept k (some (g, out)) e w = with_phone_intro Kept g s _ here (λ q f.
      option_intro Kept (send_bulk out q.pipe) here
        (λ pipe b. other_phone g _ ((v.loops_ok i k e).1 g out w ∙ cc (e, there))))

  write_one-Kept :
      (sent : Bool) (k : HostLoop) (frames : List TunnelFrame) → Kept (write_one i sent k frames s)
  write_one-Kept sent k (frame ∷ rest) = if_intro Kept sent (λ b. here) (λ b. here)
  write_one-Kept sent k [] = if_intro Kept (has_sender i k s) (λ b. here) (λ b. here)

  pub host_step : (e : Event) → task e ≡ host_task i → Kept (step e s)
  unfolding step task host_message host_cancelled end_reader host_delivers host_leaves clean_up
      host_clears host_writes
  host_step (message j msg) t =
      subst (λ x. Kept (step (message x msg) s)) (cc (t))
        (with_loop_intro Kept i s _ here
          (λ k e. if_intro Kept (at_select k) (λ b. msg-Kept k e msg) (λ b. here)))
  host_step (cancelled j) t =
      with_loop_intro Kept j s _ here
        (λ k e. if_intro Kept (at_select k && k.cancelled) (λ b. here) (λ b. here))
  host_step (delivers j) t =
      subst (λ x. Kept (step (delivers x) s)) (cc (t))
        (with_loop_intro Kept i s _ here (λ k e. deliver-Kept k k.pending e refl))
  host_step (leaves j) t =
      with_loop_intro Kept j s _ here
        (λ k e. if_intro Kept (not k.reading && k.entered) (λ b. here) (λ b. here))
  host_step (clears j) t =
      with_loop_intro Kept j s _ here
        (λ k e. if_intro Kept (not k.entered && not k.writing) (λ b. here) (λ b. here))
  host_step (writes j sent) t =
      subst (λ x. Kept (step (writes x sent) s)) (cc (t))
        (with_loop_intro Kept i s _ here
          (λ k e. if_intro Kept k.writing (λ b. write_one-Kept sent k k.to_host) (λ b. here)))
  host_step (draws x) t = cc (t)
  host_step (enters k) t = cc (t)
  host_step (displaces j) t = cc (t)
  host_step (client_enters x c) t = cc (t)
  host_step (client_opens g) t = cc (t)
  host_step (client_closes g) t = cc (t)
  host_step (client_message g msg) t = cc (t)
  host_step (client_writes g sent) t = cc (t)
