-- ===== src/Relay/Hub/ToHosts.antt =====
-- relay/src/main.rs: `client_loop` reaches only the tunnel of the host that it asked for.
use remote_control.Base.{
  ℕ, ◌≡◌, refl, ◌≢◌, Bool, true, false, List, some, nat_eq, list_eq, get, get-insert_ne, if_intro,
  option_intro, subst, ◌∙◌,
}
use remote_control.Relay.Hub.{
  HostLoop, Phone, Phase, opening, serving, closing, done, Hub, set_loop,
}
use remote_control.Relay.Hub.Client.{
  PhoneMsg, text_msg, binary_msg, ping_msg, phone_end, phone_other, open_client, phone_opens,
  forward, on_phone_msg, when_serving, phone_message, close_client, phone_closes, phone_writes,
  is_writing, has_room,
}
use remote_control.Relay.Hub.History.{
  Event, enters, draws, displaces, message, cancelled, delivers, leaves, clears, writes,
  client_enters, client_opens, client_closes, client_message, client_writes, step,
}
use remote_control.Relay.Hub.Invariant.{served, Inv, with_loop_intro, with_phone_intro}
use remote_control.Relay.Pipe.{write_round}
use remote_control.Relay.Hub.History.{client_task, task}

module _ (i : ℕ) (l : HostLoop) (h : ℕ) (p : Phone) (s : Hub) (v : Inv s)
    (there : get i s.loops ≡ some l) (here : get h s.phones ≡ some p)
    (ne : l.host_id ≢ p.host_id) where
  abbrev Idle : Hub → Type 0
  Idle t = get i t.loops ≡ some l

  link_ne : p.link ≢ i
  unfolding served
  link_ne same =
      let a : served i s.loops ≡ some l.host_id = rw (there, served) refl in
      ne (cc (v.linked h p here, a, same))

  other_loop : (q : Phone) (k : HostLoop) → get h s.phones ≡ some q → Idle (set_loop q.link k s)
  other_loop q k e = get-insert_ne q.link i k s.loops (λ same. link_ne (cc (same, e, here))) ∙ there

  open-Idle : (q : Phone) (ph : Phase) → get h s.phones ≡ some q → Idle (open_client h q ph s)
  unfolding open_client
  open-Idle q opening e = with_loop_intro Idle q.link s _ there (λ k f.
      if_intro Idle k.writing (λ w. if_intro Idle (has_room k) (λ r. other_loop q _ e) (λ r. there))
        (λ w. other_loop q _ e))
  open-Idle q serving e = there
  open-Idle q closing e = there
  open-Idle q done e = there

  close-Idle : (q : Phone) (ph : Phase) → get h s.phones ≡ some q → Idle (close_client h q ph s)
  unfolding close_client
  close-Idle q closing e = with_loop_intro Idle q.link s _ there (λ k f.
      if_intro Idle k.writing (λ w. if_intro Idle (has_room k) (λ r. other_loop q _ e) (λ r. there))
        (λ w. other_loop q _ e))
  close-Idle q opening e = there
  close-Idle q serving e = there
  close-Idle q done e = there

  forward-Idle :
      (q : Phone) (text : Bool) (bytes : List ℕ)
      → get h s.phones ≡ some q
      → Idle (forward h q text bytes s)
  unfolding forward
  forward-Idle q text bytes e = with_loop_intro Idle q.link s _ there (λ k f.
      if_intro Idle k.writing (λ w. if_intro Idle (has_room k) (λ r. other_loop q _ e) (λ r. there))
        (λ w. there))

  phone_msg-Idle :
      (q : Phone) (msg : PhoneMsg) → get h s.phones ≡ some q → Idle (on_phone_msg h q msg s)
  unfolding on_phone_msg
  phone_msg-Idle q (text_msg bytes) e = forward-Idle q true bytes e
  phone_msg-Idle q (binary_msg bytes) e = forward-Idle q false bytes e
  phone_msg-Idle q (ping_msg payload) e = there
  phone_msg-Idle q phone_end e = there
  phone_msg-Idle q phone_other e = there

  serving-Idle : (ph : Phase) (t : Hub) → Idle t → Idle (when_serving ph t s)
  unfolding when_serving
  serving-Idle serving t idle = idle
  serving-Idle opening t idle = there
  serving-Idle closing t idle = there
  serving-Idle done t idle = there

  pub client_step : (e : Event) → task e ≡ client_task h → Idle (step e s)
  unfolding step task phone_opens phone_closes phone_message phone_writes
  client_step (client_opens g) t =
      subst (λ x. Idle (step (client_opens x) s)) (cc (t))
        (with_phone_intro Idle h s _ there (λ q e. open-Idle q q.phase e))
  client_step (client_closes g) t =
      subst (λ x. Idle (step (client_closes x) s)) (cc (t))
        (with_phone_intro Idle h s _ there (λ q e. close-Idle q q.phase e))
  client_step (client_message g msg) t =
      subst (λ x. Idle (step (client_message x msg) s)) (cc (t))
        (with_phone_intro Idle h s _ there (λ q e. serving-Idle q.phase _ (phone_msg-Idle q msg e)))
  client_step (client_writes g sent) t = with_phone_intro Idle g s _ there (λ q e.
      if_intro Idle (is_writing q)
        (λ w. option_intro Idle (write_round sent q.pipe) there (λ pipe b. there)) (λ w. there))
  client_step (draws x) t = cc (t)
  client_step (enters k) t = cc (t)
  client_step (displaces j) t = cc (t)
  client_step (client_enters x c) t = cc (t)
  client_step (message j msg) t = cc (t)
  client_step (cancelled j) t = cc (t)
  client_step (delivers j) t = cc (t)
  client_step (leaves j) t = cc (t)
  client_step (clears j) t = cc (t)
  client_step (writes j sent) t = cc (t)
