-- ===== src/Relay/Hub/Unmoved.antt =====
-- relay/src/main.rs: the steps that leave `online` and the readers of the PCs as they are.
use remote_control.Base.{
  ℕ, suc, ◌≡◌, refl, Bool, true, false, List, [], ◌∷◌, Option, none, some, nat_eq, list_eq, get,
  insert, if_intro, option_intro,
}
use remote_control.Base.Text.{contains}
use remote_control.Relay.Frame.{TunnelFrame, client_open, client_close, data_frame}
use remote_control.Relay.Hub.{
  HostLoop, Phone, Phase, opening, serving, closing, done, Hub, set_phone, set_pipe,
}
use remote_control.Relay.Hub.Client.{
  PhoneMsg, text_msg, binary_msg, ping_msg, phone_end, phone_other, phone_enters, open_client,
  forward, on_phone_msg, when_serving, close_client, give_up, has_room, new_phone, in_phase,
}
use remote_control.Relay.Hub.Host.{
  displace, host_displaces, without, to_client, on_frame, deliver, has_sender, write_one,
}
use remote_control.Relay.Hub.Invariant.{with_loop_intro, with_phone_intro}
use remote_control.Relay.Pipe.{PhoneOut, must_deliver, send_bulk}
use remote_control.Relay.Hub.Newest.{Same, set_loop-Same}

displace-Same : (j : ℕ) (s : Hub) → Same s (displace j s)
unfolding displace
displace-Same j s =
    with_loop_intro (Same s) j s _ (refl, refl, (λ k. refl), refl, refl, λ k. refl)
      (λ l e. set_loop-Same j l _ s s e (refl, refl, refl) (refl, refl, refl, refl, refl))

pub host_displaces-Same : (j : ℕ) (s : Hub) → Same s (host_displaces j s)
unfolding host_displaces
host_displaces-Same j s =
    if_intro (Same s) (contains j s.displaced)
      (λ b. displace-Same j (record s { displaced = without j s.displaced }))
      (λ b. (refl, refl, (λ k. refl), refl, refl, λ k. refl))

module _ (s : Hub) where
  abbrev still : Same s s
  still = (refl, refl, (λ j. refl), refl, refl, λ j. refl)

  pub to_client-Same :
      (i : ℕ) (l : HostLoop) (o : Option ℕ) (out : PhoneOut)
      → get i s.loops ≡ some l
      → Same s (to_client i l o out s)
  unfolding to_client
  to_client-Same i l none out e = still
  to_client-Same i l (some h) out e =
      if_intro (Same s) (must_deliver out)
        (λ b. set_loop-Same i l _ s s e (refl, refl, refl) (refl, refl, refl, refl, refl))
        (λ b. with_phone_intro (Same s) h s _ still (λ p f. still))

  pub frame-Same :
      (i : ℕ) (l : HostLoop) (frame : TunnelFrame)
      → get i s.loops ≡ some l
      → Same s (on_frame i l frame s)
  unfolding on_frame
  frame-Same i l (data_frame c text payload) e = to_client-Same i l (get c l.clients) _ e
  frame-Same i l (client_open c) e = still
  frame-Same i l (client_close c) e = still

  pub deliver-Same :
      (i : ℕ) (l : HostLoop) (o : Option (ℕ × PhoneOut))
      → get i s.loops ≡ some l
      → Same s (deliver i l o s)
  deliver-Same i l none e = still
  deliver-Same i l (some (h, out)) e = with_phone_intro (Same s) h s _ still (λ p f.
      option_intro (Same s) (send_bulk out p.pipe) still (λ pipe g.
        set_loop-Same i l _ s (set_pipe h p pipe s) e (refl, refl, refl)
          (refl, refl, refl, refl, refl)))

  pub write_one-Same :
      (i : ℕ) (sent : Bool) (l : HostLoop) (frames : List TunnelFrame)
      → get i s.loops ≡ some l
      → Same s (write_one i sent l frames s)
  write_one-Same i sent l (frame ∷ rest) e =
      if_intro (Same s) sent
        (λ b. set_loop-Same i l _ s s e (refl, refl, refl) (refl, refl, refl, refl, refl))
        (λ b. set_loop-Same i l _ s s e (refl, refl, refl) (refl, refl, refl, refl, refl))
  write_one-Same i sent l [] e =
      if_intro (Same s) (has_sender i l s) (λ b. still)
        (λ b. set_loop-Same i l _ s s e (refl, refl, refl) (refl, refl, refl, refl, refl))

  pub phone_enters-Same : (x c : List ℕ) → Same s (phone_enters x c s)
  unfolding phone_enters
  phone_enters-Same x c = option_intro (Same s) (get x s.online) still (λ i g.
      with_loop_intro (Same s) i s _ still (λ l e.
        set_loop-Same i l _ s
          (record s {
            phones = insert s.next_phone (new_phone x c i) s.phones;
            next_phone = suc s.next_phone;
          })
          e (refl, refl, refl) (refl, refl, refl, refl, refl)))

  pub open-Same : (h : ℕ) (p : Phone) (ph : Phase) → Same s (open_client h p ph s)
  unfolding open_client
  open-Same h p opening = with_loop_intro (Same s) p.link s _ still (λ l e.
      if_intro (Same s) l.writing
        (λ w.
          if_intro (Same s) (has_room l)
            (λ r.
              set_loop-Same p.link l _ s (set_phone h (in_phase serving p) s) e (refl, refl, refl)
                (refl, refl, refl, refl, refl))
            (λ r. still))
        (λ w.
          set_loop-Same p.link l _ s (set_phone h (give_up p) s) e (refl, refl, refl)
            (refl, refl, refl, refl, refl)))
  open-Same h p serving = still
  open-Same h p closing = still
  open-Same h p done = still

  pub close-Same : (h : ℕ) (p : Phone) (ph : Phase) → Same s (close_client h p ph s)
  unfolding close_client
  close-Same h p closing = with_loop_intro (Same s) p.link s _ still (λ l e.
      if_intro (Same s) l.writing
        (λ w.
          if_intro (Same s) (has_room l)
            (λ r.
              set_loop-Same p.link l _ s (set_phone h (in_phase done p) s) e (refl, refl, refl)
                (refl, refl, refl, refl, refl))
            (λ r. still))
        (λ w.
          set_loop-Same p.link l _ s (set_phone h (in_phase done p) s) e (refl, refl, refl)
            (refl, refl, refl, refl, refl)))
  close-Same h p opening = still
  close-Same h p serving = still
  close-Same h p done = still

  pub forward-Same :
      (h : ℕ) (p : Phone) (text : Bool) (bytes : List ℕ) → Same s (forward h p text bytes s)
  unfolding forward
  forward-Same h p text bytes = with_loop_intro (Same s) p.link s _ still (λ l e.
      if_intro (Same s) l.writing
        (λ w.
          if_intro (Same s) (has_room l)
            (λ r. set_loop-Same p.link l _ s s e (refl, refl, refl) (refl, refl, refl, refl, refl))
            (λ r. still))
        (λ w. still))

  pub phone_msg-Same : (h : ℕ) (p : Phone) (msg : PhoneMsg) → Same s (on_phone_msg h p msg s)
  unfolding on_phone_msg
  phone_msg-Same h p (text_msg bytes) = forward-Same h p true bytes
  phone_msg-Same h p (binary_msg bytes) = forward-Same h p false bytes
  phone_msg-Same h p (ping_msg payload) = still
  phone_msg-Same h p phone_end = still
  phone_msg-Same h p phone_other = still

  pub serving-Same : (ph : Phase) (t : Hub) → Same s t → Same s (when_serving ph t s)
  unfolding when_serving
  serving-Same serving t same = same
  serving-Same opening t same = still
  serving-Same closing t same = still
  serving-Same done t same = still
