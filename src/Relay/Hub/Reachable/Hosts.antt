-- ===== src/Relay/Hub/Reachable/Hosts.antt =====
-- relay/src/main.rs: the steps of a host's tasks keep the invariant.
use remote_control.Base.{
  ℕ, ◌≡◌, refl, inl, inr, Bool, true, List, [], ◌∷◌, Option, none, some, nat_eq, list_eq, get,
  get-insert, if_intro, option_intro, arith, subst,
}
use remote_control.Base.Text.{contains}
use remote_control.Relay.Frame.{TunnelFrame, client_open, client_close, data_frame, decode}
use remote_control.Relay.Hub.{HostLoop, new_loop, Hub, set_pipe}
use remote_control.Relay.Hub.Host.{
  displace, enter, host_draws, host_enters, host_displaces, HostMsg, binary, host_end, host_other,
  to_client, on_frame, on_host_msg, deliver, has_sender, write_one,
}
use remote_control.Relay.Hub.Invariant.{
  asked, LoopOk, Inv, insert_found, with_loop_intro, with_phone_intro, set_loop-Inv, served_keeps,
  served_self,
}
use remote_control.Relay.Pipe.{PhoneOut, must_deliver, send_bulk}
use remote_control.Relay.Hub.Reachable.Links.{set_pipe-Inv, end_reader-Inv, same_routes-Inv}

displace-Inv : (j : ℕ) (s : Hub) → Inv s → Inv (displace j s)
unfolding displace get
displace-Inv j s v = with_loop_intro Inv j s _ v (λ l e.
    set_loop-Inv j l (record l { cancelled = true; clients = [] }) s e refl
      (λ c h f. cc (f), (v.loops_ok j l e).1) v)

told-Inv : (js : List ℕ) (s : Hub) → Inv s → Inv (record s { displaced = js })
told-Inv js s v = record {
  loops_ok = v.loops_ok;
  online_ok = v.online_ok;
  linked = v.linked;
  fresh_loops = v.fresh_loops;
  fresh_phones = v.fresh_phones;
}

pub host_displaces-Inv : (j : ℕ) (s : Hub) → Inv s → Inv (host_displaces j s)
unfolding host_displaces
host_displaces-Inv j s v =
    if_intro Inv (contains j s.displaced) (λ b. displace-Inv j _ (told-Inv _ s v)) (λ b. v)

-- A loop under a fresh number.
entered-Inv : (k : ℕ) (x : List ℕ) (s : Hub) → Inv s → Inv (enter k x s)
unfolding get
entered-Inv k x s v = record {
  loops_ok = λ j l f. elim (insert_found s.next_loop j (new_loop k x) l s.loops f) [
    | inl (_, same) ↦ subst (LoopOk s.phones) same (λ c h g. cc (g), λ h out g. cc (g))
    | inr g ↦ v.loops_ok j l g
  ];
  online_ok = λ y j f. elim (insert_found x y s.next_loop j s.online f) [
    | inl (same_host, same_loop) ↦
        rw (← same_host, ← same_loop) (served_self s.next_loop (new_loop k x) s.loops)
    | inr g ↦
        served_keeps s.next_loop (new_loop k x) s.loops j y
          (v.fresh_loops s.next_loop (omega arith)) (v.online_ok y j g)
  ];
  linked = λ h p f.
      served_keeps s.next_loop (new_loop k x) s.loops p.link p.host_id
        (v.fresh_loops s.next_loop (omega arith)) (v.linked h p f);
  fresh_loops =
      λ j f. ground (arith, get-insert s.next_loop j (new_loop k x) s.loops, v.fresh_loops j);
  fresh_phones = v.fresh_phones;
}

pub host_draws-Inv : (x : List ℕ) (s : Hub) → Inv s → Inv (host_draws x s)
unfolding host_draws
host_draws-Inv x s v = record {
  loops_ok = v.loops_ok;
  online_ok = v.online_ok;
  linked = v.linked;
  fresh_loops = v.fresh_loops;
  fresh_phones = v.fresh_phones;
}

pub host_enters-Inv : (k : ℕ) (s : Hub) → Inv s → Inv (host_enters k s)
unfolding host_enters
host_enters-Inv k s v = option_intro Inv (get k s.drawn) v (λ x e. entered-Inv k x s v)

to_client-Inv :
    (i : ℕ) (l : HostLoop) (o : Option ℕ) (out : PhoneOut) (s : Hub)
    → get i s.loops ≡ some l
    → ((h : ℕ) → o ≡ some h → asked h s.phones ≡ some l.host_id)
    → Inv s
    → Inv (to_client i l o out s)
unfolding to_client
to_client-Inv i l none out s e to v = v
to_client-Inv i l (some h) out s e to v =
    if_intro Inv (must_deliver out)
      (λ m.
        set_loop-Inv i l (record l { pending = some (h, out) }) s e refl
          ((v.loops_ok i l e).0, λ g o f. to g (cc (f))) v)
      (λ m. with_phone_intro Inv h s _ v (λ p f. set_pipe-Inv h p _ s f v))

pub host_msg-Inv :
    (i : ℕ) (l : HostLoop) (msg : HostMsg) (s : Hub)
    → get i s.loops ≡ some l
    → Inv s
    → Inv (on_host_msg i l msg s)
unfolding on_host_msg on_frame
host_msg-Inv i l (binary bytes) s e v = by_frame (decode bytes)
  where
    by_frame :
        (o : Option TunnelFrame) → Inv (elim o [ none ↦ s | some frame ↦ on_frame i l frame s ])
    by_frame none = v
    by_frame (some (data_frame c text payload)) =
        to_client-Inv i l (get c l.clients) _ s e ((v.loops_ok i l e).0 c) v
    by_frame (some (client_open c)) = v
    by_frame (some (client_close c)) = v
host_msg-Inv i l host_end s e v = end_reader-Inv i l l s e (refl, refl, refl) v
host_msg-Inv i l host_other s e v = v

pub delivers-Inv :
    (i : ℕ) (l : HostLoop) (o : Option (ℕ × PhoneOut)) (s : Hub)
    → get i s.loops ≡ some l
    → Inv s
    → Inv (deliver i l o s)
delivers-Inv i l none s e v = v
delivers-Inv i l (some (h, out)) s e v = with_phone_intro Inv h s _ v (λ p f.
    option_intro Inv (send_bulk out p.pipe) v (λ pipe g.
      set_loop-Inv i l (record l { pending = none }) (set_pipe h p pipe s) e refl
        (((set_pipe-Inv h p pipe s f v).loops_ok i l e).0, λ j o q. cc (q))
        (set_pipe-Inv h p pipe s f v)))

pub write_one-Inv :
    (i : ℕ) (sent : Bool) (l : HostLoop) (frames : List TunnelFrame) (s : Hub)
    → get i s.loops ≡ some l
    → Inv s
    → Inv (write_one i sent l frames s)
write_one-Inv i sent l (frame ∷ rest) s e v =
    if_intro Inv sent (λ b. same_routes-Inv i l _ s e (refl, refl, refl) v)
      (λ b. same_routes-Inv i l _ s e (refl, refl, refl) v)
write_one-Inv i sent l [] s e v =
    if_intro Inv (has_sender i l s) (λ b. v) (λ b. same_routes-Inv i l _ s e (refl, refl, refl) v)
