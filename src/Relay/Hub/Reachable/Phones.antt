-- ===== src/Relay/Hub/Reachable/Phones.antt =====
-- relay/src/main.rs: the steps of a phone's tasks keep the invariant.
use remote_control.Base.{
  ℕ, suc, ◌≡◌, refl, inl, inr, Bool, true, false, List, some, nat_eq, list_eq, Map, get, insert,
  if_intro, option_intro,
}
use remote_control.Relay.Frame.{client_close}
use remote_control.Relay.Hub.{
  HostLoop, Phone, Phase, opening, serving, closing, done, Hub, set_phone,
}
use remote_control.Relay.Hub.Client.{
  PhoneMsg, text_msg, binary_msg, ping_msg, phone_end, phone_other, phone_enters, open_client,
  forward, on_phone_msg, close_client, give_up, push, detach, has_room, new_phone, in_phase,
  stop_reading,
}
use remote_control.Relay.Hub.Invariant.{
  served, Inv, insert_found, with_loop_intro, set_loop-Inv, set_phone-Inv, asked_self,
}
use remote_control.Relay.Hub.Reachable.Links.{
  set_pipe-Inv, same_routes-Inv, detach-Inv, new_phone-Inv,
}

pub served_found :
    (i : ℕ) (l : HostLoop) (loops : Map ℕ HostLoop) (x : List ℕ)
    → get i loops ≡ some l
    → served i loops ≡ some x
    → l.host_id ≡ x
unfolding served
served_found i l loops x e f = cc (rw (e, served) at f)

pub phone_enters-Inv : (x c : List ℕ) (s : Hub) → Inv s → Inv (phone_enters x c s)
unfolding phone_enters
phone_enters-Inv x c s v = option_intro Inv (get x s.online) v (λ i e.
    with_loop_intro Inv i s _ v (λ l f.
      let p : Phone = new_phone x c i in
      let w = new_phone-Inv p s (v.online_ok x i e) v in
      let host : l.host_id ≡ x = served_found i l s.loops x f (v.online_ok x i e) in
      set_loop-Inv i l (record l { clients = insert c s.next_phone l.clients })
        (record s { phones = insert s.next_phone p s.phones; next_phone = suc s.next_phone }) f refl
        (
          λ d j g. elim (insert_found c d s.next_phone j l.clients g) [
            | inl (_, same) ↦ rw (← same, host) (asked_self s.next_phone p s.phones)
            | inr k ↦ (w.loops_ok i l f).0 d j k
          ],
          (w.loops_ok i l f).1,
        )
        w))

pub open_client-Inv :
    (h : ℕ) (p : Phone) (ph : Phase) (s : Hub)
    → get h s.phones ≡ some p
    → Inv s
    → Inv (open_client h p ph s)
unfolding open_client
open_client-Inv h p opening s e v = with_loop_intro Inv p.link s _ v (λ l f.
    if_intro Inv l.writing
      (λ w.
        if_intro Inv (has_room l)
          (λ r.
            same_routes-Inv p.link l _ (set_phone h (in_phase serving p) s) f (refl, refl, refl)
              (set_phone-Inv h p (in_phase serving p) s e refl refl v))
          (λ r. v))
      (λ w.
        detach-Inv p.link l (detach p l) h p (give_up p) p.client_id s f e (refl, refl, refl)
          (refl, refl) v))
open_client-Inv h p serving s e v = v
open_client-Inv h p closing s e v = v
open_client-Inv h p done s e v = v

pub close_client-Inv :
    (h : ℕ) (p : Phone) (ph : Phase) (s : Hub)
    → get h s.phones ≡ some p
    → Inv s
    → Inv (close_client h p ph s)
unfolding close_client
close_client-Inv h p closing s e v = with_loop_intro Inv p.link s _ v (λ l f.
    if_intro Inv l.writing
      (λ w.
        if_intro Inv (has_room l)
          (λ r.
            detach-Inv p.link l (detach p (push (client_close p.client_id) l)) h p (in_phase done p)
              p.client_id s f e (refl, refl, refl) (refl, refl) v)
          (λ r. v))
      (λ w.
        detach-Inv p.link l (detach p l) h p (in_phase done p) p.client_id s f e (refl, refl, refl)
          (refl, refl) v))
close_client-Inv h p opening s e v = v
close_client-Inv h p serving s e v = v
close_client-Inv h p done s e v = v

forward-Inv :
    (h : ℕ) (p : Phone) (text : Bool) (bytes : List ℕ) (s : Hub)
    → get h s.phones ≡ some p
    → Inv s
    → Inv (forward h p text bytes s)
unfolding forward
forward-Inv h p text bytes s e v = with_loop_intro Inv p.link s _ v (λ l f.
    if_intro Inv l.writing
      (λ w.
        if_intro Inv (has_room l) (λ r. same_routes-Inv p.link l _ s f (refl, refl, refl) v)
          (λ r. v))
      (λ w. set_phone-Inv h p (stop_reading p) s e refl refl v))

pub phone_msg-Inv :
    (h : ℕ) (p : Phone) (msg : PhoneMsg) (s : Hub)
    → get h s.phones ≡ some p
    → Inv s
    → Inv (on_phone_msg h p msg s)
unfolding on_phone_msg
phone_msg-Inv h p (text_msg bytes) s e v = forward-Inv h p true bytes s e v
phone_msg-Inv h p (binary_msg bytes) s e v = forward-Inv h p false bytes s e v
phone_msg-Inv h p (ping_msg payload) s e v = set_pipe-Inv h p _ s e v
phone_msg-Inv h p phone_end s e v = set_phone-Inv h p (stop_reading p) s e refl refl v
phone_msg-Inv h p phone_other s e v = v
