-- ===== src/Relay/Hub/Reachable/Links.antt =====
-- relay/src/main.rs: changes of a phone or of a host's loop that keep the routes keep the invariant.
use remote_control.Base.{
  ℕ, suc, ◌≡◌, refl, inl, inr, false, List, some, nat_eq, list_eq, get, insert, remove, get-insert,
  if_intro, arith, subst,
}
use remote_control.Relay.Hub.{HostLoop, Phone, Hub, set_loop, set_phone, set_pipe}
use remote_control.Relay.Hub.Host.{end_reader, clean_up, still_ours}
use remote_control.Relay.Hub.Invariant.{
  asked, served, LoopOk, Inv, insert_found, remove_found, set_loop-Inv, set_phone-Inv, asked_keeps,
}
use remote_control.Relay.Pipe.{Pipe}

-- A phone keeps its host and its link.
pub set_pipe-Inv :
    (h : ℕ) (p : Phone) (pipe : Pipe) (s : Hub)
    → get h s.phones ≡ some p
    → Inv s
    → Inv (set_pipe h p pipe s)
set_pipe-Inv h p pipe s e v = set_phone-Inv h p (record p { pipe = pipe }) s e refl refl v

pub clean_up-Inv :
    (i : ℕ) (l l' : HostLoop) (s : Hub)
    → get i s.loops ≡ some l
    → l'.host_id ≡ l.host_id
    → LoopOk s.phones l'
    → Inv s
    → Inv (clean_up i l' s)
unfolding clean_up
clean_up-Inv i l l' s e same ok v =
    let w : Inv (set_loop i (record l' { entered = false }) s) =
      set_loop-Inv i l (record l' { entered = false }) s e same ok v in
    record {
      loops_ok = w.loops_ok;
      online_ok = λ x j.
          if_intro
            (λ m.
              get x m ≡ some j
              → served j (insert i (record l' { entered = false }) s.loops) ≡ some x)
            (still_ours l'.instance (get l'.host_id s.online) s.loops)
            (λ c f. w.online_ok x j (remove_found l'.host_id x j s.online f))
            (λ c f. w.online_ok x j f);
      linked = w.linked;
      fresh_loops = w.fresh_loops;
      fresh_phones = w.fresh_phones;
    }

-- A loop whose map of clients and frame to deliver stay.
pub same_routes-Inv :
    (i : ℕ) (l l' : HostLoop) (s : Hub)
    → get i s.loops ≡ some l
    → (l'.host_id ≡ l.host_id) × (l'.clients ≡ l.clients) × (l'.pending ≡ l.pending)
    → Inv s
    → Inv (set_loop i l' s)
same_routes-Inv i l l' s e same v =
    set_loop-Inv i l l' s e same.0
      (
        λ c h f. rw (same.0) ((v.loops_ok i l e).0 c h (rw (← same.1) f)),
        λ h out f. rw (same.0) ((v.loops_ok i l e).1 h out (rw (← same.2) f)),
      )
      v

pub end_reader-Inv :
    (i : ℕ) (l l' : HostLoop) (s : Hub)
    → get i s.loops ≡ some l
    → (l'.host_id ≡ l.host_id) × (l'.clients ≡ l.clients) × (l'.pending ≡ l.pending)
    → Inv s
    → Inv (end_reader i l' s)
unfolding end_reader
end_reader-Inv i l l' s e same v = same_routes-Inv i l (record l' { reading = false }) s e same v

-- The client is taken out of the map, and its phone may change its phase.
pub detach-Inv :
    (i : ℕ) (l l' : HostLoop) (h : ℕ) (p p' : Phone) (c : List ℕ) (s : Hub)
    → get i s.loops ≡ some l
    → get h s.phones ≡ some p
    → (l'.host_id ≡ l.host_id) × (l'.clients ≡ remove c l.clients) × (l'.pending ≡ l.pending)
    → (p'.host_id ≡ p.host_id) × (p'.link ≡ p.link)
    → Inv s
    → Inv (set_loop i l' (set_phone h p' s))
detach-Inv i l l' h p p' c s e f same samep v =
    let w : Inv (set_phone h p' s) = set_phone-Inv h p p' s f samep.0 samep.1 v in
    set_loop-Inv i l l' (set_phone h p' s) e same.0
      (
        λ d j g.
            rw (same.0) ((w.loops_ok i l e).0 d j (remove_found c d j l.clients (rw (← same.1) g))),
        λ j out g. rw (same.0) ((w.loops_ok i l e).1 j out (rw (← same.2) g)),
      )
      w

pub new_phone-Inv :
    (p : Phone) (s : Hub)
    → served p.link s.loops ≡ some p.host_id
    → Inv s
    → Inv (record s { phones = insert s.next_phone p s.phones; next_phone = suc s.next_phone })
new_phone-Inv p s link v =
    let keep : (j : ℕ) (x : List ℕ)
        → asked j s.phones ≡ some x
        → asked j (insert s.next_phone p s.phones) ≡ some x =
      λ j x g.
        asked_keeps s.next_phone p s.phones j x (v.fresh_phones s.next_phone (omega arith)) g in
    record {
      loops_ok = λ i l f. (
        λ c j g. keep j l.host_id ((v.loops_ok i l f).0 c j g),
        λ j out g. keep j l.host_id ((v.loops_ok i l f).1 j out g),
      );
      online_ok = v.online_ok;
      linked = λ j q f. elim (insert_found s.next_phone j p q s.phones f) [
        | inl (_, same) ↦ subst (λ r. served r.link s.loops ≡ some r.host_id) same link
        | inr g ↦ v.linked j q g
      ];
      fresh_loops = v.fresh_loops;
      fresh_phones = λ j f. ground (arith, get-insert s.next_phone j p s.phones, v.fresh_phones j);
    }
