-- ===== src/Relay/Hub/Online.antt =====
-- relay/src/main.rs: which of a PC's connections `online` leads to.
use remote_control.Base.{
  ℕ, ◌+◌, ◌<◌, ◌^◌, ◌≡◌, refl, ◌↔◌, false, not, ◌&&◌, List, [], ◌∷◌, length, some, nat_eq, list_eq,
  get, if_intro, option_intro, arith,
}
use remote_control.Relay.Frame.{decode}
use remote_control.Relay.Hub.{with_phone, HostLoop, Phone, Hub, new_hub, set_loop}
use remote_control.Relay.Hub.Client.{
  phone_enters, phone_opens, phone_message, phone_closes, phone_writes, is_writing,
}
use remote_control.Relay.Hub.History.{
  Event, enters, draws, displaces, message, cancelled, delivers, leaves, clears, writes,
  client_enters, client_opens, client_closes, client_message, client_writes, step, run,
}
use remote_control.Relay.Hub.Host.{
  host_displaces, host_enters, HostMsg, binary, host_end, host_other, on_frame, on_host_msg,
  at_select, host_message, host_cancelled, deliver, host_delivers, write_one, host_writes,
  host_clears, host_leaves, end_reader,
}
use remote_control.Relay.Hub.Invariant.{with_loop_intro, with_phone_intro}
use remote_control.Relay.Pipe.{write_round}
use remote_control.Relay.Hub.Newest.{
  view, inst, Newest, Accurate, Same, same-Accurate, set_loop-Same,
}
use remote_control.Relay.Hub.Counter.{step_next}
use remote_control.Relay.Hub.Moves.{draws-Accurate, enter-Accurate, clean_up-Accurate}
use remote_control.Relay.Hub.Unmoved.{
  host_displaces-Same, frame-Same, deliver-Same, write_one-Same, phone_enters-Same, open-Same,
  close-Same, phone_msg-Same, serving-Same,
}

ends-Accurate :
    (i : ℕ) (l l' : HostLoop) (s : Hub)
    → get i s.loops ≡ some l
    → (l'.host_id ≡ l.host_id) × (l'.entered ≡ l.entered) × (l'.instance ≡ l.instance)
    → Accurate s
    → Accurate (end_reader i l' s)
unfolding end_reader
ends-Accurate i l l' s e same v =
    same-Accurate s (end_reader i l' s)
      (set_loop-Same i l (record l' { reading = false }) s s e same (refl, refl, refl, refl, refl))
      v

msg-Accurate :
    (i : ℕ) (l : HostLoop) (msg : HostMsg) (s : Hub)
    → get i s.loops ≡ some l
    → Accurate s
    → Accurate (on_host_msg i l msg s)
unfolding on_host_msg
msg-Accurate i l (binary bytes) s e v =
    option_intro Accurate (decode bytes) v
      (λ frame f. same-Accurate s (on_frame i l frame s) (frame-Same s i l frame e) v)
msg-Accurate i l host_end s e v = ends-Accurate i l l s e (refl, refl, refl) v
msg-Accurate i l host_other s e v = v

-- A step of one phone's tasks.
phone_step :
    (s : Hub) (h : ℕ) (f : Phone → Hub)
    → ((p : Phone) → get h s.phones ≡ some p → Same s (f p))
    → Accurate s
    → Accurate (with_phone h s f)
phone_step s h f same v =
    with_phone_intro Accurate h s f v (λ p e. same-Accurate s (f p) (same p e) v)

step-Accurate :
    (e : Event) (s : Hub) → s.next_instance + 1 < 2 ^ 64 → Accurate s → Accurate (step e s)
unfolding step host_enters host_message host_cancelled host_delivers host_leaves host_clears
    host_writes phone_opens phone_closes phone_message phone_writes
step-Accurate (draws x) s small v = draws-Accurate x s small v
step-Accurate (enters k) s small v =
    option_intro Accurate (get k s.drawn) v (λ x e. enter-Accurate k x s e v)
step-Accurate (displaces j) s small v =
    same-Accurate s (host_displaces j s) (host_displaces-Same j s) v
step-Accurate (leaves i) s small v = with_loop_intro Accurate i s _ v (λ l e.
    if_intro Accurate (not l.reading && l.entered) (λ b. clean_up-Accurate i l s e v) (λ b. v))
step-Accurate (message i msg) s small v =
    with_loop_intro Accurate i s _ v
      (λ l e. if_intro Accurate (at_select l) (λ b. msg-Accurate i l msg s e v) (λ b. v))
step-Accurate (cancelled i) s small v = with_loop_intro Accurate i s _ v (λ l e.
    if_intro Accurate (at_select l && l.cancelled)
      (λ b. ends-Accurate i l (record l { cancelled = false }) s e (refl, refl, refl) v) (λ b. v))
step-Accurate (delivers i) s small v =
    with_loop_intro Accurate i s _ v
      (λ l e. same-Accurate s (deliver i l l.pending s) (deliver-Same s i l l.pending e) v)
step-Accurate (clears i) s small v = with_loop_intro Accurate i s _ v (λ l e.
    if_intro Accurate (not l.entered && not l.writing)
      (λ b.
        same-Accurate s (set_loop i (record l { clients = [] }) s)
          (set_loop-Same i l (record l { clients = [] }) s s e (refl, refl, refl)
            (refl, refl, refl, refl, refl))
          v)
      (λ b. v))
step-Accurate (writes i sent) s small v = with_loop_intro Accurate i s _ v (λ l e.
    if_intro Accurate l.writing
      (λ b.
        same-Accurate s (write_one i sent l l.to_host s) (write_one-Same s i sent l l.to_host e) v)
      (λ b. v))
step-Accurate (client_enters x c) s small v =
    same-Accurate s (phone_enters x c s) (phone_enters-Same s x c) v
step-Accurate (client_opens h) s small v = phone_step s h _ (λ p e. open-Same s h p p.phase) v
step-Accurate (client_closes h) s small v = phone_step s h _ (λ p e. close-Same s h p p.phase) v
step-Accurate (client_message h msg) s small v =
    phone_step s h _ (λ p e. serving-Same s p.phase _ (phone_msg-Same s h p msg)) v
step-Accurate (client_writes h sent) s small v =
    phone_step s h _
      (λ p e.
        if_intro (Same s) (is_writing p)
          (λ b.
            option_intro (Same s) (write_round sent p.pipe)
              (refl, refl, (λ j. refl), refl, refl, λ j. refl)
              (λ pipe g. (refl, refl, (λ j. refl), refl, refl, λ j. refl)))
          (λ b. (refl, refl, (λ j. refl), refl, refl, λ j. refl)))
      v

run-Accurate :
    (es : List Event) (s : Hub)
    → s.next_instance + length es < 2 ^ 64
    → Accurate s
    → Accurate (run es s)
unfolding run
run-Accurate [] s small v = v
run-Accurate (e ∷ es) s small v =
    run-Accurate es (step e s) (omega (arith, step_next e s)) (step-Accurate e s (omega arith) v)

-- After any history of fewer than 2^64 steps, `online` leads a host id to a connection of a PC exactly
-- if this is the last of all that came into `online` for that id, in whatever order they drew their
-- instances, and its clean-up has not run: so a stale connection that ends late never takes its successor
-- offline, and one that is not displaced stays until its own clean-up.
pub online_iff_newest :
    (es : List Event)
    → length es < 2 ^ 64
    → (x : List ℕ) (i : ℕ)
    → (get x (run es new_hub).online ≡ some i) ↔ Newest (run es new_hub).loops x i
unfolding get view inst
online_iff_newest es small =
    (run-Accurate es new_hub (omega arith) (
      (λ x i. (λ e. cc (e), λ w. cc (w.0))),
      (λ j h. refl),
      record {
        apart = λ i j n e f. cc (e);
        old_loops = λ i n e. cc (e);
        not_drawn = λ i n e. refl;
        old_drawn = λ k x e. cc (e);
      },
    )).0
