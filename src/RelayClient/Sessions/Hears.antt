-- ===== src/RelayClient/Sessions/Hears.antt =====
-- server-pc/src/relay_client.rs: what reaches a phone session.
use remote_control.Base.{
  ℕ, ◌<◌, ◌≡◌, refl, ◌≢◌, inl, inr, ◌⊎◌, true, false, List, [], ◌∷◌, ◌++◌, some, get, get-insert,
  get-remove, get-insert_self, get-insert_ne, nat_eq, list_eq, ◌==◌, if◌then◌else◌, if_intro,
  option_intro, append_assoc, append-nil, arith, sym, ◌∙◌, ap, Bool-cases, subst, ==→eq, ==_false,
  get-remove_ne,
}
use remote_control.Base.Text.{starts_with}
use remote_control.Base.Utf8.{is_utf8}
use remote_control.Connection.Dispatch.{on_relay}
use remote_control.RelayClient.Frame.{TunnelFrame, client_open, client_close, data_frame}
use remote_control.RelayClient.Sessions.{
  Message, text_message, binary_message, PhoneSession, Tunnel, new_session, receive, to_session,
  on_tunnel_frame, session_ends,
}
use remote_control.RelayClient.Sessions.Happens.{
  Happening, comes, queues, pump_turn, returns, with_task, happen, happen_all, frames_of, Mild,
  queues-Mild, turn-Mild, returns-Mild,
}
use remote_control.RelayClient.Sessions.Reachable.{Reaches, reaches-Below}

-- The messages for one client.
unfoldable pub heard : List ℕ → List TunnelFrame → List Message
heard c [] = []
heard c (client_open d ∷ fs) = heard c fs
heard c (client_close d ∷ fs) = heard c fs
heard c (data_frame d text payload ∷ fs) =
    let rest = heard c fs in
    if c == d
    then (if text
        then (if is_utf8 payload then text_message payload ∷ rest else rest)
        else binary_message payload ∷ rest)
    else rest

-- Frames that neither open nor close this client.
abbrev pub Keeps : List ℕ → TunnelFrame → Type 0
Keeps c (client_open d) = c ≢ d
Keeps c (client_close d) = c ≢ d
Keeps c (data_frame d text payload) = Unit

-- Client `c` has session `h`, no other client has it, and it has received `msgs`.
pub record Has (c : List ℕ) (h : ℕ) (msgs : List Message) (s : Tunnel) : Type 0 where
  pub session : get c s.sessions ≡ some h
  pub alone : (d : List ℕ) → get d s.sessions ≡ some h → c ≡ d
  pub old : h < s.next
  pub task :
      (t : PhoneSession) × (get h s.tasks ≡ some t) × (t.inbox ≡ msgs) × (on_relay t.label ≡ true)

-- A message for the client itself, and one for another.
own-Has :
    (c : List ℕ) (h : ℕ) (msgs : List Message) (msg : Message) (s : Tunnel)
    → Has c h msgs s
    → Has c h (msgs ++ (msg ∷ [])) (to_session c msg s)
unfolding to_session on_relay
own-Has c h msgs msg s v =
    let (t, e, inbox, label) = v.task in
    rw (v.session, to_session)
      (rw (e) (record {
        session = v.session;
        alone = v.alone;
        old = v.old;
        task = (
          receive msg t,
          get-insert_self h (receive msg t) s.tasks,
          ap (λ m. m ++ (msg ∷ [])) inbox,
          label,
        );
      }))

other-Has :
    (c d : List ℕ) (h : ℕ) (msgs : List Message) (msg : Message) (s : Tunnel)
    → c ≢ d
    → Has c h msgs s
    → Has c h msgs (to_session d msg s)
unfolding to_session
other-Has c d h msgs msg s ne v =
    let (t, e, inbox, label) = v.task in
    option_intro (Has c h msgs) (get d s.sessions) v (λ g f.
      option_intro (Has c h msgs) (get g s.tasks) v (λ u k. record {
        session = v.session;
        alone = v.alone;
        old = v.old;
        task = (
          t,
          get-insert_ne g h (receive msg u) s.tasks (λ same. ne (v.alone d (f ∙ ap some same))) ∙ e,
          inbox,
          label,
        );
      }))

message-Has :
    (c d : List ℕ) (h : ℕ) (msgs : List Message) (msg : Message) (s : Tunnel)
    → Has c h msgs s
    → Has c h (msgs ++ (if c == d then msg ∷ [] else [])) (to_session d msg s)
message-Has c d h msgs msg s v = by_client (Bool-cases (c == d))
  where
    by_client :
        ((c == d) ≡ true) ⊎ ((c == d) ≡ false)
        → Has c h (msgs ++ (if c == d then msg ∷ [] else [])) (to_session d msg s)
    by_client (inl y) =
        let same : c ≡ d = ==→eq c d y in
        rw (y) (
          subst (λ x. Has c h (msgs ++ (msg ∷ [])) (to_session x msg s)) same
            (own-Has c h msgs msg s v))
    by_client (inr n) = rw (n) (
        subst (λ m. Has c h m (to_session d msg s)) (sym (append-nil msgs))
          (other-Has c d h msgs msg s (==_false c d n) v))

unchanged-Has :
    (c : List ℕ) (h : ℕ) (msgs : List Message) (s : Tunnel)
    → Has c h msgs s
    → Has c h (msgs ++ []) s
unchanged-Has c h msgs s v = subst (λ m. Has c h m s) (sym (append-nil msgs)) v

step-Has :
    (c : List ℕ) (h : ℕ) (msgs : List Message) (f : TunnelFrame) (s : Tunnel)
    → Keeps c f
    → Has c h msgs s
    → Has c h (msgs ++ heard c (f ∷ [])) (on_tunnel_frame f s)
unfolding on_tunnel_frame heard
step-Has c h msgs (client_open d) s keeps v =
    let (t, e, inbox, label) = v.task in
    unchanged-Has c h msgs _ (record {
      session = get-insert_ne d c s.next s.sessions (λ same. keeps (sym same)) ∙ v.session;
      alone = λ x f. v.alone x (ground (arith, get-insert d x s.next s.sessions, v.old));
      old = omega (arith, v.old);
      task = (
        t,
        get-insert_ne s.next h (new_session d) s.tasks (omega (arith, v.old)) ∙ e,
        inbox,
        label,
      );
    })
step-Has c h msgs (client_close d) s keeps v = unchanged-Has c h msgs _ (record {
  session = get-remove_ne d c s.sessions (λ same. keeps (sym same)) ∙ v.session;
  alone = λ x f. v.alone x (ground (arith, get-remove d x s.sessions));
  old = v.old;
  task = v.task;
})
step-Has c h msgs (data_frame d true payload) s keeps v = by_text (Bool-cases (is_utf8 payload))
  where
    by_text :
        (is_utf8 payload ≡ true) ⊎ (is_utf8 payload ≡ false)
        → Has c h
            (msgs ++ heard c (data_frame d true payload ∷ []))
            (on_tunnel_frame (data_frame d true payload) s)
    by_text (inl y) = rw (y) (message-Has c d h msgs (text_message payload) s v)
    by_text (inr n) = rw (n) (
        if_intro (λ l. Has c h (msgs ++ l) s) (c == d) (λ b. unchanged-Has c h msgs s v)
          (λ b. unchanged-Has c h msgs s v))
step-Has c h msgs (data_frame d false payload) s keeps v =
    message-Has c d h msgs (binary_message payload) s v

heard-cons :
    (c : List ℕ) (f : TunnelFrame) (fs : List TunnelFrame)
    → heard c (f ∷ fs) ≡ heard c (f ∷ []) ++ heard c fs
unfolding heard
heard-cons c (client_open d) fs = refl
heard-cons c (client_close d) fs = refl
heard-cons c (data_frame d text payload) fs = ground arith

-- A step that gives no session anything and leaves the entry of `c`.
steady-Has :
    (c : List ℕ) (h : ℕ) (msgs : List Message) (s s' : Tunnel)
    → Mild s s'
    → get c s'.sessions ≡ get c s.sessions
    → Has c h msgs s
    → Has c h msgs s'
unfolding on_relay
steady-Has c h msgs s s' m kept v =
    let (t, e, inbox, label) = v.task in
    let (t', e', (inbox', label')) = m.same_tasks h t e in
    record {
      session = kept ∙ v.session;
      alone = λ d f. v.alone d (m.fewer d h f);
      old = omega (arith, v.old, m.same_next);
      task = (t', e', inbox' ∙ inbox, ap on_relay label' ∙ label);
    }

-- The phone is neither opened again nor closed, and no pump that ends takes its entry out of the map, as
-- the pump of its own session does and that of an earlier session of the same client id.
abbrev pub Undisturbed : List ℕ → Happening → Tunnel → Type 0
Undisturbed c (comes f) s = Keeps c f
Undisturbed c (pump_turn g) s = get c (happen (pump_turn g) s).sessions ≡ get c s.sessions
Undisturbed c (queues g control video bulk) s = Unit
Undisturbed c (returns g) s = Unit

unfoldable pub Throughout : List ℕ → List Happening → Tunnel → Type 0
Throughout c [] s = Unit
Throughout c (e ∷ es) s = Undisturbed c e s × Throughout c es (happen e s)

queues-entry :
    (c : List ℕ) (g : ℕ) (control video bulk : List Message) (s : Tunnel)
    → get c (happen (queues g control video bulk) s).sessions ≡ get c s.sessions
unfolding happen with_task
queues-entry c g control video bulk s = ground arith

returns-entry :
    (c : List ℕ) (g : ℕ) (s : Tunnel) → get c (happen (returns g) s).sessions ≡ get c s.sessions
unfolding happen with_task session_ends
returns-entry c g s = ground arith

one-Has :
    (c : List ℕ) (h : ℕ) (msgs : List Message) (e : Happening) (s : Tunnel)
    → Undisturbed c e s
    → Has c h msgs s
    → Has c h (msgs ++ heard c (frames_of (e ∷ []))) (happen e s)
unfolding happen frames_of heard
one-Has c h msgs (comes f) s u v = step-Has c h msgs f s u v
one-Has c h msgs (queues g control video bulk) s u v = unchanged-Has c h msgs _ (
    steady-Has c h msgs s _ (queues-Mild g control video bulk s)
      (queues-entry c g control video bulk s) v)
one-Has c h msgs (pump_turn g) s u v =
    unchanged-Has c h msgs _ (steady-Has c h msgs s _ (turn-Mild g s) u v)
one-Has c h msgs (returns g) s u v =
    unchanged-Has c h msgs _ (steady-Has c h msgs s _ (returns-Mild g s) (returns-entry c g s) v)

heard-frames_of :
    (c : List ℕ) (e : Happening) (es : List Happening)
    → heard c (frames_of (e ∷ es)) ≡ heard c (frames_of (e ∷ [])) ++ heard c (frames_of es)
unfolding frames_of heard
heard-frames_of c (comes f) es = heard-cons c f (frames_of es)
heard-frames_of c (queues g control video bulk) es = refl
heard-frames_of c (pump_turn g) es = refl
heard-frames_of c (returns g) es = refl

all-Has :
    (c : List ℕ) (h : ℕ) (msgs : List Message) (es : List Happening) (s : Tunnel)
    → Throughout c es s
    → Has c h msgs s
    → Has c h (msgs ++ heard c (frames_of es)) (happen_all es s)
unfolding happen_all Throughout
all-Has c h msgs [] s keeps v = unfold heard frames_of in unchanged-Has c h msgs s v
all-Has c h msgs (e ∷ es) s keeps v =
    subst (λ m. Has c h m (happen_all es (happen e s)))
      (append_assoc msgs (heard c (frames_of (e ∷ []))) (heard c (frames_of es))
        ∙ ap (λ m. msgs ++ m) (sym (heard-frames_of c e es)))
      (all-Has c h (msgs ++ heard c (frames_of (e ∷ []))) es (happen e s) keeps.1
        (one-Has c h msgs e s keeps.0 v))

pub session_hears :
    (c : List ℕ) (es : List Happening) (s : Tunnel)
    → Reaches s
    → Throughout c es (on_tunnel_frame (client_open c) s)
    → (t : PhoneSession) × (get s.next (happen_all es (on_tunnel_frame (client_open c) s)).tasks
        ≡ some t)
      × (t.inbox ≡ heard c (frames_of es))
      × (on_relay t.label ≡ true)
unfolding on_tunnel_frame on_relay starts_with
session_hears c es s r keeps =
    (all-Has c s.next [] es (on_tunnel_frame (client_open c) s) keeps (record {
      session = get-insert_self c s.next s.sessions;
      alone = λ d e.
          ground (
            arith,
            get-insert c d s.next s.sessions,
            list_eq.test_iff c d,
            reaches-Below r d s.next,
          );
      old = omega arith;
      task = (new_session c, get-insert_self s.next (new_session c) s.tasks, refl, refl);
    })).task
