-- ===== src/RelayClient/Sessions/Happens.antt =====
-- server-pc/src/relay_client.rs: what happens to a tunnel: frames from the relay, messages that sessions put
-- into their queues, rounds of the pumps, and sessions that return.
use remote_control.Base.{
  false, ℕ, ◌≡◌, refl, List, [], ◌∷◌, none, some, nat_eq, list_eq, get, insert, get-insert_self,
  get-insert_ne, get-remove, if_intro, option_intro, arith, inl, inr, ◌⊎◌, ◌≢◌, some_injective, ap,
  sym, ◌∙◌,
}
use remote_control.RelayClient.Frame.{TunnelFrame}
use remote_control.RelayClient.Sessions.{
  Message, PhoneSession, Tunnel, on_tunnel_frame, Pumped, frame, skip, stop, pump_one, end_pump,
  on_pumped, pump_round, session_ends,
}

pub data Happening : Type 0 where
  comes : TunnelFrame → Happening
  queues : ℕ → List Message → List Message → List Message → Happening
  pump_turn returns : ℕ → Happening

unfoldable pub with_task : ℕ → Tunnel → (PhoneSession → Tunnel) → Tunnel
with_task h s f = elim (get h s.tasks) [ none ↦ s | some t ↦ f t ]

unfoldable pub happen : Happening → Tunnel → Tunnel
happen (comes f) s = on_tunnel_frame f s
happen (queues h control video bulk) s = with_task h s (λ t. record s {
  tasks = insert h (record t { control = control; video = video; bulk = bulk }) s.tasks;
})
happen (pump_turn h) s = with_task h s (λ t. pump_round h t s)
happen (returns h) s = with_task h s (λ t. session_ends h t s)

unfoldable pub happen_all : List Happening → Tunnel → Tunnel
happen_all [] s = s
happen_all (e ∷ es) s = happen_all es (happen e s)

-- The frames among them.
unfoldable pub frames_of : List Happening → List TunnelFrame
frames_of [] = []
frames_of (comes f ∷ es) = f ∷ frames_of es
frames_of (queues h control video bulk ∷ es) = frames_of es
frames_of (pump_turn h ∷ es) = frames_of es
frames_of (returns h ∷ es) = frames_of es

-- A task after which a session has received the same, under the same label.
abbrev pub Alike : PhoneSession → PhoneSession → Type 0
Alike t t' = (t'.inbox ≡ t.inbox) × (t'.label ≡ t.label)

-- The map has no new entries, no session is opened, and no session has received anything.
pub record Mild (s s' : Tunnel) : Type 0 where
  pub fewer : (d : List ℕ) (x : ℕ) → get d s'.sessions ≡ some x → get d s.sessions ≡ some x
  pub same_next : s'.next ≡ s.next
  pub same_tasks :
      (j : ℕ) (t : PhoneSession)
      → get j s.tasks ≡ some t
      → (t' : PhoneSession) × (get j s'.tasks ≡ some t') × Alike t t'

idle-Mild : (s : Tunnel) → Mild s s
idle-Mild s = record {
  fewer = λ d x e. e;
  same_next = refl;
  same_tasks = λ j t e. (t, e, (refl, refl));
}

set_task :
    (h : ℕ) (t t' : PhoneSession) (s : Tunnel)
    → get h s.tasks ≡ some t
    → Alike t t'
    → (j : ℕ) (u : PhoneSession) → get j s.tasks ≡ some u
    → (u' : PhoneSession) × (get j (insert h t' s.tasks) ≡ some u') × Alike u u'
set_task h t t' s e same j u f = by_task (omega arith)
  where
    by_task :
        (h ≡ j) ⊎ (h ≢ j)
        → (u' : PhoneSession) × (get j (insert h t' s.tasks) ≡ some u') × Alike u u'
    by_task (inl p) =
        let at : get j (insert h t' s.tasks) ≡ some t' =
          ap (λ k. get k (insert h t' s.tasks)) (sym p) ∙ get-insert_self h t' s.tasks in
        let alike : t ≡ u = some_injective (sym e ∙ ap (λ k. get k s.tasks) p ∙ f) in
        (t', at, (same.0 ∙ ap (λ x. x.inbox) alike, same.1 ∙ ap (λ x. x.label) alike))
    by_task (inr ne) = (u, get-insert_ne h j t' s.tasks ne ∙ f, (refl, refl))

pumped-Mild :
    (h : ℕ) (t t' : PhoneSession) (p : Pumped) (s : Tunnel)
    → get h s.tasks ≡ some t
    → Alike t t'
    → Mild s (on_pumped h t' p s)
unfolding on_pumped end_pump
pumped-Mild h t t' (frame f) s e same = record {
  fewer = λ d x g. g;
  same_next = refl;
  same_tasks = set_task h t t' s e same;
}
pumped-Mild h t t' skip s e same = record {
  fewer = λ d x g. g;
  same_next = refl;
  same_tasks = set_task h t t' s e same;
}
pumped-Mild h t t' stop s e same = record {
  fewer = λ d x g. ground (arith, get-remove t'.client_id d s.sessions);
  same_next = refl;
  same_tasks = set_task h t (record t' { pumping = false }) s e same;
}

ended-Mild :
    (h : ℕ) (t : PhoneSession) (s : Tunnel) → get h s.tasks ≡ some t → Mild s (end_pump h t s)
unfolding end_pump
ended-Mild h t s e = record {
  fewer = λ d x g. ground (arith, get-remove t.client_id d s.sessions);
  same_next = refl;
  same_tasks = set_task h t (record t { pumping = false }) s e (refl, refl);
}

list_intro {ℓ κ κ'} :
    {A : Type ℓ} {B : Type κ} (P : B → Type κ') (l : List A) {x : B} {f : A → List A → B}
    → P x
    → ((a : A) (rest : List A) → P (f a rest))
    → P (elim l [ [] ↦ x | a ∷ rest ↦ f a rest ])
list_intro P [] p q = p
list_intro P (a ∷ rest) p q = q a rest

pump-Mild :
    (h : ℕ) (t : PhoneSession) (s : Tunnel) → get h s.tasks ≡ some t → Mild s (pump_round h t s)
unfolding pump_round
pump-Mild h t s e =
    list_intro (Mild s) t.control
      (if_intro (Mild s) t.ended (λ b. ended-Mild h t s e)
        (λ b.
          list_intro (Mild s) t.video
            (list_intro (Mild s) t.bulk (idle-Mild s)
              (λ m bulk. pumped-Mild h t _ (pump_one t.client_id m) s e (refl, refl)))
            (λ m video. pumped-Mild h t _ (pump_one t.client_id m) s e (refl, refl))))
      (λ m control. pumped-Mild h t _ (pump_one t.client_id m) s e (refl, refl))

task_intro :
    (h : ℕ) (s : Tunnel) (f : PhoneSession → Tunnel)
    → ((t : PhoneSession) → get h s.tasks ≡ some t → Mild s (f t))
    → Mild s (with_task h s f)
unfolding with_task
task_intro h s f acts = option_intro (Mild s) (get h s.tasks) (idle-Mild s) acts

pub queues-Mild :
    (h : ℕ) (control video bulk : List Message) (s : Tunnel)
    → Mild s (happen (queues h control video bulk) s)
unfolding happen
queues-Mild h control video bulk s = task_intro h s _ (λ t e. record {
  fewer = λ d x g. g;
  same_next = refl;
  same_tasks = set_task h t _ s e (refl, refl);
})

pub turn-Mild : (h : ℕ) (s : Tunnel) → Mild s (happen (pump_turn h) s)
unfolding happen
turn-Mild h s = task_intro h s _ (λ t e. pump-Mild h t s e)

pub returns-Mild : (h : ℕ) (s : Tunnel) → Mild s (happen (returns h) s)
unfolding happen session_ends
returns-Mild h s = task_intro h s _ (λ t e. record {
  fewer = λ d x g. g;
  same_next = refl;
  same_tasks = set_task h t _ s e (refl, refl);
})
