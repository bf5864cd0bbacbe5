-- ===== src/Relay/Hub/Invariant.antt =====
-- relay/src/main.rs: what holds of the relay's state between any two steps.
use remote_control.Base.{
  ℕ, ◌≤◌, ◌≡◌, refl, inl, inr, List, Option, none, some, nat_eq, list_eq, Eq, Map, get, insert,
  remove, get-insert, get-remove, arith, Option-cases, subst, ◌⊎◌, ◌∙◌,
}
use remote_control.Relay.Hub.{
  HostLoop, Phone, Hub, new_hub, set_loop, set_phone, with_loop, with_phone,
}
use remote_control.Relay.Pipe.{PhoneOut}

-- The host that a phone asked for, and the host of a loop.
unfoldable pub asked : ℕ → Map ℕ Phone → Option (List ℕ)
asked h phones = elim (get h phones) [ none ↦ none | some p ↦ some p.host_id ]

unfoldable pub served : ℕ → Map ℕ HostLoop → Option (List ℕ)
served i loops = elim (get i loops) [ none ↦ none | some l ↦ some l.host_id ]

-- A loop's map of clients, and the frame it is about to deliver, lead to phones that asked for its host.
abbrev pub LoopOk : Map ℕ Phone → HostLoop → Type 0
LoopOk phones l =
    ((c : List ℕ) (h : ℕ) → get c l.clients ≡ some h → asked h phones ≡ some l.host_id)
    × ((h : ℕ) (out : PhoneOut) → l.pending ≡ some (h, out) → asked h phones ≡ some l.host_id)

pub record Inv (s : Hub) : Type 0 where
  pub loops_ok : (i : ℕ) (l : HostLoop) → get i s.loops ≡ some l → LoopOk s.phones l
  pub online_ok : (x : List ℕ) (i : ℕ) → get x s.online ≡ some i → served i s.loops ≡ some x
  pub linked :
      (h : ℕ) (p : Phone) → get h s.phones ≡ some p → served p.link s.loops ≡ some p.host_id
  pub fresh_loops : (i : ℕ) → s.next_loop ≤ i → get i s.loops ≡ none
  pub fresh_phones : (h : ℕ) → s.next_phone ≤ h → get h s.phones ≡ none

pub new_hub-Inv : Inv new_hub
unfolding get
new_hub-Inv = record {
  loops_ok = λ i l e. cc (e);
  online_ok = λ x i e. cc (e);
  linked = λ h p e. cc (e);
  fresh_loops = λ i e. refl;
  fresh_phones = λ h e. refl;
}

pub insert_found {ℓ κ} :
    {K : Type ℓ} {V : Type κ} ⦃e : Eq K⦄ (k j : K) (v w : V) (m : Map K V)
    → get j (insert k v m) ≡ some w
    → ((k ≡ j) × (v ≡ w)) ⊎ (get j m ≡ some w)
insert_found ⦃e⦄ k j v w m f = ground (arith, get-insert k j v m, e.test_iff k j)

pub remove_found {ℓ κ} :
    {K : Type ℓ} {V : Type κ} ⦃e : Eq K⦄ (k j : K) (w : V) (m : Map K V)
    → get j (remove k m) ≡ some w
    → get j m ≡ some w
remove_found k j w m f = ground (arith, get-remove k j m)

pub with_loop_intro :
    (P : Hub → Type 0) (i : ℕ) (s : Hub) (f : HostLoop → Hub)
    → P s
    → ((l : HostLoop) → get i s.loops ≡ some l → P (f l))
    → P (with_loop i s f)
unfolding with_loop
with_loop_intro P i s f idle acts = elim (Option-cases (get i s.loops)) [
  | inl e ↦ rw (e, with_loop) idle
  | inr (l, e) ↦ rw (e, with_loop) (acts l e)
]

pub with_phone_intro :
    (P : Hub → Type 0) (h : ℕ) (s : Hub) (f : Phone → Hub)
    → P s
    → ((p : Phone) → get h s.phones ≡ some p → P (f p))
    → P (with_phone h s f)
unfolding with_phone
with_phone_intro P h s f idle acts = elim (Option-cases (get h s.phones)) [
  | inl e ↦ rw (e, with_phone) idle
  | inr (p, e) ↦ rw (e, with_phone) (acts p e)
]

pub asked_set :
    (h : ℕ) (p p' : Phone) (phones : Map ℕ Phone) (j : ℕ)
    → get h phones ≡ some p
    → p'.host_id ≡ p.host_id
    → asked j (insert h p' phones) ≡ asked j phones
unfolding asked
asked_set h p p' phones j e same = ground (arith, get-insert h j p' phones)

pub served_set :
    (i : ℕ) (l l' : HostLoop) (loops : Map ℕ HostLoop) (j : ℕ)
    → get i loops ≡ some l
    → l'.host_id ≡ l.host_id
    → served j (insert i l' loops) ≡ served j loops
unfolding served
served_set i l l' loops j e same = ground (arith, get-insert i j l' loops)

pub set_loop-Inv :
    (i : ℕ) (l l' : HostLoop) (s : Hub)
    → get i s.loops ≡ some l
    → l'.host_id ≡ l.host_id
    → LoopOk s.phones l'
    → Inv s
    → Inv (set_loop i l' s)
set_loop-Inv i l l' s e same ok v = record {
  loops_ok = λ j k f. elim (insert_found i j l' k s.loops f) [
    | inl (_, same_loop) ↦ subst (LoopOk s.phones) same_loop ok
    | inr g ↦ v.loops_ok j k g
  ];
  online_ok = λ x j f. served_set i l l' s.loops j e same ∙ v.online_ok x j f;
  linked = λ h p f. served_set i l l' s.loops p.link e same ∙ v.linked h p f;
  fresh_loops = λ j f. ground (arith, get-insert i j l' s.loops, v.fresh_loops j);
  fresh_phones = v.fresh_phones;
}

pub set_phone-Inv :
    (h : ℕ) (p p' : Phone) (s : Hub)
    → get h s.phones ≡ some p
    → p'.host_id ≡ p.host_id
    → p'.link ≡ p.link
    → Inv s
    → Inv (set_phone h p' s)
set_phone-Inv h p p' s e same link v = record {
  loops_ok = λ i l f. (
    λ c j g. asked_set h p p' s.phones j e same ∙ (v.loops_ok i l f).0 c j g,
    λ j out g. asked_set h p p' s.phones j e same ∙ (v.loops_ok i l f).1 j out g,
  );
  online_ok = v.online_ok;
  linked = λ j q f. elim (insert_found h j p' q s.phones f) [
    | inl (_, same_phone) ↦
        subst (λ x. served x.link s.loops ≡ some x.host_id) same_phone
          (rw (link, same) (v.linked h p e))
    | inr g ↦ v.linked j q g
  ];
  fresh_loops = v.fresh_loops;
  fresh_phones = λ j f. ground (arith, get-insert h j p' s.phones, v.fresh_phones j);
}

-- A loop under a fresh instance hides no other.
pub served_keeps :
    (i : ℕ) (l : HostLoop) (loops : Map ℕ HostLoop) (j : ℕ) (x : List ℕ)
    → get i loops ≡ none
    → served j loops ≡ some x
    → served j (insert i l loops) ≡ some x
unfolding served
served_keeps i l loops j x fresh e = ground (arith, get-insert i j l loops)

pub served_self :
    (i : ℕ) (l : HostLoop) (loops : Map ℕ HostLoop) → served i (insert i l loops) ≡ some l.host_id
unfolding served
served_self i l loops = ground (arith, get-insert i i l loops)

pub asked_keeps :
    (h : ℕ) (p : Phone) (phones : Map ℕ Phone) (j : ℕ) (x : List ℕ)
    → get h phones ≡ none
    → asked j phones ≡ some x
    → asked j (insert h p phones) ≡ some x
unfolding asked
asked_keeps h p phones j x fresh e = ground (arith, get-insert h j p phones)

pub asked_self :
    (h : ℕ) (p : Phone) (phones : Map ℕ Phone) → asked h (insert h p phones) ≡ some p.host_id
unfolding asked
asked_self h p phones = ground (arith, get-insert h h p phones)
