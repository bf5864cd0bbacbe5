-- ===== src/Relay/Hub/Newest.antt =====
-- relay/src/main.rs: the entries of `online` and the newest connection of each host.
use remote_control.Base.{
  ℕ, ◌≤◌, ◌<◌, ◌≡◌, ◌≢◌, ◌↔◌, inl, inr, Bool, true, false, List, Option, none, some, ◌==◌, nat_eq,
  list_eq, ◌⊎◌, Map, get, insert, get-insert, if◌then◌else◌, ap, sym, ◌∙◌, arith,
}
use remote_control.Relay.Hub.{HostLoop, new_loop, Hub, set_loop}

-- The host of a loop, and whether its clean-up is still to come.
unfoldable pub view : ℕ → Map ℕ HostLoop → Option (List ℕ × Bool)
view i loops = elim (get i loops) [ none ↦ none | some l ↦ some (l.host_id, l.entered) ]

unfoldable pub inst : ℕ → Map ℕ HostLoop → Option ℕ
inst i loops = elim (get i loops) [ none ↦ none | some l ↦ some l.instance ]

-- Loop `i` is the last of host `x` that came into `online`, and its clean-up has not run.
abbrev pub Newest : Map ℕ HostLoop → List ℕ → ℕ → Type 0
Newest loops x i =
    (view i loops ≡ some (x, true)) × ((j : ℕ) (b : Bool) → view j loops ≡ some (x, b) → j ≤ i)

abbrev pub Fresh : Hub → Type 0
Fresh s = (j : ℕ) → s.next_loop ≤ j → view j s.loops ≡ none

-- No two loops have the same instance, and none one that is still waiting or still to be drawn.
pub record Distinct (s : Hub) : Type 0 where
  pub apart : (i j n : ℕ) → inst i s.loops ≡ some n → inst j s.loops ≡ some n → i ≡ j
  pub old_loops : (i n : ℕ) → inst i s.loops ≡ some n → n < s.next_instance
  pub not_drawn : (i n : ℕ) → inst i s.loops ≡ some n → get n s.drawn ≡ none
  pub old_drawn : (k : ℕ) (x : List ℕ) → get k s.drawn ≡ some x → k < s.next_instance

abbrev pub Accurate : Hub → Type 0
Accurate s =
    ((x : List ℕ) (i : ℕ) → (get x s.online ≡ some i) ↔ Newest s.loops x i) × Fresh s × Distinct s

-- A step that changes neither `online`, nor the counters, nor which loops have cleaned up.
abbrev pub Same : Hub → Hub → Type 0
Same s t =
    (t.online ≡ s.online)
    × (t.next_loop ≡ s.next_loop)
    × ((j : ℕ) → view j t.loops ≡ view j s.loops)
    × (t.next_instance ≡ s.next_instance)
    × (t.drawn ≡ s.drawn)
    × ((j : ℕ) → inst j t.loops ≡ inst j s.loops)

same-Distinct : (s t : Hub) → Same s t → Distinct s → Distinct t
same-Distinct s t (o, l, same, n, d, insts) v = record {
  apart = λ i j k e f. v.apart i j k (sym (insts i) ∙ e) (sym (insts j) ∙ f);
  old_loops = λ i k e. omega (arith, n, v.old_loops i k (sym (insts i) ∙ e));
  not_drawn = λ i k e. ap (get k) d ∙ v.not_drawn i k (sym (insts i) ∙ e);
  old_drawn = λ k x e. omega (arith, n, v.old_drawn k x (sym (ap (get k) d) ∙ e));
}

pub same-Accurate : (s t : Hub) → Same s t → Accurate s → Accurate t
same-Accurate s t (o, n, same, m, d, insts) v = (
  λ x i. (
    λ e. (
      same i ∙ ((v.0 x i).0 (rw (← o) e)).0,
      λ j b f. ((v.0 x i).0 (rw (← o) e)).1 j b (sym (same j) ∙ f),
    ),
    λ w. rw (o) ((v.0 x i).1 (sym (same i) ∙ w.0, λ j b f. w.1 j b (same j ∙ f))),
  ),
  (λ j h. same j ∙ v.1 j (rw (← n) h)),
  same-Distinct s t (o, n, same, m, d, insts) v.2,
)

pub set_loop-Same :
    (i : ℕ) (l l' : HostLoop) (s t : Hub)
    → get i s.loops ≡ some l
    → (l'.host_id ≡ l.host_id) × (l'.entered ≡ l.entered) × (l'.instance ≡ l.instance)
    → (t.online ≡ s.online)
      × (t.next_loop ≡ s.next_loop)
      × (t.loops ≡ s.loops)
      × (t.next_instance ≡ s.next_instance)
      × (t.drawn ≡ s.drawn)
    → Same s (set_loop i l' t)
unfolding view inst
set_loop-Same i l l' s t e same rest = (
  rest.0,
  rest.1,
  (λ j. rw (rest.2) (ground (arith, get-insert i j l' s.loops, e, same))),
  rest.3,
  rest.4,
  λ j. rw (rest.2) (ground (arith, get-insert i j l' s.loops, e, same)),
)

pub view-insert :
    (i j : ℕ) (l : HostLoop) (loops : Map ℕ HostLoop)
    → view j (insert i l loops) ≡ (if i == j then some (l.host_id, l.entered) else view j loops)
unfolding view
view-insert i j l loops = ground (arith, get-insert i j l loops)

abbrev pub Below : ℕ → Map ℕ HostLoop → Type 0
Below n loops = (j : ℕ) → n ≤ j → view j loops ≡ none

pub entered_self :
    (n k : ℕ) (x : List ℕ) (loops : Map ℕ HostLoop) (i : ℕ)
    → Below n loops
    → Newest (insert n (new_loop k x) loops) x i ↔ (i ≡ n)
entered_self n k x loops i below = (
  λ (e, w).
      let a = w n true (ground (arith, view-insert n n (new_loop k x) loops)) in
      ground (arith, view-insert n i (new_loop k x) loops, below i, a),
  λ same. (
    ground (arith, view-insert n i (new_loop k x) loops),
    λ j b f. ground (arith, view-insert n j (new_loop k x) loops, below j),
  ),
)

pub entered_other :
    (n k : ℕ) (x y : List ℕ) (loops : Map ℕ HostLoop) (i : ℕ)
    → x ≢ y
    → Below n loops
    → Newest (insert n (new_loop k x) loops) y i ↔ Newest loops y i
entered_other n k x y loops i ne below = (
  λ (e, w). (
    ground (arith, view-insert n i (new_loop k x) loops),
    λ j b f. w j b (ground (arith, view-insert n j (new_loop k x) loops, below j)),
  ),
  λ (e, w). (
    ground (arith, view-insert n i (new_loop k x) loops, below i),
    λ j b f. w j b (ground (arith, view-insert n j (new_loop k x) loops)),
  ),
)

ℕ_cases : (i k : ℕ) → (i ≡ k) ⊎ (i ≢ k)
ℕ_cases i k = omega arith

-- When a loop has cleaned up, the other loops stay the newest of their hosts.
pub ended :
    (i : ℕ) (l l' : HostLoop) (loops : Map ℕ HostLoop) (y : List ℕ) (j : ℕ)
    → view i loops ≡ some (l.host_id, l.entered)
    → (l'.host_id ≡ l.host_id) × (l'.entered ≡ false)
    → Newest (insert i l' loops) y j ↔ (Newest loops y j × (j ≢ i))
ended i l l' loops y j e same = (
  λ (f, w). (
    (
      ground (arith, view-insert i j l' loops),
      λ k b g. elim (ℕ_cases i k) [
        | inl ik ↦ w k false (ground (arith, view-insert i k l' loops))
        | inr ne ↦ w k b (ground (arith, view-insert i k l' loops))
      ],
    ),
    λ ji. ground (arith, view-insert i j l' loops),
  ),
  λ ((f, w), ne). (
    ground (arith, view-insert i j l' loops),
    λ k b g. elim (ℕ_cases i k) [
      | inl ik ↦ w k l.entered (ground (arith, view-insert i k l' loops))
      | inr ne ↦ w k b (ground (arith, view-insert i k l' loops))
    ],
  ),
)
