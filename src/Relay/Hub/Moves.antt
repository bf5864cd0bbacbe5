-- ===== src/Relay/Hub/Moves.antt =====
-- relay/src/main.rs: the steps of `host_loop` that change `online` or draw an instance.
use remote_control.Base.{
  ℕ, ◌+◌, ◌<◌, ◌^◌, ◌≡◌, refl, ◌≢◌, ◌↔◌, inl, inr, Bool, true, false, List, Option, none, some,
  ◌==◌, nat_eq, list_eq, ==→eq, ==_false, ◌⊎◌, Map, get, insert, remove, get-insert, get-remove,
  if◌then◌else◌, subst, sym, ◌∙◌, arith, Bool-cases, Option-cases, ap, some_injective,
}
use remote_control.Relay.Hub.{HostLoop, new_loop, Hub}
use remote_control.Relay.Hub.Host.{enter, host_draws, clean_up, still_ours}
use remote_control.Relay.Hub.Newest.{
  view, inst, Newest, Accurate, Distinct, entered_self, entered_other, ended, view-insert,
}

inst-insert :
    (i j : ℕ) (l : HostLoop) (loops : Map ℕ HostLoop)
    → inst j (insert i l loops) ≡ (if i == j then some l.instance else inst j loops)
unfolding inst
inst-insert i j l loops = ground (arith, get-insert i j l loops)

found_view :
    (i : ℕ) (l : HostLoop) (loops : Map ℕ HostLoop)
    → get i loops ≡ some l
    → (view i loops ≡ some (l.host_id, l.entered)) × (inst i loops ≡ some l.instance)
unfolding view inst
found_view i l loops e = (rw (e, view) refl, rw (e, inst) refl)

view_found :
    (i : ℕ) (v : List ℕ × Bool) (loops : Map ℕ HostLoop)
    → view i loops ≡ some v
    → (l : HostLoop) × (get i loops ≡ some l)
unfolding view
view_found i v loops e = elim (Option-cases (get i loops)) [
  | inl f ↦ absurd cc
  | inr (l, f) ↦ (l, f)
]

-- The next instance is drawn.
pub draws-Accurate :
    (x : List ℕ) (s : Hub) → s.next_instance + 1 < 2 ^ 64 → Accurate s → Accurate (host_draws x s)
unfolding host_draws
draws-Accurate x s small v = (
  v.0,
  v.1,
  record {
    apart = v.2.apart;
    old_loops = λ i n e. omega (arith, v.2.old_loops i n e);
    not_drawn = λ i n e.
        ground
          (arith, get-insert s.next_instance n x s.drawn, v.2.old_loops i n e, v.2.not_drawn i n e);
    old_drawn = λ k y e. ground (arith, get-insert s.next_instance k x s.drawn, v.2.old_drawn k y);
  },
)

enter-Distinct :
    (k : ℕ) (x : List ℕ) (s : Hub) → get k s.drawn ≡ some x → Distinct s → Distinct (enter k x s)
enter-Distinct k x s e v = record {
  apart = λ i j n f g. ground (
    arith,
    inst-insert s.next_loop i (new_loop k x) s.loops,
    inst-insert s.next_loop j (new_loop k x) s.loops,
    v.apart i j n,
    v.not_drawn i n,
    v.not_drawn j n,
  );
  old_loops = λ i n f.
      ground (
        arith,
        inst-insert s.next_loop i (new_loop k x) s.loops,
        v.old_loops i n,
        v.old_drawn k x e,
      );
  not_drawn = λ i n f. ground (
    arith,
    inst-insert s.next_loop i (new_loop k x) s.loops,
    get-remove k n s.drawn,
    v.not_drawn i n,
  );
  old_drawn = λ j y f. ground (arith, get-remove k j s.drawn, v.old_drawn j y);
}

-- A loop under the next number.
pub enter-Accurate :
    (k : ℕ) (x : List ℕ) (s : Hub) → get k s.drawn ≡ some x → Accurate s → Accurate (enter k x s)
enter-Accurate k x s e v = (
  (λ y i. by_host y i (Bool-cases (x == y))),
  (λ j h. ground (arith, view-insert s.next_loop j (new_loop k x) s.loops, v.1 j)),
  enter-Distinct k x s e v.2,
)
  where
    by_host :
        (y : List ℕ) (i : ℕ)
        → ((x == y) ≡ true) ⊎ ((x == y) ≡ false)
        → (get y (enter k x s).online ≡ some i) ↔ Newest (enter k x s).loops y i
    by_host y i (inl t) =
        let same : x ≡ y = ==→eq x y t in
        let now = entered_self s.next_loop k x s.loops i v.1 in
        (
          λ f.
              subst (λ z. Newest (enter k x s).loops z i) same
                (now.1 (ground (arith, get-insert x y s.next_loop s.online))),
          λ f.
              let n = now.0 (subst (λ z. Newest (enter k x s).loops z i) (sym same) f) in
              ground (arith, n, get-insert x y s.next_loop s.online),
        )
    by_host y i (inr t) =
        let now = entered_other s.next_loop k x y s.loops i (==_false x y t) v.1 in
        (
          λ f. now.1 ((v.0 y i).0 (ground (arith, get-insert x y s.next_loop s.online))),
          λ f.
              let old = (v.0 y i).1 (now.0 f) in
              ground (arith, old, get-insert x y s.next_loop s.online),
        )

-- The entry is the loop's own.
abbrev is_entry : ℕ → Option ℕ → Bool
is_entry i none = false
is_entry i (some j) = j == i

-- By their instances the clean-up tells its own entry from a successor's.
still_ours-is_entry :
    (i : ℕ) (l : HostLoop) (s : Hub)
    → get i s.loops ≡ some l
    → Accurate s
    → still_ours l.instance (get l.host_id s.online) s.loops ≡ is_entry i (get l.host_id s.online)
unfolding still_ours
still_ours-is_entry i l s e v = by_entry (Option-cases (get l.host_id s.online))
  where
    by_entry :
        (get l.host_id s.online ≡ none) ⊎ ((j : ℕ) × (get l.host_id s.online ≡ some j))
        → still_ours l.instance (get l.host_id s.online) s.loops
          ≡ is_entry i (get l.host_id s.online)
    by_entry (inl f) = rw (f) refl
    by_entry (inr (j, f)) =
        let (h, g) = view_found j _ s.loops ((v.0 l.host_id j).0 f).0 in
        let one : h.instance ≡ l.instance → j ≡ i = λ q.
          v.2.apart j i l.instance ((found_view j h s.loops g).1 ∙ ap some q)
            (found_view i l s.loops e).1 in
        let back : j ≡ i → h.instance ≡ l.instance =
          λ q. ap (λ x. x.instance) (some_injective (sym g ∙ ap (λ k. get k s.loops) q ∙ e)) in
        rw (f) (rw (g, still_ours) (ground (arith, one, back)))

-- The clean-up drops an entry only if it is the loop's own.
removed :
    (i : ℕ) (x : List ℕ) (m : Map (List ℕ) ℕ) (y : List ℕ) (j : ℕ)
    → (get y (if is_entry i (get x m) then remove x m else m) ≡ some j)
      ↔ ((get y m ≡ some j) × (x ≡ y → j ≢ i))
removed i x m y j = ground (arith, get-remove x y m, list_eq.test_iff x y)

clean_up-online :
    (i : ℕ) (l : HostLoop) (s : Hub)
    → get i s.loops ≡ some l
    → Accurate s
    → (y : List ℕ) (j : ℕ)
    → (get y (clean_up i l s).online ≡ some j)
      ↔ ((get y s.online ≡ some j) × (l.host_id ≡ y → j ≢ i))
unfolding clean_up
clean_up-online i l s e v y j =
    rw (still_ours-is_entry i l s e v) (removed i l.host_id s.online y j)

clean_up-Distinct :
    (i : ℕ) (l : HostLoop) (s : Hub)
    → get i s.loops ≡ some l
    → Distinct s
    → Distinct (clean_up i l s)
unfolding clean_up
clean_up-Distinct i l s e v = record {
  apart = λ a b n f g. v.apart a b n (sym (same a) ∙ f) (sym (same b) ∙ g);
  old_loops = λ a n f. v.old_loops a n (sym (same a) ∙ f);
  not_drawn = λ a n f. v.not_drawn a n (sym (same a) ∙ f);
  old_drawn = v.old_drawn;
}
  where
    same : (a : ℕ) → inst a (insert i (record l { entered = false }) s.loops) ≡ inst a s.loops
    same a = ground (
      arith,
      inst-insert i a (record l { entered = false }) s.loops,
      (found_view i l s.loops e).1,
    )

pub clean_up-Accurate :
    (i : ℕ) (l : HostLoop) (s : Hub)
    → get i s.loops ≡ some l
    → Accurate s
    → Accurate (clean_up i l s)
unfolding clean_up
clean_up-Accurate i l s e v =
    let l' : HostLoop = record l { entered = false } in
    let seen = (found_view i l s.loops e).0 in
    let now : (y : List ℕ) (j : ℕ)
        → Newest (clean_up i l s).loops y j ↔ (Newest s.loops y j × (j ≢ i)) =
      λ y j. ended i l l' s.loops y j seen (refl, refl) in
    (
      (λ y j. (
        λ f.
            let (p, q) = (clean_up-online i l s e v y j).0 f in
            let n = (v.0 y j).0 p in (now y j).1 (n, λ ji. q (cc (n.0, seen, ji)) ji),
        λ w.
            (clean_up-online i l s e v y j).1
              ((v.0 y j).1 ((now y j).0 w).0, λ xy. ((now y j).0 w).1),
      )),
      (λ j h. ground (arith, view-insert i j l' s.loops, v.1 j, v.1 i)),
      clean_up-Distinct i l s e v.2,
    )
