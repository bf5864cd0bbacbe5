-- ===== src/FileSend/Slot.antt =====
-- server-pc/src/file_send.rs: who holds the slot, over every history of sessions.
use remote_control.Base.{
  ℕ, suc, ◌+◌, ◌^◌, ◌<◌, ◌≡◌, refl, ◌≢◌, ◌⊎◌, inl, inr, List, [], ◌∷◌, ◌++◌, Option, none, some,
  ◌==◌, nat_eq, if◌then◌else◌, arith, get, get-insert_self, Option-cases, length, ◌∙◌, sym,
  get-insert_ne,
}
use remote_control.FileSend.{
  FileSendBridge, FileSendCmd, Channels, register, deregister, dispatch, dispatch_dry_run,
  no_session, session_gone,
}

-- A session registers its channel; a session with some instance leaves.
pub data Event : Type 0 where
  enters : ℕ → Event
  leaves : ℕ → Event

unfoldable pub step : FileSendBridge → Event → FileSendBridge
step b (enters tx) = (register b tx).0
step b (leaves i) = deregister b i

unfoldable pub run : FileSendBridge → List Event → FileSendBridge
run b [] = b
run b (e ∷ es) = run (step b e) es

unfoldable pub without : ℕ → Option (ℕ × ℕ) → Option (ℕ × ℕ)
without i none = none
without i (some (j, tx)) = if j == i then none else some (j, tx)

-- The specification: the last session that entered, unless it is that one that left. The sessions
-- are numbered from `n` in the order in which they enter.
unfoldable pub holder : ℕ → Option (ℕ × ℕ) → List Event → Option (ℕ × ℕ)
holder n h [] = h
holder n h (enters tx ∷ es) = holder (suc n) (some (n, tx)) es
holder n h (leaves i ∷ es) = holder n (without i h) es

deregister-without : (b : FileSendBridge) (i : ℕ) → (deregister b i).inner ≡ without i b.inner
unfolding deregister without
deregister-without b i = ground arith

deregister_next : (b : FileSendBridge) (i : ℕ) → (deregister b i).next_instance ≡ b.next_instance
unfolding deregister
deregister_next b i = ground arith

-- After any history of fewer than 2^64 events the slot is held by the session that entered last, if
-- that session has not left, and by nobody otherwise: an older session that leaves late does not
-- take the slot from its successor.
pub run-holder :
    (b : FileSendBridge) (es : List Event)
    → b.next_instance + length es < 2 ^ 64
    → (run b es).inner ≡ holder b.next_instance b.inner es
unfolding run holder step
run-holder b [] h = refl
run-holder b (enters tx ∷ es) h =
    let next : (register b tx).0.next_instance ≡ suc b.next_instance =
      unfold register in omega arith in
    run-holder (register b tx).0 es (omega arith) ∙ rw next (unfold register in refl)
run-holder b (leaves i ∷ es) h =
    run-holder (deregister b i) es (omega (arith, deregister_next b i))
    ∙ rw (deregister_next b i, deregister-without b i)

-- A command reaches exactly the session that holds the slot: its channel must still be open, then the
-- command is the last of that queue and no other queue changes. Otherwise nothing changes, and the
-- error tells an empty slot from a session that is gone. The dry run tests the slot alone.
pub dispatch_outcome :
    (b : FileSendBridge) (channels : Channels) (cmd : FileSendCmd)
    → ((b.inner ≡ none)
        × (dispatch b channels cmd ≡ (channels, some no_session))
        × (dispatch_dry_run b ≡ some no_session))
      ⊎ ((i : ℕ) × (tx : ℕ) × (b.inner ≡ some (i, tx))
          × (dispatch_dry_run b ≡ none)
          × (((get tx channels ≡ none) × (dispatch b channels cmd ≡ (channels, some session_gone)))
              ⊎ ((queue : List FileSendCmd) × (get tx channels ≡ some queue)
                  × ((dispatch b channels cmd).1 ≡ none)
                  × (get tx (dispatch b channels cmd).0 ≡ some (queue ++ (cmd ∷ [])))
                  × ((c : ℕ) → c ≢ tx → get c (dispatch b channels cmd).0 ≡ get c channels))))
unfolding dispatch dispatch_dry_run
dispatch_outcome b channels cmd = elim (Option-cases b.inner) [
  | inl e ↦ inl (e, rw (e, dispatch), rw (e, dispatch_dry_run))
  | inr ((i, tx), e) ↦ elim (Option-cases (get tx channels)) [
    | inl g ↦ inr (i, tx, e, rw (e, dispatch_dry_run), inl (g, rw (e, dispatch) (rw g)))
    | inr (queue, g) ↦ inr (
      i,
      tx,
      e,
      rw (e, dispatch_dry_run),
      inr (
        queue,
        g,
        rw (e, dispatch) (rw g),
        rw (e, dispatch) (rw g (get-insert_self tx (queue ++ (cmd ∷ [])) channels)),
        λ c ne.
            rw (e, dispatch)
              (rw g (get-insert_ne tx c (queue ++ (cmd ∷ [])) channels (λ q. ne (sym q)))),
      ),
    )
  ]
]
