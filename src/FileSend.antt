-- ===== src/FileSend.antt =====
-- server-pc/src/file_send.rs: the slot through which the HTTP server reaches the phone session that
-- receives files. The state behind the mutex and the atomics is a record; a command channel is a
-- number, and `Channels` holds the queue of every channel whose receiver is still there.
pub mod Slot
pub mod Ids
use remote_control.Base.{
  ℕ, ◌+◌, ◌%◌, ◌^◌, ◌++◌, Bool, true, false, List, [], ◌∷◌, Option, none, some, ◌==◌, nat_eq, Map,
  get, insert, if◌then◌else◌, String,
}
use remote_control.Files.{FilePath}

pub data FileSendCmd : Type 0 where
  send : ℕ → List ℕ → ℕ → FilePath → FileSendCmd
  cancel : ℕ → FileSendCmd

abbrev pub Channels : Type 0
Channels = Map ℕ (List FileSendCmd)

pub record FileSendBridge : Type 0 where
  pub inner : Option (ℕ × ℕ)
  pub next_instance : ℕ
  pub next_transfer_id : ℕ

unfoldable pub new_bridge : FileSendBridge
new_bridge = record { inner = none; next_instance = 0; next_transfer_id = 1 }

-- `fetch_add` on an atomic wraps.
unfoldable pub allocate_transfer_id : FileSendBridge → FileSendBridge × ℕ
allocate_transfer_id b =
    let next = (b.next_transfer_id + 1) % 2 ^ 32 in
    if b.next_transfer_id == 0
    then (record b { next_transfer_id = (next + 1) % 2 ^ 32 }, next)
    else (record b { next_transfer_id = next }, b.next_transfer_id)

-- The registration is the instance.
unfoldable pub register : FileSendBridge → ℕ → FileSendBridge × ℕ
register b tx = (
  record b { inner = some (b.next_instance, tx); next_instance = (b.next_instance + 1) % 2 ^ 64 },
  b.next_instance,
)

unfoldable pub deregister : FileSendBridge → ℕ → FileSendBridge
deregister b reg = elim b.inner [
  | none ↦ b
  | some (cur, _) ↦ if cur == reg then record b { inner = none } else b
]

pub data DispatchError : Type 0 where
  no_session session_gone : DispatchError

-- The channels after `dispatch`, and what it returned.
unfoldable pub dispatch : FileSendBridge → Channels → FileSendCmd → Channels × Option DispatchError
dispatch b channels cmd = elim b.inner [
  | none ↦ (channels, some no_session)
  | some (_, tx) ↦ elim (get tx channels) [
    | none ↦ (channels, some session_gone)
    | some queue ↦ (insert tx (queue ++ (cmd ∷ [])) channels, none)
  ]
]

unfoldable pub dispatch_dry_run : FileSendBridge → Option DispatchError
dispatch_dry_run b = elim b.inner [ none ↦ some no_session | some s ↦ none ]
