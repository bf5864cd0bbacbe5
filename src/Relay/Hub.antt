-- ===== src/Relay/Hub.antt =====
-- relay/src/main.rs: the PCs that are online and the phones that are connected. Each run of `host_loop`
-- is known by a number, in the order in which they come into `online`, and each run of `client_loop` by
-- another; a clone of a sender, of the map of clients or of a cancel signal is that number, which leads to
-- the one object that is shared.
pub mod Host
pub mod Client
pub mod History
pub mod Invariant
pub mod Reachable
pub mod ToPhones
pub mod ToHosts
pub mod Isolation
pub mod Newest
pub mod Unmoved
pub mod Moves
pub mod Counter
pub mod Online
use remote_control.Base.{
  ℕ, suc, ◌+◌, ◌%◌, ◌^◌, Bool, true, false, List, [], ◌∷◌, ◌++◌, Option, none, some, Map, get,
  insert, nat_eq, list_eq,
}
use remote_control.Relay.Frame.{TunnelFrame}
use remote_control.Relay.Pipe.{PhoneOut, Pipe}

abbrev pub to_host_queue_cap : ℕ
to_host_queue_cap = 32

-- A run of `host_loop`. `instance` is `my_instance`, `reading` its loop, `entered` says that its clean-up
-- of `online` has not run, `writing` is its writer task, `wire` what the PC was sent, `cancelled` the permit
-- of `cancel`, and `pending` a frame whose `bulk.send` is awaited.
pub record HostLoop : Type 0 where
  pub instance : ℕ
  pub host_id : List ℕ
  pub to_host : List TunnelFrame
  pub clients : Map (List ℕ) ℕ
  pub cancelled : Bool
  pub reading : Bool
  pub entered : Bool
  pub writing : Bool
  pub pending : Option (ℕ × PhoneOut)
  pub wire : List (List ℕ)

abbrev pub new_loop : ℕ → List ℕ → HostLoop
new_loop instance host_id = record {
  instance = instance;
  host_id = host_id;
  to_host = [];
  clients = [];
  cancelled = false;
  reading = true;
  entered = true;
  writing = true;
  pending = none;
  wire = [];
}

-- How far `client_loop` is: `ClientOpen` to be sent, its reader at work, `ClientClose` to be sent, done.
pub data Phase : Type 0 where
  opening serving closing done : Phase

-- A run of `client_loop`; `link` is the `host_loop` whose `to_host` and `clients` it took.
pub record Phone : Type 0 where
  pub client_id : List ℕ
  pub host_id : List ℕ
  pub link : ℕ
  pub phase : Phase
  pub pipe : Pipe

-- `online` leads to the run of `host_loop` whose `OnlineHost` it keeps. `drawn` has the runs that have drawn
-- their instance and wait for the lock of `online`, with their hosts, `displaced` the runs whose entry was
-- taken over and that are not told yet.
pub record Hub : Type 0 where
  pub online : Map (List ℕ) ℕ
  pub next_instance : ℕ
  pub drawn : Map ℕ (List ℕ)
  pub next_loop : ℕ
  pub displaced : List ℕ
  pub loops : Map ℕ HostLoop
  pub phones : Map ℕ Phone
  pub next_phone : ℕ

abbrev pub new_hub : Hub
new_hub = record {
  online = [];
  next_instance = 0;
  drawn = [];
  next_loop = 0;
  displaced = [];
  loops = [];
  phones = [];
  next_phone = 0;
}

abbrev pub set_loop : ℕ → HostLoop → Hub → Hub
set_loop i l s = record s { loops = insert i l s.loops }

abbrev pub set_phone : ℕ → Phone → Hub → Hub
set_phone h p s = record s { phones = insert h p s.phones }

abbrev pub set_pipe : ℕ → Phone → Pipe → Hub → Hub
set_pipe h p pipe s = set_phone h (record p { pipe = pipe }) s

-- An action of a loop or of a phone that there is.
unfoldable pub with_loop : ℕ → Hub → (HostLoop → Hub) → Hub
with_loop i s f = elim (get i s.loops) [ none ↦ s | some l ↦ f l ]

unfoldable pub with_phone : ℕ → Hub → (Phone → Hub) → Hub
with_phone h s f = elim (get h s.phones) [ none ↦ s | some p ↦ f p ]
