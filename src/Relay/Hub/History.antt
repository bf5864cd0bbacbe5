-- ===== src/Relay/Hub/History.antt =====
-- relay/src/main.rs: the tasks of the relay, in any order of their steps.
use remote_control.Base.{ℕ, Bool, List, [], ◌∷◌}
use remote_control.Relay.Hub.{Hub}
use remote_control.Relay.Hub.Client.{
  PhoneMsg, phone_enters, phone_opens, phone_message, phone_closes, phone_writes,
}
use remote_control.Relay.Hub.Host.{
  HostMsg, host_draws, host_enters, host_displaces, host_leaves, host_message, host_cancelled,
  host_delivers, host_writes, host_clears,
}

pub data Event : Type 0 where
  draws : List ℕ → Event
  enters : ℕ → Event
  message : ℕ → HostMsg → Event
  displaces cancelled delivers leaves clears : ℕ → Event
  writes : ℕ → Bool → Event
  client_enters : List ℕ → List ℕ → Event
  client_opens client_closes : ℕ → Event
  client_message : ℕ → PhoneMsg → Event
  client_writes : ℕ → Bool → Event

unfoldable pub step : Event → Hub → Hub
step (draws host_id) s = host_draws host_id s
step (enters instance) s = host_enters instance s
step (displaces j) s = host_displaces j s
step (message i msg) s = host_message i msg s
step (cancelled i) s = host_cancelled i s
step (delivers i) s = host_delivers i s
step (leaves i) s = host_leaves i s
step (clears i) s = host_clears i s
step (writes i sent) s = host_writes i sent s
step (client_enters host_id client_id) s = phone_enters host_id client_id s
step (client_opens h) s = phone_opens h s
step (client_closes h) s = phone_closes h s
step (client_message h msg) s = phone_message h msg s
step (client_writes h sent) s = phone_writes h sent s

unfoldable pub run : List Event → Hub → Hub
run [] s = s
run (e ∷ es) s = run es (step e s)

-- Whose task takes a step.
pub data Task : Type 0 where
  host_task : ℕ → Task
  client_task : ℕ → Task
  newcomer : Task

unfoldable pub task : Event → Task
task (message i msg) = host_task i
task (cancelled i) = host_task i
task (delivers i) = host_task i
task (leaves i) = host_task i
task (clears i) = host_task i
task (writes i sent) = host_task i
task (client_opens h) = client_task h
task (client_closes h) = client_task h
task (client_message h msg) = client_task h
task (client_writes h sent) = client_task h
task (draws x) = newcomer
task (enters k) = newcomer
task (displaces j) = newcomer
task (client_enters x c) = newcomer
