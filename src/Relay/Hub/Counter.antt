-- ===== src/Relay/Hub/Counter.antt =====
-- relay/src/main.rs: a step draws at most one instance.
use remote_control.Base.{◌+◌, ◌≤◌, nat_eq, list_eq, arith}
use remote_control.Relay.Hub.{Hub, with_loop, with_phone}
use remote_control.Relay.Hub.Client.{
  phone_enters, open_client, phone_opens, forward, on_phone_msg, when_serving, phone_message,
  close_client, phone_closes, phone_writes,
}
use remote_control.Relay.Hub.History.{
  Event, enters, draws, displaces, message, cancelled, delivers, leaves, clears, writes,
  client_enters, client_opens, client_closes, client_message, client_writes, step,
}
use remote_control.Relay.Hub.Host.{
  displace, host_displaces, host_enters, binary, host_end, host_other, end_reader, to_client,
  on_frame, on_host_msg, host_message, host_cancelled, host_delivers, host_writes, host_clears,
  host_leaves, host_draws, clean_up,
}

pub step_next : (e : Event) (s : Hub) → (step e s).next_instance ≤ s.next_instance + 1
unfolding step host_enters host_displaces displace host_message host_cancelled host_delivers
    host_leaves host_clears host_draws host_writes phone_enters phone_opens phone_closes
    phone_message phone_writes with_loop with_phone on_host_msg on_frame to_client end_reader
    clean_up open_client close_client forward on_phone_msg when_serving
step_next (draws x) s = ground arith
step_next (enters k) s = ground arith
step_next (displaces j) s = ground arith
step_next (message i (binary b)) s = ground arith
step_next (message i host_end) s = ground arith
step_next (message i host_other) s = ground arith
step_next (cancelled i) s = ground arith
step_next (delivers i) s = ground arith
step_next (leaves i) s = ground arith
step_next (clears i) s = ground arith
step_next (writes i sent) s = ground arith
step_next (client_enters x c) s = ground arith
step_next (client_opens h) s = ground arith
step_next (client_closes h) s = ground arith
step_next (client_message h msg) s = ground arith
step_next (client_writes h sent) s = ground arith
