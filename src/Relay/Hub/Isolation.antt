-- ===== src/Relay/Hub/Isolation.antt =====
-- relay/src/main.rs: the phones of one PC and the tunnel of another do not meet.
use remote_control.Base.{ℕ, ◌≡◌, ◌≢◌, List, some, nat_eq, list_eq, get}
use remote_control.Relay.Hub.{HostLoop, Phone, new_hub}
use remote_control.Relay.Hub.History.{Event, step, run}
use remote_control.Relay.Hub.Invariant.{Inv}
use remote_control.Relay.Hub.Reachable.{reachable-Inv}
use remote_control.Relay.Hub.History.{host_task, client_task, task}
use remote_control.Relay.Hub.ToHosts.{client_step}
use remote_control.Relay.Hub.ToPhones.{host_step}

-- After any history, a PC's tunnel and a phone that asked for another host do
-- not touch each other: no step of the PC's tasks changes anything of the phone, its queues and its
-- socket included, and no step of the phone's tasks changes anything of the tunnel.
pub isolation :
    (es : List Event) (i : ℕ) (l : HostLoop) (h : ℕ) (p : Phone)
    → get i (run es new_hub).loops ≡ some l
    → get h (run es new_hub).phones ≡ some p
    → l.host_id ≢ p.host_id
    → (e : Event)
    → (task e ≡ host_task i → get h (step e (run es new_hub)).phones ≡ some p)
      × (task e ≡ client_task h → get i (step e (run es new_hub)).loops ≡ some l)
isolation es i l h p there here ne e =
    let v : Inv (run es new_hub) = reachable-Inv es in
    (
      host_step i l h p (run es new_hub) v there here ne e,
      client_step i l h p (run es new_hub) v there here ne e,
    )
