-- ===== src/Tests/Ordering.antt =====
-- The ordering command on two sessions.
use xeneon_edge_agents.Runtime.Daemon.{try_send_all}
use xeneon_edge_agents.Base.{string_eq}
use xeneon_edge_agents.Model.{agent_order_mode_eq}
use xeneon_edge_agents.Model.{agent_backend_eq}
use xeneon_edge_agents.Base.{nat_eq}
use xeneon_edge_agents.Base.{◌≡◌, refl, false, none, some, List, [], ◌∷◌, All}
use xeneon_edge_agents.Base.Map.{insert, lookup}
use xeneon_edge_agents.Model.{ActionKind, AgentBackend, AgentOrderMode, PortalCommand}
use xeneon_edge_agents.Herdr.{SessionDescriptor}
use xeneon_edge_agents.Runtime.Daemon.{Daemon}
use xeneon_edge_agents.Runtime.State.{action_ok, action_error}
use xeneon_edge_agents.Runtime.Order.{
  process_agent_order_command, preflight, set_all, compensate, verify, roll_back, commit_order,
  set_herdr_order, order_herdr,
}
use xeneon_edge_agents.Runtime.Order.Atomic.{order-restores, order-synchronizes}
use xeneon_edge_agents.Tests.Demo.{
  stores, set_order, demo, demo_left, demo-IsHerdr, demo_daemon, left_session, right_session,
  request,
}

abbrev prioritise : PortalCommand
prioritise = request ActionKind.order_priority 1 none

abbrev before : Daemon
before = demo_daemon 1 AgentBackend.herdr none

refused : (process_agent_order_command demo prioritise 5 before []).0.succeeded ≡ false
unfolding process_agent_order_command order_herdr set_herdr_order roll_back set_all compensate
    verify preflight set_order stores insert lookup action_error nat_eq agent_backend_eq
    agent_order_mode_eq string_eq
refused = refl

order-restores_example :
    All
      (λ (e : SessionDescriptor).
        stores (process_agent_order_command demo prioritise 5 before []).2 e.socket_path
        ≡ stores [] e.socket_path)
      (left_session ∷ right_session ∷ [])
unfolding process_agent_order_command order_herdr set_herdr_order roll_back set_all compensate
    verify preflight set_order stores insert lookup action_error nat_eq agent_backend_eq
    agent_order_mode_eq string_eq try_send_all
order-restores_example =
    order-restores demo stores (demo-IsHerdr (left_session ∷ right_session ∷ [])) prioritise 5
      before [] (left_session ∷ right_session ∷ []) refl refl refused refl

order-synchronizes_example :
    (ds : List SessionDescriptor) × ((demo_left.discover []).0 ≡ some ds)
    × All
        (λ (e : SessionDescriptor).
          stores (process_agent_order_command demo_left prioritise 5 before []).2 e.socket_path
          ≡ AgentOrderMode.priority)
        ds
unfolding process_agent_order_command order_herdr set_herdr_order commit_order set_all preflight
    set_order stores insert lookup action_ok nat_eq agent_backend_eq agent_order_mode_eq string_eq
order-synchronizes_example =
    order-synchronizes demo_left stores (demo-IsHerdr (left_session ∷ [])) prioritise 5 before []
      refl refl
