-- ===== src/Agent/Server/Routes.antt =====
-- server.ts of the agent: which requests may change the state.
use xrpl.Prelude.{◌≡◌, refl, Option, none, some, arith}
use xrpl.Js.Text.{Text, lit, same_iff, before}
use xrpl.Agent.Handlers.{AgentState}
use xrpl.Agent.Server.{AgentServer, route, handle_request, serve}

route-keeps :
    (server : AgentServer) (clean method body : Text) (s : AgentState)
    → ¬ ((clean ≡ lit "/action") × (method ≡ lit "POST"))
    → (route server clean method body s).1 ≡ s
unfolding route
route-keeps server clean method body s not_action =
    ground (arith, same_iff clean (lit "/action"), same_iff method (lit "POST"))

-- A request to the agent that is not a POST of `/action`, or whose body cannot be read, leaves the state
-- as it was.
pub agent_serve-keeps :
    (server : AgentServer) (method url : Text) (body : Option Text) (s : AgentState)
    → ¬ ((before b'?' url ≡ lit "/action") × (method ≡ lit "POST"))
    → (serve server method url body s).1 ≡ s
unfolding serve handle_request
agent_serve-keeps server method url none s not_action = refl
agent_serve-keeps server method url (some body) s not_action =
    route-keeps server (before b'?' url) method body s not_action
