-- ===== src/Protocols/Http/Exchange/Tests.antt =====
-- A response as the server sends it when it is overloaded.
use honey_mind.Protocols.Io.{done}
use honey_mind.Config.Schema.{EndpointConfig, new_endpoint, http}
use honey_mind.Protocols.Http.Exchange.{handle, find_end}
use honey_mind.Protocols.Http.Exchange.Client.{handle-print_request}
use honey_mind.Protocols.Http.Exchange.Served.{IsReplied, handle-IsReplied}
use honey_mind.Protocols.Http.Request.{parse_request}
use honey_mind.Protocols.Http.Request.Printed.{print_request}
use honey_mind.Protocols.Http.Request.Tests.{
  host_header, agent_header, host_header-IsHeader, agent_header-IsHeader, get_line,
}
use honey_mind.Protocols.Io.Script.{conn, script, concat}
use honey_mind.Protocols.Io.Triples.{limits_of, Good}
use honey_mind.Protocols.Tests.{fresh_session, fresh_session-Good, address}
use honey_mind.Session.State.{
  http_request, remaining_input, new_session, SessionState, server_closed, push_event,
}
use honey_mind.Base.Text.{take_chars, lowercase}
use honey_mind.Base.{
  ◌==◌, if◌then◌else◌, Bytes, codes, ℕ, refl, true, false, Option, none, some, length, take, ◌≡◌,
  inl, inr, List, [], ◌∷◌, ◌++◌, arith,
}
use honey_mind.Protocols.Http.Response.{response}
use honey_mind.Protocols.Http.Exchange.Reply.{IsFramed, response-IsFramed}

abbrev reason : ℕ → Option Bytes
reason status = if status == 503 then some (codes "Service Unavailable") else none

response-IsFramed_example :
    IsFramed 503
      (response reason 503 false (codes "nginx"))
      (response reason 503 true (codes "nginx"))
response-IsFramed_example = response-IsFramed reason 503 (codes "nginx") refl refl

-- A request in two pieces, with something behind it.
abbrev pieces : List Bytes
pieces = codes "GET /a?q HTTP/1.1\r\nhOST: x.example\r\nUser-Agent: y z\r" ∷ codes "\n\r\nmore" ∷ []

abbrev written_request : Bytes
written_request =
    print_request (codes "GET") (codes "/a?q") (codes "HTTP/1.1") (host_header ∷ agent_header ∷ [])

abbrev web_server : EndpointConfig
web_server = record (new_endpoint address http) { http_status = some 503 }

pieces_joined : concat pieces ≡ written_request ++ codes "more"
unfolding print_request
pieces_joined = refl

end_found : find_end (concat pieces) ≡ some 51
unfolding find_end
end_found = refl

long : length written_request ≡ 55
unfolding print_request
long = refl

budget : remaining_input fresh_session ≡ 65536
unfolding remaining_input new_session
budget = refl

handle-IsReplied_example :
    IsReplied
      (limits_of fresh_session)
      reason
      web_server
      (parse_request (take 55 (concat pieces)))
      fresh_session
      []
      (handle reason script 8193 web_server (conn fresh_session pieces []))
handle-IsReplied_example =
    handle-IsReplied (limits_of fresh_session) reason web_server 8193 51 fresh_session pieces []
      fresh_session-Good (refl, (refl, tt)) end_found (omega arith) (omega (arith, budget))
      (omega arith)

handle-print_request_example :
    (s' : SessionState) × (left : List Bytes) × (handle reason script 8193 web_server
        (conn fresh_session pieces [])
      ≡ (
        done server_closed,
        conn
            (push_event s' (
              http_request
                (codes "GET")
                (codes "/a?q")
                (codes "HTTP/1.1")
                (some (codes "x.example"))
                (some (codes "y z"))))
            left
            (response reason 503 false (codes "nginx")),
      ))
    × (s'.events ≡ fresh_session.events)
    × Good (limits_of fresh_session) s'
unfolding take_chars lowercase
handle-print_request_example =
    handle-print_request (limits_of fresh_session) reason web_server 8193 fresh_session pieces []
      (codes "more") (codes "GET") (codes "/a?q") (codes "HTTP/1.1")
      (host_header ∷ agent_header ∷ []) fresh_session-Good (refl, (refl, tt)) pieces_joined get_line
      (host_header-IsHeader, (agent_header-IsHeader, tt))
      (inr (omega arith, omega arith, refl), (inl refl, tt)) (omega arith) refl
      (omega (arith, long)) (omega (arith, long, budget)) (omega arith)
