-- ===== src/Tests/Clients.antt =====
-- Clients of src/client/mod.rs at concrete inputs.
use dummy_h.Prelude.{◌+◌, ◌≡◌, refl, false, some, [], ◌∷◌, arith, length, replicate}
use dummy_h.Error.{msg, config, ok, err}
use dummy_h.Config.{default_client}
use dummy_h.Http.{H3Request}
use dummy_h.Http.Build.{ok_response, new_request}
use dummy_h.Connection.{failure}
use dummy_h.Client.{ready, Schedule, Session, new_session, rounds, send_request, close}
use dummy_h.Client.Machine.{at_first}
use dummy_h.Client.Returns.{Served, send_request_returns}
use dummy_h.Client.Answers.{only_placeholders}
use dummy_h.Client.Close.{IsShut, AfterClose, close_twice}
use dummy_h.Client.Connect.{connect_client, find_server, first_failure, connect_client_fails}
use dummy_h.Tests.Protections.{toy_ring}
use dummy_h.Tests.Connections.{waiting_client, all_sent, native, server_addr}
use dummy_h.Tests.Requests.{numbers}

abbrev session : Session numbers (Unit {0}) (Unit {0})
session = new_session numbers default_client waiting_client 4

abbrev request : H3Request numbers
request = new_request numbers 0 4

abbrev prompt : Schedule
prompt = record { before_send = 1; before_answer = 3 }

send_request_returns_example : Served numbers 1 (send_request numbers session request prompt)
unfolding new_session
send_request_returns_example =
    send_request_returns numbers default_client waiting_client 4 session request prompt
      (at_first session) (λ e. absurd (ground arith)) refl (omega arith) (omega arith)

returned : (send_request numbers session request prompt).1 ≡ ready (ok (ok_response numbers))
returned = send_request_returns_example.0

only_placeholders_example :
    (ok_response numbers ≡ ok_response numbers)
    × ((send_request numbers session request prompt).0.client.connection ≡ some waiting_client)
only_placeholders_example =
    only_placeholders numbers default_client waiting_client 4 session request prompt
      (ok_response numbers) (at_first session) returned

close_twice_example :
    let (t, q) = close numbers session all_sent in
    let (u, r) = close numbers t all_sent in
    AfterClose numbers session t q
    × (r ≡ ok tt)
    × IsShut numbers u
    × (send_request numbers u request prompt ≡ (u, ready (err (config (msg "Not connected" [])))))
    × ((rounds numbers (length u.requests + length u.requests + 2) u).running ≡ false)
close_twice_example = close_twice numbers session all_sent all_sent request prompt

connect_client_fails_example :
    connect_client numbers {C = Unit {0}} {S = Unit {0}} {Roots = Unit {0}}
      (λ host port. ok (server_addr ∷ []))
      (λ roots protocols. tt)
      "https://example.com"
      default_client
      (ok native)
      (replicate 16 1)
      5
      "127.0.0.1:8080"
      all_sent
    ≡ err (
        failure (
          first_failure numbers
            (find_server numbers (λ host port. ok (server_addr ∷ [])) "https://example.com")
            (ok native)))
connect_client_fails_example =
    connect_client_fails numbers (λ host port. ok (server_addr ∷ [])) (λ roots protocols. tt)
      "https://example.com" default_client (ok native) (replicate 16 1) 5 "127.0.0.1:8080" all_sent
