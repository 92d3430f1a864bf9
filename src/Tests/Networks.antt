-- ===== src/Tests/Networks.antt =====
-- A client's and a server's connection over a network, at concrete inputs.
use dummy_h.Prelude.{◌≡◌, refl, ◌≢◌, inl, arith}
use dummy_h.Socket.{send_to}
use dummy_h.Connection.{
  connected, send_packet, record_sent, initiate_connection, create_initial_packet,
  create_handshake_packet, in_state, state_code,
}
use dummy_h.Connection.Create.{fresh}
use dummy_h.Connection.Incoming.{process_packet, handle_initial_packet}
use dummy_h.Connection.Machine.{ends_handshake}
use dummy_h.Connection.Sent.{begins_connection, HasSent}
use dummy_h.Connection.Network.{
  Network, Hops, still, further, client_initiates, to_server, to_client, connected_order,
}
use dummy_h.Tests.Connections.{waiting_client, waiting_server, all_sent, cut_off}

abbrev silent : Network (Unit {0}) (Unit {0})
silent = record { client = waiting_client; server = waiting_server }

abbrev started : Network (Unit {0}) (Unit {0})
started = record silent { client = (initiate_connection waiting_client all_sent).0 }

abbrev replied : Network (Unit {0}) (Unit {0})
replied = record started {
  server = (process_packet waiting_server (create_initial_packet waiting_client) cut_off).0;
}

abbrev finished : Network (Unit {0}) (Unit {0})
finished = record replied {
  client = (process_packet started.client (create_handshake_packet waiting_server) cut_off).0;
}

handshake : Hops silent finished
unfolding fresh initiate_connection send_packet record_sent send_to process_packet
    handle_initial_packet in_state state_code create_initial_packet
handshake =
    further
      (further (further still (client_initiates silent all_sent))
        (to_server started (create_initial_packet waiting_client) cut_off (inl refl)))
      (to_client replied (create_handshake_packet waiting_server) cut_off (inl refl))

connected_order_example :
    (finished.server.state ≢ connected)
    × (finished.client.state ≡ connected
        → HasSent ends_handshake finished.server × HasSent begins_connection finished.client)
unfolding fresh
connected_order_example =
    connected_order silent finished refl refl refl (λ e. absurd (ground arith))
      (λ e. absurd (ground arith)) handshake
