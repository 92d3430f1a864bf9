-- ===== src/Connection/Machine.antt =====
-- The states that the methods of `QuicConnection` in src/transport/connection.rs lead to.
use dummy_h.Prelude.{
  ℕ, ◌≡◌, refl, ◌≢◌, Bool, false, ◌&&◌, ◌||◌, List, [], ◌∷◌, arith, ◌==◌, if◌then◌else◌,
}
use dummy_h.Error.{H3Error, Result, ok, err}
use dummy_h.Varint.{Bytes}
use dummy_h.Stream.{StreamType}
use dummy_h.Connection.{
  QuicConnection, ConnectionState, connecting, connected, closing, closed, error, state_code,
  in_state, Sending, record_sent, send_packet, create_handshake_packet, create_data_packet,
  create_ack_packet, is_connected, Stop, failure,
}
use dummy_h.Socket.{send_to}
use dummy_h.Connection.Incoming.{
  Receiving, handle_initial_packet, establish, handle_handshake_packet, handle_data_packet,
  process_packet,
}
use dummy_h.Connection.Calls.{
  accept_stream, open_stream, send_stream_data, send_datagram, recv_datagram,
}

unfoldable pub ends_handshake : Bytes → Bool
ends_handshake [] = false
ends_handshake (b ∷ packet) = b == 0x81

-- One of the packets starts with 0x81.
unfoldable pub any_ends : List (Bytes × Receiving) → Bool
any_ends [] = false
any_ends ((packet, w) ∷ ps) = ends_handshake packet || any_ends ps

module _ {C S : Type 0} where
  send_packet-state :
      (c : QuicConnection C S) (packet : Bytes) (w : Sending)
      → (send_packet c packet w).0.state ≡ c.state
  unfolding send_packet record_sent
  send_packet-state c packet w = recorded (send_to c.socket packet c.remote_addr w.answer)
    where
      recorded : (r : Result H3Error ℕ) → (record_sent c packet w.at r).0.state ≡ c.state
      recorded (ok n) = refl
      recorded (err e) = refl

  -- Handling a packet leads to `Connected` from `Connecting` if the packet is a handshake packet, on a
  -- client and on a server, and leaves the state as it is otherwise, whether or not a reply is sent.
  pub process_packet-state :
      (c : QuicConnection C S) (packet : Bytes) (w : Receiving)
      → (process_packet c packet w).0.state
        ≡ (if ends_handshake packet && in_state c.state connecting then connected else c.state)
  unfolding process_packet handle_initial_packet handle_handshake_packet handle_data_packet
      establish ends_handshake
  process_packet-state c [] w = refl
  process_packet-state c (b ∷ packet) w =
      let d = establish c w.established_at in
      ground (
        arith,
        send_packet-state c (create_handshake_packet c) w.reply,
        send_packet-state d (create_data_packet d) w.reply,
        send_packet-state c (create_ack_packet c) w.reply,
      )

  -- A call that fails with its connection as it was.
  abbrev pub LeavesAlone {ℓ} :
      {A : Type ℓ} → QuicConnection C S → QuicConnection C S × Result Stop A → Type ℓ
  LeavesAlone c r = (e : H3Error) × (r ≡ (c, err (failure e)))

  is_connected-other : (c : QuicConnection C S) → c.state ≢ connected → is_connected c ≡ false
  unfolding is_connected in_state state_code
  is_connected-other c h = other c.state h
    where
      other : (s : ConnectionState) → s ≢ connected → in_state s connected ≡ false
      other connecting h = refl
      other connected h = absurd (h refl)
      other closing h = refl
      other closed h = refl
      other error h = refl

  -- In every state but `Connected`, the calls for streams, their data and datagrams fail and change
  -- nothing.
  pub refused_unless :
      (c : QuicConnection C S) (t : StreamType) (now id : ℕ) (bytes : Bytes) (fin : Bool)
      (w : Sending) (r : Receiving)
      → c.state ≢ connected
      → LeavesAlone c (accept_stream c r)
        × LeavesAlone c (open_stream c t now)
        × LeavesAlone c (send_stream_data c id bytes fin w)
        × LeavesAlone c (send_datagram c bytes w)
        × LeavesAlone c (recv_datagram c r)
  unfolding accept_stream open_stream send_stream_data send_datagram recv_datagram
  refused_unless c t now id bytes fin w r h =
      let e = is_connected-other c h in rw e ((_, refl), (_, refl), (_, refl), (_, refl), (_, refl))

  -- The packets that arrive, each with what happens meanwhile, handled one after the other.
  pub process_all : QuicConnection C S → List (Bytes × Receiving) → QuicConnection C S
  process_all c [] = c
  process_all c ((packet, w) ∷ ps) = process_all (process_packet c packet w).0 ps

  -- Whatever packets a connection handles and whatever becomes of its replies: if it was connecting it
  -- is connected exactly if one of the packets starts with 0x81, and else still connecting; in every
  -- other state it stays.
  pub process_all-state :
      (c : QuicConnection C S) (ps : List (Bytes × Receiving))
      → (process_all c ps).state
        ≡ (if any_ends ps && in_state c.state connecting then connected else c.state)
  unfolding process_all any_ends in_state state_code
  process_all-state c [] = refl
  process_all-state c ((packet, w) ∷ ps) =
      let d = (process_packet c packet w).0 in
      ground (arith, process_packet-state c packet w, process_all-state d ps)
