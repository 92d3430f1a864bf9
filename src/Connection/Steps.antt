-- ===== src/Connection/Steps.antt =====
-- The methods of `QuicConnection` in src/transport/connection.rs as steps, and what a step is made of.
use dummy_h.Prelude.{ℕ, ◌≡◌, Bool, true, false, [], ◌∷◌}
use dummy_h.Error.{ok, err}
use dummy_h.Varint.{Bytes}
use dummy_h.Stream.{StreamType}
use dummy_h.Manager.{StreamManager}
use dummy_h.Socket.{std_socket, Received}
use dummy_h.Connection.{QuicConnection, connecting, closing, closed, Sending, record_sent, close}
use dummy_h.Connection.Incoming.{
  Receiving, establish, process_packet, count_received, process_incoming,
}
use dummy_h.Connection.Calls.{
  accept_stream, open_stream, send_stream_data, send_datagram, recv_datagram, maintain,
}

-- The system writes no more into a buffer than it holds; the one that it is given holds nothing.
abbrev pub Fits : Received → Type 0
Fits (ok (bytes, from)) = bytes ≡ []
Fits (err e) = Unit

-- With `hears`, any packet may arrive. Without, the socket is the system's own, whose answers fit.
abbrev pub Allowed : {C S : Type 0} → Bool → QuicConnection C S → Receiving → Type 0
Allowed true c w = Unit
Allowed false c w = (c.socket.inner ≡ std_socket) × Fits w.answer

module _ {C S : Type 0} where
  -- One call of a method, and the use of the stream manager that `stream_manager` lends.
  pub data Step (hears : Bool) : QuicConnection C S → QuicConnection C S → Type 0 where
    incoming :
        (c : QuicConnection C S) (w : Receiving)
        → Allowed hears c w
        → Step hears c (process_incoming c w).0
    packet :
        (c : QuicConnection C S) (p : Bytes) (w : Receiving)
        → hears ≡ true
        → Step hears c (process_packet c p w).0
    accepting :
        (c : QuicConnection C S) (w : Receiving)
        → Allowed hears c w
        → Step hears c (accept_stream c w).0
    opening :
        (c : QuicConnection C S) (t : StreamType) (now : ℕ) → Step hears c (open_stream c t now).0
    streaming :
        (c : QuicConnection C S) (id : ℕ) (bytes : Bytes) (fin : Bool) (w : Sending)
        → Step hears c (send_stream_data c id bytes fin w).0
    datagram :
        (c : QuicConnection C S) (bytes : Bytes) (w : Sending)
        → Step hears c (send_datagram c bytes w).0
    receiving :
        (c : QuicConnection C S) (w : Receiving)
        → Allowed hears c w
        → Step hears c (recv_datagram c w).0
    ending : (c : QuicConnection C S) (w : Sending) → Step hears c (close c w).0
    maintaining :
        (c : QuicConnection C S) (now later : ℕ) (w : Sending) (r : Receiving)
        → Allowed hears c r
        → Step hears c (maintain c now later w r).0
    managing :
        (c : QuicConnection C S) (m : StreamManager)
        → Step hears c (record c { stream_manager = m })

  pub data Reach (hears : Bool) (c : QuicConnection C S) : QuicConnection C S → Type 0 where
    here : Reach hears c c
    next : {d e : QuicConnection C S} → Reach hears c d → Step hears d e → Reach hears c e

  -- The single changes that the methods make to a connection.
  pub data Change (hears : Bool) : QuicConnection C S → QuicConnection C S → Type 0 where
    -- Only a packet of a server that hears packets starts with the code of a handshake packet.
    sent :
        (c : QuicConnection C S) (code : ℕ) (rest : Bytes) (now n : ℕ)
        → (code ≡ 0x81 → (c.is_client ≡ false) × (hears ≡ true))
        → Change hears c (record_sent c (code ∷ rest) now (ok n)).0
    counted : (c : QuicConnection C S) (n now : ℕ) → Change hears c (count_received c n now)
    buffered : (c : QuicConnection C S) (b : Bytes) → Change hears c (record c { recv_buffer = b })
    established :
        (c : QuicConnection C S) (now : ℕ)
        → hears ≡ true
        → c.state ≡ connecting
        → Change hears c (establish c now)
    managed :
        (c : QuicConnection C S) (m : StreamManager)
        → Change hears c (record c { stream_manager = m })
    shutting : (c : QuicConnection C S) → Change hears c (record c { state = closing })
    shut : (c : QuicConnection C S) → Change hears c (record c { state = closed })

  pub data Changes (hears : Bool) : QuicConnection C S → QuicConnection C S → Type 0 where
    unchanged : (c : QuicConnection C S) → Changes hears c c
    after : {c d e : QuicConnection C S} → Change hears c d → Changes hears d e → Changes hears c e
