-- ===== src/Connection/Changes.antt =====
-- The methods of `QuicConnection` in src/transport/connection.rs, taken apart into single changes.
use dummy_h.Prelude.{
  ℕ, ◌≡◌, refl, Bool, true, false, not, ◌&&◌, [], ◌∷◌, arith, ◌==◌, if◌then◌else◌,
}
use dummy_h.Error.{H3Error, Result, ok, err, map_err}
use dummy_h.Varint.{Bytes}
use dummy_h.Socket.{
  Inner, std_socket, Received, recv_from, recv_from_inner, received_or_none, send_to,
}
use dummy_h.Socket.Address.{SocketAddr, same_addr, would_block, failed}
use dummy_h.Connection.{
  QuicConnection, ConnectionState, connecting, connected, closing, closed, error, state_code,
  in_state, Stop, failure, Call, Sending, chain, record_sent, send_packet, create_handshake_packet,
  create_data_packet, create_ack_packet,
}
use dummy_h.Connection.Incoming.{
  Receiving, handle_initial_packet, handle_handshake_packet, handle_data_packet, process_packet,
  count_received, front_of, accept_packet, process_incoming,
}
use dummy_h.Connection.Steps.{
  Fits, Allowed, Change, sent, counted, buffered, established, Changes, unchanged, after,
}

pub connecting-in_state : (s : ConnectionState) → in_state s connecting ≡ true → s ≡ connecting
unfolding in_state state_code
connecting-in_state connecting h = refl
connecting-in_state connected h = absurd (ground arith)
connecting-in_state closing h = absurd (ground arith)
connecting-in_state closed h = absurd (ground arith)
connecting-in_state error h = absurd (ground arith)

pub other : {A : Type 0} {code : ℕ} → (code == 0x81) ≡ false → code ≡ 0x81 → A
other h e = absurd (ground arith)

module _ {C S : Type 0} {hears : Bool} where
  pub one : {c d : QuicConnection C S} → Change hears c d → Changes hears c d
  one x = after x (unchanged _)

  pub join :
      {c d e : QuicConnection C S} → Changes hears c d → Changes hears d e → Changes hears c e
  join (unchanged c) y = y
  join (after x more) y = after x (join more y)

  pub chain-Changes {ℓ κ} :
      {A : Type ℓ} {B : Type κ} {c : QuicConnection C S} (x : Call C S A)
      (f : QuicConnection C S → A → Call C S B)
      → Changes hears c x.0
      → ((d : QuicConnection C S) (a : A) → Changes hears c d → Changes hears d (f d a).0)
      → Changes hears c (chain x f).0
  chain-Changes (d, ok a) f h k = join h (k d a h)
  chain-Changes (d, err e) f h k = h

  pub if-Changes {ℓ} :
      {A : Type ℓ} {c : QuicConnection C S} (b : Bool) (x y : Call C S A)
      → (b ≡ true → Changes hears c x.0)
      → Changes hears c y.0
      → Changes hears c (if b then x else y).0
  if-Changes true x y h k = h refl
  if-Changes false x y h k = k

  pub sent-Changes :
      (c : QuicConnection C S) (code : ℕ) (rest : Bytes) (w : Sending)
      → (code ≡ 0x81 → (c.is_client ≡ false) × (hears ≡ true))
      → Changes hears c (send_packet c (code ∷ rest) w).0
  unfolding send_packet record_sent
  sent-Changes c code rest w own = recorded (send_to c.socket (code ∷ rest) c.remote_addr w.answer)
    where
      recorded : (r : Result H3Error ℕ) → Changes hears c (record_sent c (code ∷ rest) w.at r).0
      recorded (ok n) = one (sent c code rest w.at n own)
      recorded (err e) = unchanged c

-- What arrives is handled by changes that hear it.
module _ {C S : Type 0} where
  initial-Changes :
      (c : QuicConnection C S) (w : Receiving) → Changes true c (handle_initial_packet c w).0
  unfolding handle_initial_packet create_handshake_packet
  initial-Changes c w =
      if-Changes (in_state c.state connecting && not c.is_client) _ _
        (λ h. sent-Changes c 0x81 _ w.reply (λ e. ground arith)) (unchanged c)

  handshake-Changes :
      (c : QuicConnection C S) (w : Receiving) → Changes true c (handle_handshake_packet c w).0
  unfolding handle_handshake_packet create_data_packet
  handshake-Changes c w =
      if-Changes (in_state c.state connecting) _ _
        (λ h. after (established c w.established_at refl (connecting-in_state c.state h)) (
          if-Changes c.is_client _ _ (λ k. sent-Changes _ 0x82 _ w.reply (other refl))
            (unchanged _)))
        (unchanged c)

  data-Changes :
      (c : QuicConnection C S) (w : Receiving) → Changes true c (handle_data_packet c w).0
  unfolding handle_data_packet create_ack_packet
  data-Changes c w =
      if-Changes (in_state c.state connected) _ _ (λ h. sent-Changes c 0x83 _ w.reply (other refl))
        (unchanged c)

  pub packet-Changes :
      (c : QuicConnection C S) (p : Bytes) (w : Receiving) → Changes true c (process_packet c p w).0
  unfolding process_packet
  packet-Changes c [] w = unchanged c
  packet-Changes c (b ∷ p) w =
      if-Changes (b == 0x80) _ _ (λ h. initial-Changes c w)
        (if-Changes (b == 0x81) _ _ (λ h. handshake-Changes c w)
          (if-Changes (b == 0x82) _ _ (λ h. data-Changes c w) (unchanged c)))

  accept-Changes :
      (c : QuicConnection C S) (r : Result Stop (ℕ × SocketAddr)) (w : Receiving)
      → Changes true c (accept_packet c r w).0
  unfolding accept_packet
  accept-Changes c (err e) w = unchanged c
  accept-Changes c (ok (n, from)) w =
      if-Changes (n == 0) _ _ (λ h. unchanged c)
        (if-Changes (not (same_addr from c.remote_addr)) _ _ (λ h. unchanged c)
          (chain-Changes (count_received c n w.at, front_of n c.recv_buffer) _
            (one (counted c n w.at)) (λ d p past. packet-Changes d p w)))

  -- An empty buffer takes nothing from the system's own socket.
  nothing_read :
      (c : QuicConnection C S) (local : SocketAddr) (answer : Received) (w : Receiving)
      → Fits answer
      → let (buffer, r) = received_or_none local [] answer in
        (accept_packet (record c { recv_buffer = buffer }) (map_err failure r) w).0
        ≡ record c { recv_buffer = [] }
  unfolding received_or_none accept_packet
  nothing_read c local (ok (bytes, from)) w fits = rw fits refl
  nothing_read c local (err (would_block text)) w fits = refl
  nothing_read c local (err (failed text)) w fits = refl

  read_through :
      (c : QuicConnection C S) (inner : Inner) (local : SocketAddr) (w : Receiving)
      → inner ≡ std_socket
      → Fits w.answer
      → let (buffer, r) = recv_from_inner inner local [] w.answer in
        (accept_packet (record c { recv_buffer = buffer }) (map_err failure r) w).0
        ≡ record c { recv_buffer = [] }
  unfolding recv_from_inner
  read_through c inner local w own fits = rw own (nothing_read c local w.answer w fits)

  -- With the system's own socket, receiving empties the buffer and changes nothing else, whatever
  -- packet has arrived: the buffer that the system is given has no room for it.
  pub process_incoming-deaf :
      (c : QuicConnection C S) (w : Receiving)
      → c.socket.inner ≡ std_socket
      → Fits w.answer
      → (process_incoming c w).0 ≡ record c { recv_buffer = [] }
  unfolding process_incoming recv_from
  process_incoming-deaf c w own fits = read_through c c.socket.inner c.socket.local_addr w own fits

  accept-Changes_incoming :
      (c : QuicConnection C S) (x : Bytes × Result H3Error (ℕ × SocketAddr)) (w : Receiving)
      → Changes true c (accept_packet (record c { recv_buffer = x.0 }) (map_err failure x.1) w).0
  accept-Changes_incoming c (b, r) w =
      after (buffered c b) (accept-Changes (record c { recv_buffer = b }) (map_err failure r) w)

  pub incoming-Changes :
      (hears : Bool) (c : QuicConnection C S) (w : Receiving)
      → Allowed hears c w
      → Changes hears c (process_incoming c w).0
  unfolding process_incoming
  incoming-Changes false c w (own, fits) =
      rw (process_incoming-deaf c w own fits) (one (buffered c []))
  incoming-Changes true c w a = accept-Changes_incoming c (recv_from c.socket [] w.answer) w
