-- ===== src/Connection/Refine.antt =====
-- Every method of `QuicConnection` in src/transport/connection.rs is a sequence of single changes.
use dummy_h.Prelude.{ℕ, ◌≡◌, refl, ap, ◌∙◌, Bool, true, false, not}
use dummy_h.Error.{map_err}
use dummy_h.Manager.{create_stream}
use dummy_h.Connection.{
  QuicConnection, closing, failure, Sending, record_sent, send_packet, close, is_connected,
  is_timed_out, create_data_packet, create_close_packet, stream_packet, datagram_packet,
}
use dummy_h.Connection.Incoming.{Receiving, establish, count_received, process_incoming}
use dummy_h.Connection.Calls.{
  accept_stream, open_stream, send_stream_data, send_datagram, recv_datagram, keep_alive_due,
  send_keep_alive, maintain,
}
use dummy_h.Connection.Steps.{
  Allowed, Step, incoming, packet, accepting, opening, streaming, datagram, receiving, ending,
  maintaining, managing, Change, sent, counted, buffered, established, managed, shutting, shut,
  Changes, unchanged, after, Reach, here, next,
}
use dummy_h.Connection.Changes.{
  other, one, join, chain-Changes, if-Changes, sent-Changes, packet-Changes, incoming-Changes,
}

module _ {C S : Type 0} {hears : Bool} where
  Change-socket : {c d : QuicConnection C S} → Change hears c d → d.socket ≡ c.socket
  unfolding record_sent count_received establish
  Change-socket (sent c code rest now n own) = refl
  Change-socket (counted c n now) = refl
  Change-socket (buffered c b) = refl
  Change-socket (established c now h k) = refl
  Change-socket (managed c m) = refl
  Change-socket (shutting c) = refl
  Change-socket (shut c) = refl

  Changes-socket : {c d : QuicConnection C S} → Changes hears c d → d.socket ≡ c.socket
  Changes-socket (unchanged c) = refl
  Changes-socket (after x more) = Changes-socket more ∙ Change-socket x

Allowed-socket :
    {C S : Type 0} (hears : Bool) (c d : QuicConnection C S) (w : Receiving)
    → d.socket ≡ c.socket
    → Allowed hears c w
    → Allowed hears d w
Allowed-socket true c d w e a = tt
Allowed-socket false c d w e (own, fits) = (ap (λ s. s.inner) e ∙ own, fits)

module _ {C S : Type 0} {hears : Bool} where
  close-Changes : (c : QuicConnection C S) (w : Sending) → Changes hears c (close c w).0
  unfolding close create_close_packet
  close-Changes c w = after (shutting c) (
      chain-Changes (send_packet (record c { state = closing }) _ w) _
        (sent-Changes (record c { state = closing }) 0x85 _ w (other refl))
        (λ d u past. one (shut d)))

  keep_alive-Changes :
      (c : QuicConnection C S) (now : ℕ) (w : Sending) → Changes hears c (send_keep_alive c now w).0
  unfolding send_keep_alive create_data_packet
  keep_alive-Changes c now w =
      if-Changes (keep_alive_due c c.config.keep_alive now) _ _
        (λ h. sent-Changes c 0x82 _ w (other refl)) (unchanged c)

  -- Each call of a method is a sequence of the changes of `Change`: packets sent, of which only a
  -- server's start with 0x81; packets counted; the buffer replaced; the handshake's end, in the state
  -- `Connecting` and when packets are heard; and the two states of closing.
  pub Step-Changes : {c d : QuicConnection C S} → Step hears c d → Changes hears c d
  unfolding accept_stream open_stream send_stream_data send_datagram recv_datagram maintain
      stream_packet datagram_packet
  Step-Changes (incoming c w a) = incoming-Changes hears c w a
  Step-Changes (packet c p w h) = rw h (packet-Changes c p w)
  Step-Changes (accepting c w a) =
      if-Changes (not (is_connected c)) _ _ (λ h. unchanged c)
        (chain-Changes (process_incoming c w) _ (incoming-Changes hears c w a)
          (λ d u past. unchanged d))
  Step-Changes (opening c t now) =
      let (m, r) = create_stream c.stream_manager t now in
      if-Changes (not (is_connected c)) _ _ (λ h. unchanged c)
        (chain-Changes (record c { stream_manager = m }, map_err failure r) _ (one (managed c m))
          (λ d u past. unchanged d))
  Step-Changes (streaming c id bytes fin w) =
      if-Changes (not (is_connected c)) _ _ (λ h. unchanged c)
        (chain-Changes (send_packet c _ w) _ (sent-Changes c 0x82 _ w (other refl))
          (λ d u past. unchanged d))
  Step-Changes (datagram c bytes w) =
      if-Changes (not (is_connected c)) _ _ (λ h. unchanged c)
        (sent-Changes c 0x84 _ w (other refl))
  Step-Changes (receiving c w a) =
      if-Changes (not (is_connected c)) _ _ (λ h. unchanged c)
        (chain-Changes (process_incoming c w) _ (incoming-Changes hears c w a)
          (λ d u past. unchanged d))
  Step-Changes (ending c w) = close-Changes c w
  Step-Changes (maintaining c now later w r a) =
      if-Changes (is_timed_out c now) _ _ (λ h. one (shut c))
        (chain-Changes (send_keep_alive c later w) _ (keep_alive-Changes c later w) (λ d u past.
          incoming-Changes hears d r (Allowed-socket hears c d r (Changes-socket past) a)))
  Step-Changes (managing c m) = one (managed c m)

  -- The methods that were called, one after the other.
  pub Reach-Changes : {c d : QuicConnection C S} → Reach hears c d → Changes hears c d
  Reach-Changes here = unchanged _
  Reach-Changes (next r s) = join (Reach-Changes r) (Step-Changes s)
