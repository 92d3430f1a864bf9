-- ===== src/Connection/Sent.antt =====
-- Which packets a connection of src/transport/connection.rs has sent.
use dummy_h.Prelude.{
  ℕ, ◌≡◌, refl, sym, inl, inr, Bool, true, false, [], ◌∷◌, arith, ◌==◌, if◌then◌else◌, ==_iff,
  Bool-cases, Among,
}
use dummy_h.Error.{H3Error, Result, ok, err}
use dummy_h.Varint.{Bytes}
use dummy_h.Socket.{send_to}
use dummy_h.Connection.{
  QuicConnection, connecting, connected, in_state, Sending, record_sent, send_packet,
  create_data_packet, create_ack_packet,
}
use dummy_h.Connection.Incoming.{
  Receiving, establish, count_received, process_packet, handle_handshake_packet, handle_data_packet,
}
use dummy_h.Connection.Steps.{
  Changes, Step, Change, sent, counted, buffered, established, managed, shutting, shut,
}
use dummy_h.Connection.Machine.{ends_handshake}
use dummy_h.Connection.Refine.{Step-Changes}
use dummy_h.Connection.Invariants.{along}

unfoldable pub begins_connection : Bytes → Bool
begins_connection [] = false
begins_connection (b ∷ rest) = b == 0x80

module _ {C S : Type 0} where
  -- A packet has been sent that passes the test.
  abbrev pub HasSent : (Bytes → Bool) → QuicConnection C S → Type 0
  HasSent test c = (p : Bytes) × (Among c.outbox p × (test p ≡ true))

  Change-HasSent :
      {hears : Bool} {c d : QuicConnection C S} (test : Bytes → Bool)
      → Change hears c d
      → HasSent test c
      → HasSent test d
  unfolding record_sent establish count_received
  Change-HasSent test (sent c code rest now n own) (p, (among, h)) = (p, (inr among, h))
  Change-HasSent test (counted c n now) k = k
  Change-HasSent test (buffered c b) k = k
  Change-HasSent test (established c now h e) k = k
  Change-HasSent test (managed c m) k = k
  Change-HasSent test (shutting c) k = k
  Change-HasSent test (shut c) k = k

  pub Changes-HasSent :
      {hears : Bool} {c d : QuicConnection C S} (test : Bytes → Bool)
      → Changes hears c d
      → HasSent test c
      → HasSent test d
  Changes-HasSent test s = along (HasSent test) (λ x y h k. Change-HasSent test h k) s

  -- No packet that ends a handshake has been sent.
  abbrev pub Silent : QuicConnection C S → Type 0
  Silent c = (p : Bytes) → Among c.outbox p → ends_handshake p ≡ false

  Change-Silent : {c d : QuicConnection C S} → Change false c d → Silent c → Silent d
  unfolding record_sent establish count_received ends_handshake
  Change-Silent (sent c code rest now n own) k = λ p among. elim among [
    | inl e ↦ rw (sym e) (elim (Bool-cases (code == 0x81)) [
      | inl h ↦ absurd (ground (arith, own ((==_iff code 0x81).0 h)))
      | inr h ↦ h
    ])
    | inr old ↦ k p old
  ]
  Change-Silent (counted c n now) k = k
  Change-Silent (buffered c b) k = k
  Change-Silent (established c now h e) k = k
  Change-Silent (managed c m) k = k
  Change-Silent (shutting c) k = k
  Change-Silent (shut c) k = k

  pub Step-Silent : {c d : QuicConnection C S} → Step false c d → Silent c → Silent d
  Step-Silent s = along Silent (λ x y h k. Change-Silent h k) (Step-Changes s)

  send_packet-Silent :
      (c : QuicConnection C S) (bytes : Bytes) (w : Sending)
      → ends_handshake bytes ≡ false
      → Silent c
      → Silent (send_packet c bytes w).0
  unfolding send_packet record_sent
  send_packet-Silent c bytes w e k = recorded (send_to c.socket bytes c.remote_addr w.answer)
    where
      recorded : (r : Result H3Error ℕ) → Silent (record_sent c bytes w.at r).0
      recorded (ok n) = λ p among. elim among [ inl same ↦ rw (sym same) e | inr old ↦ k p old ]
      recorded (err x) = k

  in_either :
      {A : Type 0} (b : Bool) (x y : QuicConnection C S × A)
      → Silent x.0
      → Silent y.0
      → Silent (if b then x else y).0
  in_either true x y h k = h
  in_either false x y h k = k

  -- What is no packet that starts a connection is not answered by one that ends a handshake.
  pub process_packet-Silent :
      (c : QuicConnection C S) (p : Bytes) (w : Receiving)
      → begins_connection p ≡ false
      → Silent c
      → Silent (process_packet c p w).0
  unfolding process_packet handle_handshake_packet handle_data_packet establish begins_connection
      create_data_packet create_ack_packet ends_handshake
  process_packet-Silent c [] w e k = k
  process_packet-Silent c (b ∷ p) w e k =
      let d = establish c w.established_at in
      rw e (
        in_either (b == 0x81) _ _
          (in_either (in_state c.state connecting) _ _
            (in_either c.is_client _ _ (send_packet-Silent d (create_data_packet d) w.reply refl k)
              k)
            k)
          (in_either (b == 0x82) _ _
            (in_either (in_state c.state connected) _ _
              (send_packet-Silent c (create_ack_packet c) w.reply refl k) k)
            k))
