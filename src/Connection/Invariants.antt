-- ===== src/Connection/Invariants.antt =====
-- What every sequence of calls of `QuicConnection` in src/transport/connection.rs keeps.
use dummy_h.Prelude.{
  ◌%◌, ◌^◌, ◌≡◌, refl, sym, subst, ◌≢◌, inl, inr, Bool, true, false, [], ◌∷◌, arith, length, Among,
}
use dummy_h.Varint.{Bytes}
use dummy_h.Connection.{QuicConnection, connected, state_code, in_state, is_alive, record_sent}
use dummy_h.Connection.Incoming.{Receiving, establish, count_received, process_packet}
use dummy_h.Connection.Steps.{
  Change, sent, counted, buffered, established, managed, shutting, shut, Changes, unchanged, after,
  Reach,
}
use dummy_h.Connection.Machine.{ends_handshake, process_packet-state}
use dummy_h.Connection.Refine.{Reach-Changes}

-- The packet does not start with the code of a handshake packet.
abbrev pub NoHandshake : Bytes → Type 0
NoHandshake [] = Unit
NoHandshake (b ∷ packet) = b ≢ 0x81

module _ {C S : Type 0} where
  -- A property that each change keeps is kept by the calls.
  pub along :
      {hears : Bool} {c d : QuicConnection C S} (P : QuicConnection C S → Type 0)
      → ((x y : QuicConnection C S) → Change hears x y → P x → P y)
      → Changes hears c d
      → P c
      → P d
  along P keep (unchanged c) p = p
  along P keep (after x more) p = along P keep more (keep _ _ x p)

  -- The next packet number and the statistics count the packets that the socket took.
  abbrev pub IsCounted : QuicConnection C S → Type 0
  IsCounted c =
      (c.next_packet_number ≡ length c.outbox % 2 ^ 64)
      × (c.stats.packets_sent ≡ length c.outbox % 2 ^ 64)

  Change-IsCounted :
      {hears : Bool} {c d : QuicConnection C S} → Change hears c d → IsCounted c → IsCounted d
  unfolding record_sent establish count_received
  Change-IsCounted (sent c code rest now n own) k = (omega arith, omega arith)
  Change-IsCounted (counted c n now) k = k
  Change-IsCounted (buffered c b) k = k
  Change-IsCounted (established c now h e) k = k
  Change-IsCounted (managed c m) k = k
  Change-IsCounted (shutting c) k = k
  Change-IsCounted (shut c) k = k

  -- Whatever methods are called, the next packet number and the number of sent packets stay the
  -- number of packets that the socket took, as a `u64`.
  pub Reach-IsCounted :
      {hears : Bool} {c d : QuicConnection C S} → Reach hears c d → IsCounted c → IsCounted d
  Reach-IsCounted r = along IsCounted (λ x y h k. Change-IsCounted h k) (Reach-Changes r)

  abbrev Ended : QuicConnection C S → Type 0
  Ended c = is_alive c ≡ false

  Change-Ended : {hears : Bool} {c d : QuicConnection C S} → Change hears c d → Ended c → Ended d
  unfolding record_sent establish count_received is_alive in_state state_code
  Change-Ended (sent c code rest now n own) k = k
  Change-Ended (counted c n now) k = k
  Change-Ended (buffered c b) k = k
  Change-Ended (established c now h e) k = absurd (ground arith)
  Change-Ended (managed c m) k = k
  Change-Ended (shutting c) k = refl
  Change-Ended (shut c) k = refl

  -- A connection that is not alive is never alive again, whatever methods are called and whatever
  -- packets arrive.
  pub Reach-ended :
      {hears : Bool} {c d : QuicConnection C S}
      → Reach hears c d
      → is_alive c ≡ false
      → is_alive d ≡ false
  Reach-ended r = along Ended (λ x y h k. Change-Ended h k) (Reach-Changes r)

  abbrev pub Waiting : QuicConnection C S → Type 0
  Waiting c = c.state ≢ connected

  pub Change-Waiting : {c d : QuicConnection C S} → Change false c d → Waiting c → Waiting d
  unfolding record_sent establish count_received
  Change-Waiting (sent c code rest now n own) k = k
  Change-Waiting (counted c n now) k = k
  Change-Waiting (buffered c b) k = k
  Change-Waiting (established c now h e) k = absurd (ground arith)
  Change-Waiting (managed c m) k = k
  Change-Waiting (shutting c) k = λ e. absurd (ground arith)
  Change-Waiting (shut c) k = λ e. absurd (ground arith)

  -- With the system's own socket, no sequence of calls leads to the state `Connected`, whatever
  -- packets arrive.
  pub never_connected :
      {c d : QuicConnection C S} → Reach false c d → c.state ≢ connected → d.state ≢ connected
  never_connected r = along Waiting (λ x y h k. Change-Waiting h k) (Reach-Changes r)

  abbrev pub IsClient : QuicConnection C S → Type 0
  IsClient c = (c.is_client ≡ true) × ((p : Bytes) → Among c.outbox p → NoHandshake p)

  pub Change-IsClient :
      {hears : Bool} {c d : QuicConnection C S} → Change hears c d → IsClient c → IsClient d
  unfolding record_sent establish count_received
  Change-IsClient (sent c code rest now n own) (client, packets) = (
    client,
    λ p among. elim among [
      | inl e ↦ rw (sym e) (λ h. let k = (own h).0 in absurd (ground arith))
      | inr old ↦ packets p old
    ],
  )
  Change-IsClient (counted c n now) k = k
  Change-IsClient (buffered c b) k = k
  Change-IsClient (established c now h e) k = k
  Change-IsClient (managed c m) k = k
  Change-IsClient (shutting c) k = k
  Change-IsClient (shut c) k = k

  pub Reach-IsClient :
      {hears : Bool} {c d : QuicConnection C S} → Reach hears c d → IsClient c → IsClient d
  Reach-IsClient r = along IsClient (λ x y h k. Change-IsClient h k) (Reach-Changes r)

  pub packet_kept :
      (s : QuicConnection C S) (p : Bytes) (w : Receiving)
      → NoHandshake p
      → (process_packet s p w).0.state ≡ s.state
  unfolding ends_handshake
  packet_kept s [] w h = process_packet-state s [] w
  packet_kept s (b ∷ p) w h = ground (arith, process_packet-state s (b ∷ p) w)

  -- No packet that a client has sent changes the state of the connection that it is handled by, a
  -- server's in particular: whatever methods the client called and whatever packets it got.
  pub packets-of_client :
      {hears : Bool} {c d : QuicConnection C S} (s : QuicConnection C S) (p : Bytes) (w : Receiving)
      → Reach hears c d
      → c.is_client ≡ true
      → c.outbox ≡ []
      → Among d.outbox p
      → (process_packet s p w).0.state ≡ s.state
  packets-of_client s p w r client empty among =
      let (k, packets) =
        Reach-IsClient r (client, λ q a. absurd (subst (λ o. Among o q) empty a)) in
      packet_kept s p w (packets p among)
