-- ===== src/Connection/Network.antt =====
-- A client's and a server's connection of src/transport/connection.rs, over a network that loses,
-- repeats and reorders packets and makes none of its own.
use dummy_h.Prelude.{
  ◌≡◌, refl, sym, ◌∙◌, subst, ◌≢◌, ◌⊎◌, inl, inr, true, false, [], arith, Bool-cases, Among,
}
use dummy_h.Varint.{Bytes}
use dummy_h.Connection.{
  QuicConnection, connected, Sending, initiate_connection, create_initial_packet,
}
use dummy_h.Connection.Incoming.{Receiving, process_packet}
use dummy_h.Connection.Steps.{Step, packet, Changes, here, next}
use dummy_h.Connection.Changes.{sent-Changes, other}
use dummy_h.Connection.Machine.{ends_handshake, process_packet-state}
use dummy_h.Connection.Refine.{Step-Changes}
use dummy_h.Connection.Sent.{
  begins_connection, HasSent, Changes-HasSent, Silent, Step-Silent, process_packet-Silent,
}
use dummy_h.Connection.Invariants.{
  along, Waiting, Change-Waiting, IsClient, Change-IsClient, Reach-IsClient, packet_kept,
}

-- A case of either kind, made into one of another.
either : {A B X Y : Type 0} → (A → X) → (B → Y) → A ⊎ B → X ⊎ Y
either f g (inl a) = inl (f a)
either f g (inr b) = inr (g b)

pub record Network (C S : Type 0) : Type 0 where
  pub client : QuicConnection C S
  pub server : QuicConnection C S

module _ {C S : Type 0} where
  -- A side calls a method, or is handed a packet that the other side has sent.
  pub data Hop : Network C S → Network C S → Type 0 where
    -- The last step of `new` on a client.
    client_initiates :
        (n : Network C S) (w : Sending)
        → Hop n (record n { client = (initiate_connection n.client w).0 })
    client_calls :
        (n : Network C S) (d : QuicConnection C S)
        → Step false n.client d
        → Hop n (record n { client = d })
    server_calls :
        (n : Network C S) (d : QuicConnection C S)
        → Step false n.server d
        → Hop n (record n { server = d })
    to_client :
        (n : Network C S) (p : Bytes) (w : Receiving)
        → Among n.server.outbox p
        → Hop n (record n { client = (process_packet n.client p w).0 })
    to_server :
        (n : Network C S) (p : Bytes) (w : Receiving)
        → Among n.client.outbox p
        → Hop n (record n { server = (process_packet n.server p w).0 })

  pub data Hops (n : Network C S) : Network C S → Type 0 where
    still : Hops n n
    further : {m k : Network C S} → Hops n m → Hop m k → Hops n k

  Step-Waiting : {c d : QuicConnection C S} → Step false c d → Waiting c → Waiting d
  Step-Waiting s = along Waiting (λ x y h k. Change-Waiting h k) (Step-Changes s)

  -- A packet that takes a connection out of waiting ends a handshake.
  woken :
      (c : QuicConnection C S) (p : Bytes) (w : Receiving)
      → Waiting c
      → Waiting (process_packet c p w).0 ⊎ (ends_handshake p ≡ true)
  woken c p w k = elim (Bool-cases (ends_handshake p)) [
    | inl e ↦ inr e
    | inr e ↦ inl (λ h. k (sym (process_packet-state c p w ∙ rw e refl) ∙ h))
  ]

  abbrev HasAnswered : QuicConnection C S → Type 0
  HasAnswered = HasSent ends_handshake

  abbrev HasStarted : QuicConnection C S → Type 0
  HasStarted = HasSent begins_connection

  -- The server is not connected; a client that is has been answered; and a server that has answered
  -- was asked by the client.
  abbrev IsOrdered : Network C S → Type 0
  IsOrdered n =
      IsClient n.client
      × Waiting n.server
      × (Waiting n.client ⊎ HasAnswered n.server)
      × (Silent n.server ⊎ HasStarted n.client)

  client_woken :
      (c : QuicConnection C S) (s : QuicConnection C S) (p : Bytes) (w : Receiving)
      → Among s.outbox p
      → Waiting c ⊎ HasAnswered s
      → Waiting (process_packet c p w).0 ⊎ HasAnswered s
  client_woken c s p w among (inl k) = either (λ k'. k') (λ e. (p, (among, e))) (woken c p w k)
  client_woken c s p w among (inr h) = inr h

  server_asked :
      (c : QuicConnection C S) (s : QuicConnection C S) (p : Bytes) (w : Receiving)
      → Among c.outbox p
      → Silent s ⊎ HasStarted c
      → Silent (process_packet s p w).0 ⊎ HasStarted c
  server_asked c s p w among (inr h) = inr h
  server_asked c s p w among (inl k) = elim (Bool-cases (begins_connection p)) [
    | inl e ↦ inr (p, (among, e))
    | inr e ↦ inl (process_packet-Silent s p w e k)
  ]

  initiate-Changes :
      (c : QuicConnection C S) (w : Sending) → Changes false c (initiate_connection c w).0
  unfolding initiate_connection create_initial_packet
  initiate-Changes c w = sent-Changes c 0x80 _ w (other refl)

  Hop-IsOrdered : {n m : Network C S} → Hop n m → IsOrdered n → IsOrdered m
  Hop-IsOrdered (client_initiates n w) (c, k, a, b) =
      let s = initiate-Changes n.client w in
      (
        along IsClient (λ x y h i. Change-IsClient h i) s c,
        k,
        either (along Waiting (λ x y h i. Change-Waiting h i) s) (λ h. h) a,
        either (λ i. i) (Changes-HasSent begins_connection s) b,
      )
  Hop-IsOrdered (client_calls n d s) (c, w, a, b) = (
    Reach-IsClient (next here s) c,
    w,
    either (Step-Waiting s) (λ h. h) a,
    either (λ k. k) (Changes-HasSent begins_connection (Step-Changes s)) b,
  )
  Hop-IsOrdered (server_calls n d s) (c, w, a, b) = (
    c,
    Step-Waiting s w,
    either (λ k. k) (Changes-HasSent ends_handshake (Step-Changes s)) a,
    either (Step-Silent s) (λ h. h) b,
  )
  Hop-IsOrdered (to_client n p r among) (c, w, a, b) =
      let s : Step true n.client (process_packet n.client p r).0 = packet n.client p r refl in
      (
        Reach-IsClient (next here s) c,
        w,
        client_woken n.client n.server p r among a,
        either (λ k. k) (Changes-HasSent begins_connection (Step-Changes s)) b,
      )
  Hop-IsOrdered (to_server n p r among) (c, w, a, b) =
      let s : Step true n.server (process_packet n.server p r).0 = packet n.server p r refl in
      (
        c,
        λ h. w (sym (packet_kept n.server p r (c.1 p among)) ∙ h),
        either (λ k. k) (Changes-HasSent ends_handshake (Step-Changes s)) a,
        server_asked n.client n.server p r among b,
      )

  Hops-IsOrdered : {n m : Network C S} → Hops n m → IsOrdered n → IsOrdered m
  Hops-IsOrdered still o = o
  Hops-IsOrdered (further hs h) o = Hop-IsOrdered h (Hops-IsOrdered hs o)

  nothing_sent :
      (c : QuicConnection C S) (p : Bytes) {A : Type 0} → c.outbox ≡ [] → Among c.outbox p → A
  nothing_sent c p empty among = absurd (subst (λ o. Among o p) empty among)

  answered_asked :
      (m : Network C S)
      → m.client.state ≡ connected
      → IsOrdered m
      → HasAnswered m.server × HasStarted m.client
  answered_asked m e (c, w, inl k, b) = absurd (k e)
  answered_asked m e (c, w, inr (p, (among, h)), inl silent) =
      absurd (ground (arith, silent p among))
  answered_asked m e (c, w, inr a, inr b) = (a, b)

  -- Take a network that only carries the packets of a client and of a server, which have sent none yet
  -- and are not connected. Whatever the two call and whichever packets arrive, how often and in which
  -- order, the server is never connected, and the client is connected only when the server has sent a
  -- packet that ends a handshake and the client one that starts a connection.
  pub connected_order :
      (n m : Network C S)
      → n.client.is_client ≡ true
      → n.client.outbox ≡ []
      → n.server.outbox ≡ []
      → n.client.state ≢ connected
      → n.server.state ≢ connected
      → Hops n m
      → (m.server.state ≢ connected)
        × (m.client.state ≡ connected → HasAnswered m.server × HasStarted m.client)
  connected_order n m client empty silent k w path =
      let o = Hops-IsOrdered path (
        (client, λ p a. nothing_sent n.client p empty a),
        w,
        inl k,
        inl (λ p a. nothing_sent n.server p silent a),
      ) in
      (o.1, λ e. answered_asked m e o)
