-- ===== src/Client/Close.antt =====
-- Closing a client of src/client/mod.rs, and what becomes of its task.
use dummy_h.Prelude.{
  ℕ, zero, suc, ◌+◌, ◌≤◌, ◌≡◌, refl, sym, subst, ◌⊎◌, inl, inr, Bool, true, false, Option, none,
  some, List, [], ◌∷◌, arith, if◌then◌else◌, Bool-cases, length,
}
use dummy_h.Error.{msg, config, Result, ok, err}
use dummy_h.Http.{HttpLib, H3Request}
use dummy_h.Connection
use dummy_h.Connection.{QuicConnection, Stop, Sending}
use dummy_h.Client.Machine.{if_true}
use dummy_h.Client.{
  ready, Schedule, RequestMessage, ResponseMessage, Session, send_over, send_request, drop_channels,
  finish_close, close_over, close, round_with, round, rounds,
}

if_false :
    {A : Type 0} (P : A → Type 0) (b : Bool) (x : A) {y : A}
    → b ≡ false
    → P y
    → P (if b then x else y)
if_false P false x e h = h
if_false P true x e h = absurd (ground arith)

module _ (L : HttpLib) where
  -- The rounds that the task has left when no channel has its other end: one for an answer in hand, two
  -- for each request, and the last.
  abbrev pub rounds_left : Option (ResponseMessage L) → List (RequestMessage L) → ℕ
  rounds_left none ms = length ms + length ms + 1
  rounds_left (some r) ms = length ms + length ms + 2

  never : (o : Option (ResponseMessage L)) (ms : List (RequestMessage L)) → ¬ (rounds_left o ms ≤ 0)
  never none ms h = omega arith
  never (some r) ms h = omega arith

module _ (L : HttpLib) {C S : Type 0} where
  -- No connection, no channel and no active request is left.
  abbrev pub IsShut : Session L C S → Type 0
  IsShut s =
      (s.client.connection ≡ none)
      × (s.client.request_sender ≡ false)
      × (s.client.response_receiver ≡ false)
      × (s.client.active_requests ≡ [])

  -- A call of `close` that succeeds shuts the client; one that fails takes the connection alone.
  abbrev pub AfterClose : Session L C S → Session L C S → Result Stop (Unit {0}) → Type 0
  AfterClose s t (ok u) = IsShut t
  AfterClose s t (err e) = t ≡ record s { client = record s.client { connection = none } }

  close_over-AfterClose :
      (s : Session L C S) (o : Option (QuicConnection C S)) (w : Sending)
      → o ≡ s.client.connection
      → let (t, r) = close_over L s o w in AfterClose s t r × (t.client.connection ≡ none)
  unfolding close_over finish_close drop_channels
  close_over-AfterClose s none w e = ((sym e, refl, refl, refl), sym e)
  close_over-AfterClose s (some c) w e = finished (Connection.close c w).1
    where
      finished :
          (r : Result Stop (Unit {0}))
          → let (t, r') =
              finish_close L (record s { client = record s.client { connection = none } }) r in
            AfterClose s t r' × (t.client.connection ≡ none)
      finished (ok u) = ((refl, refl, refl, refl), refl)
      finished (err x) = (refl, refl)

  close_over-none :
      (s : Session L C S) (o : Option (QuicConnection C S)) (w : Sending)
      → o ≡ none
      → close_over L s o w ≡ (drop_channels L s, ok tt)
  unfolding close_over finish_close
  close_over-none s o w e = rw e refl

  send_over-none :
      (s : Session L C S) (o : Option (QuicConnection C S)) (request : H3Request L) (w : Schedule)
      → o ≡ none
      → send_over L s o request w ≡ (s, ready (err (config (msg "Not connected" []))))
  unfolding send_over
  send_over-none s o request w e = rw e refl

  abbrev NoEnds : Session L C S → Type 0
  NoEnds s = (s.client.request_sender ≡ false) × (s.client.response_receiver ≡ false)

  -- The task has ended, or has so many rounds left.
  abbrev Winds : ℕ → Session L C S → Type 0
  Winds n s = (s.running ≡ false) ⊎ (rounds_left L s.in_hand s.requests ≤ n)

  round_with-Winds :
      (n : ℕ) (s : Session L C S) (o : Option (ResponseMessage L)) (ms : List (RequestMessage L))
      → o ≡ s.in_hand
      → ms ≡ s.requests
      → NoEnds s
      → rounds_left L o ms ≤ suc n
      → Winds n (round_with L s o ms) × NoEnds (round_with L s o ms)
  unfolding round_with
  round_with-Winds n s (some r) ms e f (k, l) h =
      if_false (λ t. Winds n t × NoEnds t) s.client.response_receiver _ l
        (inr (subst (λ qs. rounds_left L none qs ≤ n) f (omega arith)), (k, l))
  round_with-Winds n s none (m ∷ ms) e f (k, l) h = (inr (omega arith), (k, l))
  round_with-Winds n s none [] e f (k, l) h =
      if_false (λ t. Winds n t × NoEnds t) s.client.request_sender _ k (inl refl, (k, l))

  round-Winds :
      (n : ℕ) (s : Session L C S)
      → NoEnds s
      → Winds (suc n) s
      → Winds n (round L s) × NoEnds (round L s)
  unfolding round
  round-Winds n s k w = elim (Bool-cases s.running) [
    | inl e ↦
        if_true (λ t. Winds n t × NoEnds t) s.running s e
          (round_with-Winds n s s.in_hand s.requests refl refl k (ground (arith, w)))
    | inr e ↦
        if_false (λ t. Winds n t × NoEnds t) s.running (round_with L s s.in_hand s.requests) e
          (inl e, k)
  ]

  rounds-stopped :
      (n : ℕ) (s : Session L C S) → NoEnds s → Winds n s → (rounds L n s).running ≡ false
  unfolding rounds
  rounds-stopped zero s k (inl e) = e
  rounds-stopped zero s k (inr h) = absurd (never L s.in_hand s.requests h)
  rounds-stopped (suc n) s k w =
      let (w', k') = round-Winds n s k w in rounds-stopped n (round L s) k' w'

  -- A call of `close` that succeeds shuts the client, and one that fails takes the connection and leaves
  -- all else. After a second call, which succeeds, the client is shut whatever became of the first, no
  -- request is taken any more, and the task ends within two rounds for each request in its channel and
  -- two more.
  pub close_twice :
      (s : Session L C S) (w v : Sending) (request : H3Request L) (x : Schedule)
      → let (t, q) = close L s w in
        let (u, r) = close L t v in
        AfterClose s t q
        × (r ≡ ok tt)
        × IsShut u
        × (send_request L u request x ≡ (u, ready (err (config (msg "Not connected" [])))))
        × ((rounds L (length u.requests + length u.requests + 2) u).running ≡ false)
  unfolding close drop_channels send_request
  close_twice s w v request x =
      let t = (close_over L s s.client.connection w).0 in
      let (first, gone) = close_over-AfterClose s s.client.connection w refl in
      let u = drop_channels L t in
      rw (close_over-none t t.client.connection v gone) (
        first,
        refl,
        (gone, refl, refl, refl),
        send_over-none _ t.client.connection request x gone,
        rounds-stopped _ u (refl, refl) (inr (within u.in_hand u.requests)),
      )
    where
      within :
          (o : Option (ResponseMessage L)) (ms : List (RequestMessage L))
          → rounds_left L o ms ≤ length ms + length ms + 2
      within none ms = omega arith
      within (some r) ms = omega arith
