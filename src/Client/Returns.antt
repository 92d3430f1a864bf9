-- ===== src/Client/Returns.antt =====
-- A call of `send_request` in src/client/mod.rs returns.
use dummy_h.Prelude.{
  ℕ, zero, suc, ◌+◌, ◌≤◌, ◌<◌, ◌≡◌, refl, ap, ◌∙◌, ◌≢◌, inl, inr, true, Option, none, some, List,
  [], ◌∷◌, ◌++◌, arith, ltb, lt→ltb, ==_refl, length, All, length-append,
}
use dummy_h.Prelude.Table
use dummy_h.Prelude.Table.{get-remove}
use dummy_h.Error.{ok}
use dummy_h.Config.{ClientConfig}
use dummy_h.Http.{HttpLib, H3Request}
use dummy_h.Http.Build.{ok_response}
use dummy_h.Connection.{QuicConnection}
use dummy_h.Client.{
  channel_size, Awaited, ready, Schedule, RequestMessage, ResponseMessage, H3Client, Session,
  Answer, new_session, round_with, round, rounds, take_response, process_response, assign, send_now,
  send_over, send_request,
}
use dummy_h.Client.Machine.{
  if_both, if_true, Reach, along, IsPlaceholder, Holds, Linked, rounds-Holds, round-client,
}
use dummy_h.Client.History.{IsSound, Step-IsSound}
use dummy_h.Client.Answers.{started}

module _ (L : HttpLib) where
  abbrev hand : Option (ResponseMessage L) → ℕ
  hand none = 0
  hand (some m) = 1

  module _ {C S : Type 0} where
    -- The answers on their way to the client.
    abbrev staged : Session L C S → ℕ
    staged s = hand s.in_hand + length s.responses

    round_with-requests :
        (s : Session L C S) (o : Option (ResponseMessage L)) (ms : List (RequestMessage L))
        → length ms ≤ length s.requests
        → length (round_with L s o ms).requests ≤ length s.requests
    unfolding round_with
    round_with-requests s (some r) ms h = ground arith
    round_with-requests s none (m ∷ ms) h = omega arith
    round_with-requests s none [] h = ground arith

    round_with-running :
        (s : Session L C S) (o : Option (ResponseMessage L)) (ms : List (RequestMessage L))
        → s.client.request_sender ≡ true
        → (round_with L s o ms).running ≡ s.running
    unfolding round_with
    round_with-running s (some r) ms h = ground arith
    round_with-running s none (m ∷ ms) h = refl
    round_with-running s none [] h = ground arith

    round_with-staged :
        (s : Session L C S) (o : Option (ResponseMessage L)) (ms : List (RequestMessage L))
        → s.client.response_receiver ≡ true
        → 0 < length ms
        → (0 < staged (round_with L s o ms))
    unfolding round_with
    round_with-staged s (some r) ms h k = ground (arith, length-append s.responses (r ∷ []))
    round_with-staged s none (m ∷ ms) h k = omega arith
    round_with-staged s none [] h k = absurd (omega arith)

    round_with-responses :
        (s : Session L C S) (o : Option (ResponseMessage L)) (ms : List (RequestMessage L))
        → s.client.response_receiver ≡ true
        → 0 < hand o + length s.responses
        → 0 < length (round_with L s o ms).responses
    unfolding round_with
    round_with-responses s (some r) ms h k = ground (arith, length-append s.responses (r ∷ []))
    round_with-responses s none (m ∷ ms) h k = omega arith
    round_with-responses s none [] h k = ground arith

    rounds-requests :
        (n : ℕ) (s : Session L C S) → length (rounds L n s).requests ≤ length s.requests
    unfolding rounds round
    rounds-requests zero s = omega arith
    rounds-requests (suc n) s =
        let h : length (round L s).requests ≤ length s.requests =
          if_both (λ (t : Session L C S). length t.requests ≤ length s.requests) s.running
            (round_with-requests s s.in_hand s.requests (omega arith)) (omega arith) in
        omega (arith, rounds-requests n (round L s))

    round-running :
        (s : Session L C S) → s.client.request_sender ≡ true → (round L s).running ≡ s.running
    unfolding round
    round-running s h =
        if_both (λ (t : Session L C S). t.running ≡ s.running) s.running
          (round_with-running s s.in_hand s.requests h) refl

    -- The client has its ends of the channels, and the task runs.
    abbrev pub Serving : Session L C S → Type 0
    Serving s =
        (s.client.request_sender ≡ true) × (s.client.response_receiver ≡ true) × (s.running ≡ true)

    round-Serving : (s : Session L C S) → Serving s → Serving (round L s)
    round-Serving s (g, h, r) = (
      ap (λ (k : H3Client L C S). k.request_sender) (round-client L s) ∙ g,
      ap (λ (k : H3Client L C S). k.response_receiver) (round-client L s) ∙ h,
      round-running s g ∙ r,
    )

    rounds-Serving : (n : ℕ) (s : Session L C S) → Serving s → Serving (rounds L n s)
    unfolding rounds
    rounds-Serving zero s h = h
    rounds-Serving (suc n) s h = rounds-Serving n (round L s) (round-Serving s h)

    round-responses :
        (s : Session L C S) → Serving s → 0 < staged s → 0 < length (round L s).responses
    unfolding round
    round-responses s (g, h, r) k =
        if_true (λ (t : Session L C S). 0 < length t.responses) s.running _ r
          (round_with-responses s s.in_hand s.requests h k)

    round-staged : (s : Session L C S) → Serving s → 0 < length s.requests → 0 < staged (round L s)
    unfolding round
    round-staged s (g, h, r) k =
        if_true (λ (t : Session L C S). 0 < staged t) s.running _ r
          (round_with-staged s s.in_hand s.requests h k)

    rounds-responses :
        (n : ℕ) (s : Session L C S)
        → Serving s
        → 0 < length s.responses
        → 0 < length (rounds L n s).responses
    unfolding rounds
    rounds-responses zero s h k = k
    rounds-responses (suc n) s h k =
        rounds-responses n (round L s) (round-Serving s h) (round-responses s h (omega arith))

    -- Two rounds with a request bring an answer.
    two_rounds :
        (n : ℕ) (s : Session L C S)
        → Serving s
        → 0 < length s.requests
        → 2 ≤ n
        → 0 < length (rounds L n s).responses
    unfolding rounds
    two_rounds zero s h k l = absurd (omega arith)
    two_rounds (suc zero) s h k l = absurd (omega arith)
    two_rounds (suc (suc n)) s h k l =
        let h' = round-Serving s h in
        rounds-responses n (round L (round L s)) (round-Serving (round L s) h')
          (round-responses (round L s) h' (round-staged s h k))

    -- The call has returned with the placeholder, and its request is no longer active.
    abbrev pub Served : ℕ → Session L C S × Awaited (Answer L) → Type 0
    Served id r =
        (r.1 ≡ ready (ok (ok_response L))) × (Table.get r.0.client.active_requests id ≡ none)

    take_response-Served :
        (s : Session L C S) (id : ℕ) (ms : List (ResponseMessage L))
        → All (IsPlaceholder L) ms
        → 0 < length ms
        → Served id (take_response L s id ms)
    unfolding take_response
    take_response-Served s id (m ∷ ms) (a, b) k =
        (ap ready a, get-remove s.client.active_requests id id ∙ rw (==_refl id) refl)
    take_response-Served s id [] h k = absurd (omega arith)

    process_response-Served :
        (s : Session L C S) (id n : ℕ)
        → Holds L s
        → Serving s
        → 0 < length s.requests
        → 2 ≤ n
        → Served id (process_response L s id n)
    unfolding process_response
    process_response-Served s id n h v k l =
        let t = rounds L n s in
        let f =
          take_response-Served t id t.responses (rounds-Holds L n s h).0 (two_rounds n s v k l) in
        if_true (Served id) s.client.response_receiver _ v.1 f

    send_now-Served :
        (s : Session L C S) (id : ℕ) (m : RequestMessage L) (n : ℕ)
        → Holds L s
        → Serving s
        → length s.requests < channel_size
        → 2 ≤ n
        → Served id (send_now L s id m n)
    unfolding send_now
    send_now-Served s id m n (a, h, p, q) v k l =
        let more = length-append s.requests (m ∷ []) in
        if_true (Served id) s.running _ v.2 (
          if_true (Served id) (ltb (length s.requests) channel_size) _ (lt→ltb _ _ k) (
            process_response-Served (record s { requests = s.requests ++ m ∷ [] }) id n
              (a, h, omega (arith, more), q) v (omega (arith, more)) l))

    send_over-Served :
        (s : Session L C S) (o : Option (QuicConnection C S)) (request : H3Request L) (w : Schedule)
        → o ≢ none
        → Holds L s
        → Serving s
        → length s.requests < channel_size
        → 2 ≤ w.before_answer
        → Served s.client.next_request_id (send_over L s o request w)
    unfolding send_over assign
    send_over-Served s none request w e h v k l = absurd (e refl)
    send_over-Served s (some d) request w e h v k l =
        let t = assign L s in
        let f =
          send_now-Served (rounds L w.before_send t) s.client.next_request_id
            (record { request = request }) w.before_answer (rounds-Holds L w.before_send t h)
            (rounds-Serving w.before_send t v) (omega (arith, rounds-requests w.before_send t)) l in
        if_true (Served s.client.next_request_id) s.client.request_sender _ v.0 f

    has_ends :
        (c : QuicConnection C S) (s : Session L C S)
        → Linked L c s.client
        → s.client.connection ≢ none
        → s.running ≡ true
        → Serving s
    has_ends c s (inl gone) e r = absurd (e gone)
    has_ends c s (inr (same, g, h)) e r = (g, h, r)

    -- Whatever a client has been asked before, a request returns with the placeholder response and is
    -- no longer active, as long as the client has its connection and its task runs, the channel is not
    -- full, and the task makes two rounds while the call waits.
    pub send_request_returns :
        (config : ClientConfig) (c : QuicConnection C S) (uri : L.Uri) (s : Session L C S)
        (request : H3Request L) (w : Schedule)
        → Reach L C S (new_session L config c uri) s
        → s.client.connection ≢ none
        → s.running ≡ true
        → length s.requests < channel_size
        → 2 ≤ w.before_answer
        → Served s.client.next_request_id (send_request L s request w)
    unfolding send_request
    send_request_returns config c uri s request w path e r k l =
        let (link, h) =
          along L C S (IsSound L c) (Step-IsSound L c) _ s path (started L config c uri) in
        send_over-Served s s.client.connection request w e h (has_ends c s link e r) k l
