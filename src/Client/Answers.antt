-- ===== src/Client/Answers.antt =====
-- What a call of `send_request` in src/client/mod.rs answers, and that it returns.
use dummy_h.Prelude.{
  ℕ, ◌≡◌, refl, sym, ap, ◌∙◌, subst, ◌≢◌, inl, inr, true, Option, none, some, List, [], ◌∷◌, ◌++◌,
  arith, ltb, Bool-cases, length, All, length-append,
}
use dummy_h.Error.{ok, err}
use dummy_h.Config.{ClientConfig}
use dummy_h.Http.{HttpLib, H3Request, H3Response}
use dummy_h.Http.Build.{ok_response}
use dummy_h.Connection.{QuicConnection}
use dummy_h.Client.{
  channel_size, Awaited, ready, waiting, Schedule, RequestMessage, ResponseMessage, H3Client,
  Session, Answer, new_session, rounds, take_response, process_response, assign, send_now,
  send_over, send_request,
}
use dummy_h.Client.Machine.{
  if_both, Reach, along, IsPlaceholder, Holds, rounds-Holds, rounds-client,
}
use dummy_h.Client.History.{IsSound, Step-IsSound}

module _ (L : HttpLib) where
  -- A response, if there is one, is the placeholder.
  abbrev Fine : Awaited (Answer L) → Type 0
  Fine (ready (ok r)) = r ≡ ok_response L
  Fine (ready (err e)) = Unit {0}
  Fine waiting = Unit {0}

  placeholder_is : (a : Answer L) → a ≡ ok (ok_response L) → Fine (ready a)
  placeholder_is a e = subst (λ b. Fine (ready b)) (sym e) refl

  of_returned :
      (a : Awaited (Answer L)) (r : H3Response L) → Fine a → a ≡ ready (ok r) → r ≡ ok_response L
  of_returned a r f e = subst Fine e f

  module _ {C S : Type 0} where
    -- The call leaves the client's connection alone, and its response is the placeholder.
    abbrev Fair : Session L C S → Session L C S × Awaited (Answer L) → Type 0
    Fair s r = (r.0.client.connection ≡ s.client.connection) × Fine r.1

    take_response-Fair :
        (s : Session L C S) (id : ℕ) (ms : List (ResponseMessage L))
        → All (IsPlaceholder L) ms
        → Fair s (take_response L s id ms)
    unfolding take_response
    take_response-Fair s id (m ∷ ms) (a, b) = (refl, placeholder_is m.response a)
    take_response-Fair s id [] h = if_both (Fair s) s.running (refl, tt) (refl, tt)

    process_response-Fair :
        (s : Session L C S) (id n : ℕ) → Holds L s → Fair s (process_response L s id n)
    unfolding process_response
    process_response-Fair s id n h =
        let t = rounds L n s in
        let f = take_response-Fair t id t.responses (rounds-Holds L n s h).0 in
        if_both (Fair s) s.client.response_receiver
          (f.0 ∙ ap (λ (k : H3Client L C S). k.connection) (rounds-client L n s), f.1) (refl, tt)

    send_now-Fair :
        (s : Session L C S) (id : ℕ) (m : RequestMessage L) (n : ℕ)
        → Holds L s
        → Fair s (send_now L s id m n)
    unfolding send_now
    send_now-Fair s id m n h =
        if_both (Fair s) s.running
          (elim (Bool-cases (ltb (length s.requests) channel_size)) [
            | inl e ↦ rw e (process_response-Fair _ id n (queued e h))
            | inr e ↦ rw e (refl, tt)
          ])
          (refl, tt)
      where
        queued :
            ltb (length s.requests) channel_size ≡ true
            → Holds L s
            → Holds L (record s { requests = s.requests ++ m ∷ [] })
        queued e (a, k, p, q) = (a, k, ground (arith, length-append s.requests (m ∷ [])), q)

    send_over-Fair :
        (s : Session L C S) (o : Option (QuicConnection C S)) (request : H3Request L) (w : Schedule)
        → Holds L s
        → Fair s (send_over L s o request w)
    unfolding send_over assign
    send_over-Fair s none request w h = (refl, tt)
    send_over-Fair s (some d) request w h =
        let t = rounds L w.before_send (assign L s) in
        let f =
          send_now-Fair t s.client.next_request_id (record { request = request }) w.before_answer
            (rounds-Holds L w.before_send (assign L s) h) in
        if_both (Fair s) s.client.request_sender
          (
            f.0
                ∙ ap (λ (k : H3Client L C S). k.connection)
                    (rounds-client L w.before_send (assign L s)),
            f.1,
          )
          (refl, tt)

    refused :
        (s : Session L C S) (o : Option (QuicConnection C S)) (request : H3Request L) (w : Schedule)
        (r : H3Response L)
        → o ≡ none
        → (send_over L s o request w).1 ≢ ready (ok r)
    unfolding send_over
    refused s none request w r e h = ground arith
    refused s (some d) request w r e h = cc

    pub started :
        (config : ClientConfig) (c : QuicConnection C S) (uri : L.Uri)
        → IsSound L c (new_session L config c uri)
    unfolding new_session
    started config c uri = (inr (refl, refl, refl), (tt, tt, omega arith, omega arith))

    -- Whatever a client has been asked and whatever its task has done, a request gets no other response
    -- than the placeholder of the task, and the connection is the one that the client was made with: the
    -- request is not sent on it.
    pub only_placeholders :
        (config : ClientConfig) (c : QuicConnection C S) (uri : L.Uri) (s : Session L C S)
        (request : H3Request L) (w : Schedule) (r : H3Response L)
        → Reach L C S (new_session L config c uri) s
        → (send_request L s request w).1 ≡ ready (ok r)
        → (r ≡ ok_response L) × ((send_request L s request w).0.client.connection ≡ some c)
    unfolding send_request
    only_placeholders config c uri s request w r path e =
        let (l, h) = along L C S (IsSound L c) (Step-IsSound L c) _ s path (started config c uri) in
        let f = send_over-Fair s s.client.connection request w h in
        (
          of_returned _ r f.1 e,
          f.0 ∙ elim l [
            | inl gone ↦ absurd (refused s s.client.connection request w r gone e)
            | inr (same, x, y) ↦ same
          ],
        )
