-- ===== src/Client.antt =====
-- `H3Client` of src/client/mod.rs, with the task that it spawns and the channels between them.
pub mod Connect
pub mod Machine
pub mod History
pub mod Answers
pub mod Returns
pub mod Close
use dummy_h.Prelude.{
  ℕ, zero, suc, ◌+◌, ◌%◌, ◌^◌, Bool, true, false, not, Option, none, some, List, [], ◌∷◌, ◌++◌, ltb,
  if◌then◌else◌, length,
}
use dummy_h.Prelude.Table
use dummy_h.Prelude.Table.{Table}
use dummy_h.Error.{msg, H3Error, config, internal, Result, ok, err}
use dummy_h.Config.{ClientConfig}
use dummy_h.Http.{HttpLib, H3Request, H3Response}
use dummy_h.Http.Build.{ok_response}
use dummy_h.Http.Chunks.{ResponseStream, new_stream}
use dummy_h.Connection
use dummy_h.Connection.{QuicConnection, Stop, failure, Sending}

abbrev pub channel_size : ℕ
channel_size = 100

-- A call that has returned, or one that still waits for the task.
pub data Awaited {ℓ} (A : Type ℓ) : Type ℓ where
  ready : A → Awaited A
  waiting : Awaited A

-- How many rounds the task makes while a call waits for room in the channel, and for an answer.
pub record Schedule : Type 0 where
  pub before_send : ℕ
  pub before_answer : ℕ

module _ (L : HttpLib) where
  -- The dummy sender beside the request is dropped, and nobody reads from it.
  pub record RequestMessage : Type 0 where
    pub request : H3Request L

  pub record ResponseMessage : Type 0 where
    pub response : Result H3Error (H3Response L)

  abbrev pub Answer : Type 0
  Answer = Result H3Error (H3Response L)

  -- `request_sender` and `response_receiver` tell whether the client holds its end of the channel. The
  -- receivers of the active requests' one-shot channels are dropped when a call ends.
  pub record H3Client (C S : Type 0) : Type 0 where
    pub config : ClientConfig
    pub connection : Option (QuicConnection C S)
    pub request_sender : Bool
    pub response_receiver : Bool
    pub active_requests : Table (Unit {0})
    pub next_request_id : ℕ
    pub server_uri : L.Uri

  -- The client, what stands in the two channels, and the task: the answer that it has made and not yet
  -- sent, and whether it runs.
  pub record Session (C S : Type 0) : Type 0 where
    pub client : H3Client C S
    pub requests : List RequestMessage
    pub responses : List ResponseMessage
    pub in_hand : Option ResponseMessage
    pub running : Bool

  -- The task's work on a request: a placeholder.
  unfoldable pub respond : RequestMessage → ResponseMessage
  respond m = record { response = ok (ok_response L) }

  module _ {C S : Type 0} where
    -- The client that `connect` makes from its connection, with the task that it spawns.
    unfoldable pub new_session : ClientConfig → QuicConnection C S → L.Uri → Session C S
    new_session settings connection uri = record {
      client = record {
        config = settings;
        connection = some connection;
        request_sender = true;
        response_receiver = true;
        active_requests = [];
        next_request_id = 1;
        server_uri = uri;
      };
      requests = [];
      responses = [];
      in_hand = none;
      running = true;
    }

    -- A step of the task's loop: it sends its answer when there is room, drops it when nobody listens,
    -- takes the next request, or ends when there is none and there will be none.
    unfoldable pub round_with :
        Session C S → Option ResponseMessage → List RequestMessage → Session C S
    unfolding respond
    round_with s (some r) ms =
        if s.client.response_receiver
        then (if ltb (length s.responses) channel_size
            then record s { in_hand = none; responses = s.responses ++ r ∷ [] }
            else s)
        else record s { in_hand = none }
    round_with s none (m ∷ ms) = record s { in_hand = some (respond m); requests = ms }
    round_with s none [] = if s.client.request_sender then s else record s { running = false }

    unfoldable pub round : Session C S → Session C S
    unfolding round_with
    round s = if s.running then round_with s s.in_hand s.requests else s

    unfoldable pub rounds : ℕ → Session C S → Session C S
    rounds zero s = s
    rounds (suc n) s = rounds n (round s)

    -- What `recv` gives for the messages in the channel.
    unfoldable pub take_response :
        Session C S → ℕ → List ResponseMessage → Session C S × Awaited Answer
    take_response s request_id (m ∷ ms) = (
      record s {
        responses = ms;
        client = record s.client {
          active_requests = Table.remove s.client.active_requests request_id;
        };
      },
      ready m.response,
    )
    take_response s request_id [] =
        if s.running
        then (s, waiting)
        else (s, ready (err (internal (msg "Failed to receive response" []))))

    unfoldable pub process_response : Session C S → ℕ → ℕ → Session C S × Awaited Answer
    unfolding take_response
    process_response s request_id n =
        if s.client.response_receiver
        then take_response (rounds n s) request_id (rounds n s).responses
        else (s, ready (err (internal (msg "Failed to receive response" []))))

    -- A request is given its identifier.
    unfoldable pub assign : Session C S → Session C S
    assign s = record s {
      client = record s.client {
        next_request_id = (s.client.next_request_id + 1) % 2 ^ 64;
        active_requests = Table.insert s.client.active_requests s.client.next_request_id tt;
      };
    }

    -- `sender.send(…)` once the call is at the head of those that wait for room, and what follows.
    unfoldable pub send_now : Session C S → ℕ → RequestMessage → ℕ → Session C S × Awaited Answer
    send_now s request_id m n =
        if s.running
        then (if ltb (length s.requests) channel_size
            then process_response (record s { requests = s.requests ++ m ∷ [] }) request_id n
            else (s, waiting))
        else (s, ready (err (internal (msg "Failed to send request" []))))

    -- The call with its connection as an argument, after the guard on it. `version`, which is set on
    -- the request, is no field of it.
    unfoldable pub send_over :
        Session C S
        → Option (QuicConnection C S)
        → H3Request L
        → Schedule
        → Session C S × Awaited Answer
    unfolding assign send_now
    send_over s none request w = (s, ready (err (config (msg "Not connected" []))))
    send_over s (some c) request w =
        let s' = assign s in
        if s'.client.request_sender
        then send_now (rounds w.before_send s') s.client.next_request_id
            (record { request = request }) w.before_answer
        else (s', ready (err (config (msg "Request sender not available" []))))

    unfoldable pub send_request :
        Session C S → H3Request L → Schedule → Session C S × Awaited Answer
    unfolding send_over
    send_request s request w = send_over s s.client.connection request w

    -- The sender of the stream's chunks is dropped at the end, so none comes.
    unfoldable pub send_request_stream :
        Session C S → H3Request L → Session C S × Result H3Error (ResponseStream L.Headers L.Status)
    send_request_stream s request = elim s.client.connection [
      | none ↦ (s, err (config (msg "Not connected" [])))
      | some c ↦ (s, ok (new_stream []))
    ]

    -- The end of `close`: the channels are dropped and the active requests drained. What is sent to each
    -- of these reaches nobody, since its receiver was dropped when its call ended.
    unfoldable pub drop_channels : Session C S → Session C S
    drop_channels s = record s {
      client = record s.client {
        request_sender = false;
        response_receiver = false;
        active_requests = [];
      };
      responses = [];
    }

    -- `conn.close().await?` and the rest.
    unfoldable pub finish_close :
        Session C S → Result Stop (Unit {0}) → Session C S × Result Stop (Unit {0})
    unfolding drop_channels
    finish_close s (ok u) = (drop_channels s, ok tt)
    finish_close s (err e) = (s, err e)

    unfoldable pub close_over :
        Session C S → Option (QuicConnection C S) → Sending → Session C S × Result Stop (Unit {0})
    unfolding finish_close
    close_over s none w = finish_close s (ok tt)
    close_over s (some c) w =
        finish_close (record s { client = record s.client { connection = none } })
          (Connection.close c w).1

    unfoldable pub close : Session C S → Sending → Session C S × Result Stop (Unit {0})
    unfolding close_over
    close s w = close_over s s.client.connection w
