-- ===== src/Http.antt =====
-- Bodies, requests and responses: src/protocol/response.rs and src/protocol/request.rs. The `http`
-- crate's types and functions are the interface `HttpLib`.

pub mod Build
pub mod Chunks
pub mod Headers
use Prim.Native.String.{String}
use dummy_h.Prelude.{
  ℕ, ◌≡◌, ◌≢◌, ◌↔◌, Bool, true, false, Option, none, some, List, [], ◌∷◌, ◌++◌, length,
}
use dummy_h.Error.{Message, Result, ok, err}
use dummy_h.Varint.{Bytes}
use dummy_h.Frame.{Priority}

pub data BodyError : Type 0 where
  read write : Message → BodyError
  too_large unexpected_end : BodyError

-- A stream is the list of the items that it yields before it ends.
pub data Body : Type 0 where
  empty : Body
  bytes : Bytes → Body
  streaming : List (Result BodyError Bytes) → Body

-- A stream is not copied.
unfoldable pub clone : Body → Body
clone empty = empty
clone (bytes b) = bytes b
clone (streaming items) = empty

unfoldable pub is_empty : Body → Bool
is_empty empty = true
is_empty b = false

unfoldable pub size_hint : Body → Option ℕ
size_hint empty = some 0
size_hint (bytes b) = some (length b)
size_hint (streaming items) = none

-- `while let Some(chunk) = …` with the bytes so far.
unfoldable pub read_all : List (Result BodyError Bytes) → Bytes → Result BodyError Bytes
read_all [] buf = ok buf
read_all (ok chunk ∷ items) buf = read_all items (buf ++ chunk)
read_all (err e ∷ items) buf = err e

unfoldable pub to_bytes : Body → Result BodyError Bytes
unfolding read_all
to_bytes empty = ok []
to_bytes (bytes b) = ok b
to_bytes (streaming items) = read_all items []

unfoldable pub empty_body : Body
empty_body = empty

unfoldable pub from_bytes : Bytes → Body
from_bytes b = bytes b

unfoldable pub from_stream : List (Result BodyError Bytes) → Body
from_stream items = streaming items

-- The `From` conversions. A text's bytes are its UTF-8 encoding, `utf8`.
unfoldable pub body-of_unit : Unit {0} → Body
body-of_unit u = empty

unfoldable pub body-of_bytes : Bytes → Body
body-of_bytes b = bytes b

unfoldable pub body-of_text : (String → Bytes) → String → Body
body-of_text utf8 text = bytes (utf8 text)

pub record BodyStream : Type 0 where
  pub inner : List (Result BodyError Bytes)

unfoldable pub new_body_stream : List (Result BodyError Bytes) → BodyStream
new_body_stream items = record { inner = items }

-- The stream after a call, and its item; `none` is the end.
unfoldable pub poll_next : BodyStream → BodyStream × Option (Result BodyError Bytes)
poll_next s = polled s.inner
  where
    polled : List (Result BodyError Bytes) → BodyStream × Option (Result BodyError Bytes)
    polled [] = (s, none)
    polled (item ∷ rest) = (record { inner = rest }, some item)

-- Addresses with what is read from them, and maps of headers, with the names that the code uses;
-- `to_str` and `as_number` are the two steps of
-- reading a number. Names are compared by
-- `same_name`. What is inserted under a name is found there, and the other names are as before.
pub record HttpLib : Type 1 where
  pub Method : Type 0
  pub Uri : Type 0
  pub UriError : Type 0
  pub Headers : Type 0
  pub Name : Type 0
  pub Value : Type 0
  pub Status : Type 0
  pub parse_uri : String → Result UriError Uri
  pub host : Uri → Option String
  pub port_u16 : Uri → Option ℕ
  pub scheme_str : Uri → Option String
  pub authority_str : Uri → Option String
  pub path_str : Uri → String
  pub query_str : Uri → Option String
  pub get : Method
  pub post : Method
  pub put : Method
  pub delete : Method
  pub patch : Method
  pub ok_status : Status
  pub not_found_status : Status
  pub internal_error_status : Status
  pub is_success_status : Status → Bool
  pub is_client_error_status : Status → Bool
  pub is_server_error_status : Status → Bool
  pub content_length_name : Name
  pub content_type_name : Name
  pub user_agent_name : Name
  pub authorization_name : Name
  pub same_name : Name → Name → Bool
  pub new_headers : Headers
  pub insert : Headers → Name → Value → Headers
  pub find : Headers → Name → Option Value
  pub to_str : Value → Option String
  pub as_number : String → Option ℕ
  pub same_name_iff : (n m : Name) → (same_name n m ≡ true) ↔ (n ≡ m)
  pub find-new : (n : Name) → find new_headers n ≡ none
  pub find-insert : (h : Headers) (n : Name) (v : Value) → find (insert h n v) n ≡ some v
  pub find-insert_other :
      (h : Headers) (n m : Name) (v : Value) → n ≢ m → find (insert h n v) m ≡ find h m

module _ (L : HttpLib) where
  pub record H3Response : Type 0 where
    pub status : L.Status
    pub headers : L.Headers
    pub body : Body
    pub trailers : Option L.Headers

  pub record H3Request : Type 0 where
    pub method : L.Method
    pub uri : L.Uri
    pub headers : L.Headers
    pub body : Option Body
    pub priority : Priority

  pub record H3RequestBuilder : Type 0 where
    pub method : L.Method
    pub uri : Result L.UriError L.Uri
    pub headers : L.Headers
    pub body : Option Body
    pub priority : Priority
