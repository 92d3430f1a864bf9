-- ===== src/Http/Build.antt =====
-- The operations of src/protocol/response.rs and src/protocol/request.rs. What `TryInto` makes of an
-- argument is the argument: nothing, where the conversion fails.
use Prim.Native.String.{String}
use dummy_h.Prelude.{ℕ, Bool, true, false, Option, none, some}
use dummy_h.Error.{Result, ok, ◌>>=◌}
use dummy_h.Frame.{Priority}
use dummy_h.Http.{Body, empty, HttpLib, H3Response, H3Request, H3RequestBuilder}

unfoldable pub default_priority : Priority
default_priority = record { weight = 16; depends_on = none; exclusive = false }

abbrev pub and_then {ℓ} : {A B : Type ℓ} → Option A → (A → Option B) → Option B
and_then none f = none
and_then (some a) f = f a

module _ (L : HttpLib) where
  -- `if let (Ok(key), Ok(value)) = (key.try_into(), value.try_into()) { … }`
  unfoldable pub set_header : L.Headers → Option L.Name → Option L.Value → L.Headers
  set_header h (some key) (some value) = L.insert h key value
  set_header h (some key) none = h
  set_header h none value = h

  unfoldable pub number_under : L.Headers → L.Name → Option ℕ
  number_under h n = and_then (and_then (L.find h n) L.to_str) L.as_number

  unfoldable pub new_response : L.Status → H3Response L
  new_response status = record {
    status = status;
    headers = L.new_headers;
    body = empty;
    trailers = none;
  }

  unfoldable pub ok_response : H3Response L
  unfolding new_response
  ok_response = new_response L.ok_status

  unfoldable pub not_found : H3Response L
  unfolding new_response
  not_found = new_response L.not_found_status

  unfoldable pub internal_server_error : H3Response L
  unfolding new_response
  internal_server_error = new_response L.internal_error_status

  unfoldable pub response_length : H3Response L → Option ℕ
  unfolding number_under
  response_length r = number_under r.headers L.content_length_name

  unfoldable pub is_success : H3Response L → Bool
  is_success r = L.is_success_status r.status

  unfoldable pub is_client_error : H3Response L → Bool
  is_client_error r = L.is_client_error_status r.status

  unfoldable pub is_server_error : H3Response L → Bool
  is_server_error r = L.is_server_error_status r.status

  unfoldable pub content_type : H3Response L → Option String
  content_type r = and_then (L.find r.headers L.content_type_name) L.to_str

  unfoldable pub with_body : H3Response L → Body → H3Response L
  with_body r body = record r { body = body }

  unfoldable pub with_header : H3Response L → Option L.Name → Option L.Value → H3Response L
  unfolding set_header
  with_header r key value = record r { headers = set_header r.headers key value }

  unfoldable pub new_request : L.Method → L.Uri → H3Request L
  unfolding default_priority
  new_request method uri = record {
    method = method;
    uri = uri;
    headers = L.new_headers;
    body = none;
    priority = default_priority;
  }

  unfoldable pub request_length : H3Request L → Option ℕ
  unfolding number_under
  request_length r = number_under r.headers L.content_length_name

  unfoldable pub has_body : H3Request L → Bool
  has_body r = elim r.body [ none ↦ false | some b ↦ true ]

  unfoldable pub authority : H3Request L → Option String
  authority r = L.authority_str r.uri

  unfoldable pub path : H3Request L → String
  path r = L.path_str r.uri

  unfoldable pub query : H3Request L → Option String
  query r = L.query_str r.uri

  unfoldable pub new_builder : L.Method → Result L.UriError L.Uri → H3RequestBuilder L
  unfolding default_priority
  new_builder method uri = record {
    method = method;
    uri = uri;
    headers = L.new_headers;
    body = none;
    priority = default_priority;
  }

  unfoldable pub get_request : Result L.UriError L.Uri → H3RequestBuilder L
  unfolding new_builder
  get_request uri = new_builder L.get uri

  unfoldable pub post_request : Result L.UriError L.Uri → H3RequestBuilder L
  unfolding new_builder
  post_request uri = new_builder L.post uri

  unfoldable pub put_request : Result L.UriError L.Uri → H3RequestBuilder L
  unfolding new_builder
  put_request uri = new_builder L.put uri

  unfoldable pub delete_request : Result L.UriError L.Uri → H3RequestBuilder L
  unfolding new_builder
  delete_request uri = new_builder L.delete uri

  unfoldable pub patch_request : Result L.UriError L.Uri → H3RequestBuilder L
  unfolding new_builder
  patch_request uri = new_builder L.patch uri

  unfoldable pub header : H3RequestBuilder L → Option L.Name → Option L.Value → H3RequestBuilder L
  unfolding set_header
  header b key value = record b { headers = set_header b.headers key value }

  unfoldable pub set_body : H3RequestBuilder L → Body → H3RequestBuilder L
  set_body b body = record b { body = some body }

  unfoldable pub set_priority : H3RequestBuilder L → Priority → H3RequestBuilder L
  set_priority b priority = record b { priority = priority }

  unfoldable pub set_content_type : H3RequestBuilder L → Option L.Value → H3RequestBuilder L
  unfolding header
  set_content_type b value = header b (some L.content_type_name) value

  unfoldable pub user_agent : H3RequestBuilder L → Option L.Value → H3RequestBuilder L
  unfolding header
  user_agent b value = header b (some L.user_agent_name) value

  unfoldable pub authorization : H3RequestBuilder L → Option L.Value → H3RequestBuilder L
  unfolding header
  authorization b value = header b (some L.authorization_name) value

  unfoldable pub build : H3RequestBuilder L → Result L.UriError (H3Request L)
  build b = b.uri >>= λ uri. ok (record {
    method = b.method;
    uri = uri;
    headers = b.headers;
    body = b.body;
    priority = b.priority;
  })
