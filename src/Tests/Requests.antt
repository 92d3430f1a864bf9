-- ===== src/Tests/Requests.antt =====
-- A request of src/protocol/request.rs at concrete inputs, with numbers for the names and values.
use dummy_h.Prelude.{ℕ, ◌/◌, ◌≡◌, refl, ◌∙◌, ◌≢◌, none, some, [], ◌∷◌, arith, ◌==◌, ==_iff, ==_refl}
use dummy_h.Prelude.Table
use dummy_h.Prelude.Table.{get-insert}
use dummy_h.Error.{ok}
use dummy_h.Http.{HttpLib}
use dummy_h.Http.Build.{new_builder, build}
use dummy_h.Http.Headers.{Calls, BuiltFrom, header_calls, build-BuiltFrom}

pub nothing_yet : (n : ℕ) → Table.get {V = ℕ} [] n ≡ none
unfolding Table.get
nothing_yet n = refl

pub not_touched :
    (t : Table.Table ℕ) (n m v : ℕ) → n ≢ m → Table.get (Table.insert t n v) m ≡ Table.get t m
not_touched t n m v other = ground (arith, get-insert t n m v)

abbrev pub numbers : HttpLib
numbers = record {
  Method = ℕ;
  Uri = ℕ;
  UriError = Unit {0};
  Headers = Table.Table ℕ;
  Name = ℕ;
  Value = ℕ;
  Status = ℕ;
  parse_uri = λ s. ok 4;
  host = λ u. some "example.com";
  port_u16 = λ u. none;
  scheme_str = λ u. some "https";
  authority_str = λ u. some "example.com";
  path_str = λ u. "/";
  query_str = λ u. none;
  get = 0;
  post = 1;
  put = 2;
  delete = 3;
  patch = 4;
  ok_status = 200;
  not_found_status = 404;
  internal_error_status = 500;
  is_success_status = λ s. s / 100 == 2;
  is_client_error_status = λ s. s / 100 == 4;
  is_server_error_status = λ s. s / 100 == 5;
  content_length_name = 0;
  content_type_name = 1;
  user_agent_name = 2;
  authorization_name = 3;
  same_name = λ n m. n == m;
  new_headers = [];
  insert = Table.insert;
  find = Table.get;
  to_str = λ v. none;
  as_number = λ s. none;
  same_name_iff = ==_iff;
  find-new = nothing_yet;
  find-insert = λ h n v. get-insert h n n v ∙ rw (==_refl n) refl;
  find-insert_other = not_touched;
}

abbrev calls : Calls numbers
calls = (some 1, some 7) ∷ (none, some 8) ∷ (some 1, some 9) ∷ []

build-BuiltFrom_example :
    BuiltFrom numbers
      (ok 4)
      calls
      (build numbers (header_calls numbers (new_builder numbers 0 (ok 4)) calls))
build-BuiltFrom_example = build-BuiltFrom numbers 0 (ok 4) calls
