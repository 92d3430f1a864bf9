-- ===== src/Http/Headers.antt =====
-- The headers of a request that the builder of src/protocol/request.rs makes.
use dummy_h.Prelude.{
  ◌≡◌, refl, ap, ◌∙◌, inl, inr, Option, none, some, List, [], ◌∷◌, arith, if◌then◌else◌, Bool-cases,
}
use dummy_h.Error.{Result, ok, err}
use dummy_h.Http.{HttpLib, H3Request, H3RequestBuilder}
use dummy_h.Http.Build.{set_header, header, new_builder, build}

module _ (L : HttpLib) where
  -- The names and values that `header` was called with, as far as they were converted.
  abbrev pub Calls : Type 0
  Calls = List (Option L.Name × Option L.Value)

  unfoldable pub header_calls : H3RequestBuilder L → Calls → H3RequestBuilder L
  header_calls b [] = b
  header_calls b ((key, value) ∷ calls) = header_calls (header L b key value) calls

  -- The value of the last call with this name, or else the one from before.
  unfoldable pub last_value : L.Name → Calls → Option L.Value → Option L.Value
  last_value n [] old = old
  last_value n ((some key, some value) ∷ calls) old =
      last_value n calls (if L.same_name key n then some value else old)
  last_value n ((some key, none) ∷ calls) old = last_value n calls old
  last_value n ((none, value) ∷ calls) old = last_value n calls old

  find-set_header :
      (h : L.Headers) (key n : L.Name) (value : L.Value)
      → L.find (L.insert h key value) n ≡ (if L.same_name key n then some value else L.find h n)
  find-set_header h key n value = elim (Bool-cases (L.same_name key n)) [
    | inl e ↦ rw (e, (L.same_name_iff key n).0 e) (L.find-insert h n value)
    | inr e ↦ rw e (
        L.find-insert_other h key n value
          (λ same. let yes = (L.same_name_iff key n).1 same in absurd (ground arith)))
  ]

  find-header_calls :
      (b : H3RequestBuilder L) (calls : Calls) (n : L.Name)
      → L.find (header_calls b calls).headers n ≡ last_value n calls (L.find b.headers n)
  unfolding header_calls last_value header set_header
  find-header_calls b [] n = refl
  find-header_calls b ((some key, some value) ∷ calls) n =
      find-header_calls (header L b (some key) (some value)) calls n
      ∙ ap (λ o. last_value n calls o) (find-set_header b.headers key n value)
  find-header_calls b ((some key, none) ∷ calls) n = find-header_calls b calls n
  find-header_calls b ((none, value) ∷ calls) n = find-header_calls b calls n

  header_calls-uri : (b : H3RequestBuilder L) (calls : Calls) → (header_calls b calls).uri ≡ b.uri
  unfolding header_calls header
  header_calls-uri b [] = refl
  header_calls-uri b ((key, value) ∷ calls) = header_calls-uri (header L b key value) calls

  -- What a request is built from.
  abbrev pub BuiltFrom : Result L.UriError L.Uri → Calls → Result L.UriError (H3Request L) → Type 0
  BuiltFrom uri calls (ok r) =
      (uri ≡ ok r.uri) × ((n : L.Name) → L.find r.headers n ≡ last_value n calls none)
  BuiltFrom uri calls (err e) = uri ≡ err e

  -- A request is built exactly if its address was converted, and each of its headers has the value of
  -- the last call that set it; calls whose name or value was not converted do nothing.
  pub build-BuiltFrom :
      (method : L.Method) (uri : Result L.UriError L.Uri) (calls : Calls)
      → BuiltFrom uri calls (build L (header_calls (new_builder L method uri) calls))
  unfolding build new_builder
  build-BuiltFrom method (err e) calls =
      rw (build, header_calls-uri (new_builder L method (err e)) calls) refl
  build-BuiltFrom method (ok uri) calls =
      let b = new_builder L method (ok uri) in
      rw (build, header_calls-uri b calls)
        (refl, λ n. find-header_calls b calls n ∙ ap (λ o. last_value n calls o) (L.find-new n))
