-- ===== src/Http/Chunks.antt =====
-- `ResponseStream` of src/client/mod.rs, and reading a body of src/protocol/response.rs to its end.
use dummy_h.Prelude.{
  ℕ, zero, suc, ◌+◌, ◌<◌, ◌≡◌, refl, sym, ap, ◌∙◌, Bool, true, false, Option, none, some, List, [],
  ◌∷◌, ◌++◌, append-nil, append_assoc, arith, if◌then◌else◌, length,
}
use dummy_h.Error.{H3Error, Result, ok, err, ◌>>=◌}
use dummy_h.Varint.{Bytes}
use dummy_h.Http.{Body, streaming, BodyError, read_all, to_bytes}

-- `chunks` are the messages that the channel still delivers before it closes. The headers are of any
-- type, and the status too; nothing sets them.
pub record ResponseStream (H S : Type 0) : Type 0 where
  pub headers : Option H
  pub status : Option S
  pub chunks : List (Result H3Error Bytes)
  pub complete : Bool

-- The items before the first error, or that error.
unfoldable pub until_error : {E : Type 0} → List (Result E Bytes) → Result E (List Bytes)
until_error [] = ok []
until_error (ok chunk ∷ items) = until_error items >>= λ chunks. ok (chunk ∷ chunks)
until_error (err e ∷ items) = err e

abbrev pub concat : List Bytes → Bytes
concat [] = []
concat (c ∷ cs) = c ++ concat cs

read_then :
    (buf chunk : Bytes) (r : Result BodyError (List Bytes))
    → (r >>= λ chunks. ok ((buf ++ chunk) ++ concat chunks))
      ≡ ((r >>= λ chunks. ok (chunk ∷ chunks)) >>= λ chunks. ok (buf ++ concat chunks))
read_then buf chunk (ok chunks) = ap ok (append_assoc buf chunk (concat chunks))
read_then buf chunk (err e) = refl

collect_more :
    (done : List Bytes) (chunk : Bytes) (r : Result H3Error (List Bytes))
    → (r >>= λ chunks. ok ((done ++ chunk ∷ []) ++ chunks))
      ≡ ((r >>= λ chunks. ok (chunk ∷ chunks)) >>= λ chunks. ok (done ++ chunks))
collect_more done chunk (ok chunks) = ap ok (append_assoc done (chunk ∷ []) chunks)
collect_more done chunk (err e) = refl

read_all-until_error :
    (items : List (Result BodyError Bytes)) (buf : Bytes)
    → read_all items buf ≡ (until_error items >>= λ chunks. ok (buf ++ concat chunks))
unfolding read_all until_error
read_all-until_error [] buf = ap ok (sym (append-nil buf))
read_all-until_error (ok chunk ∷ items) buf =
    read_all-until_error items (buf ++ chunk) ∙ read_then buf chunk (until_error items)
read_all-until_error (err e ∷ items) buf = refl

-- Reading a streaming body gives its chunks one after the other, or the first error among its items.
pub to_bytes-until_error :
    (items : List (Result BodyError Bytes))
    → to_bytes (streaming items) ≡ (until_error items >>= λ chunks. ok (concat chunks))
unfolding to_bytes
to_bytes-until_error items = read_all-until_error items []

same_chunks :
    (r : Result H3Error (List Bytes)) (f : List Bytes → Body)
    → ((r >>= λ chunks. ok ([] ++ chunks)) >>= λ chunks. ok (f chunks))
      ≡ (r >>= λ chunks. ok (f chunks))
same_chunks (ok chunks) f = refl
same_chunks (err e) f = refl

module _ {H S : Type 0} where
  unfoldable pub new_stream : List (Result H3Error Bytes) → ResponseStream H S
  new_stream chunks = record { headers = none; status = none; chunks = chunks; complete = false }

  -- `match self.chunks.recv().await { … }`
  unfoldable pub received :
      ResponseStream H S
      → List (Result H3Error Bytes)
      → ResponseStream H S × Result H3Error (Option Bytes)
  received s [] = (record s { complete = true }, ok none)
  received s (ok chunk ∷ rest) = (record s { chunks = rest }, ok (some chunk))
  received s (err e ∷ rest) = (record s { chunks = rest; complete = true }, err e)

  unfoldable pub next_chunk :
      ResponseStream H S → ResponseStream H S × Result H3Error (Option Bytes)
  unfolding received
  next_chunk s = if s.complete then (s, ok none) else received s s.chunks

  -- The loop of `collect_body` with the chunks so far; `none` if the fuel runs out.
  unfoldable pub collect_chunks :
      ℕ → ResponseStream H S → List Bytes → Option (Result H3Error (List Bytes))
  collect_chunks zero s done = none
  collect_chunks (suc fuel) s done =
      let (s', r) = next_chunk s in
      elim r [
        | ok next ↦ elim next [
          | none ↦ some (ok done)
          | some chunk ↦ collect_chunks fuel s' (done ++ chunk ∷ [])
        ]
        | err e ↦ some (err e)
      ]

  -- `new_body` stands for `Body::new`, which no file of the repository declares.
  unfoldable pub collect_body :
      (List Bytes → Body) → ResponseStream H S → Option (Result H3Error Body)
  unfolding collect_chunks
  collect_body new_body s = elim (collect_chunks (length s.chunks + 1) s []) [
    | none ↦ none
    | some r ↦ some (r >>= λ chunks. ok (new_body chunks))
  ]

  collect-until_error :
      (s : ResponseStream H S) (items : List (Result H3Error Bytes)) (fuel : ℕ) (done : List Bytes)
      → length items < fuel
      → collect_chunks fuel (record s { chunks = items; complete = false }) done
        ≡ some (until_error items >>= λ chunks. ok (done ++ chunks))
  unfolding collect_chunks next_chunk received until_error
  collect-until_error s items zero done h = absurd (omega arith)
  collect-until_error s [] (suc fuel) done h = ap (λ o. some (ok o)) (sym (append-nil done))
  collect-until_error s (ok chunk ∷ items) (suc fuel) done h =
      collect-until_error s items fuel (done ++ chunk ∷ []) (omega arith)
      ∙ ap some (collect_more done chunk (until_error items))
  collect-until_error s (err x ∷ items) (suc fuel) done h = refl

  -- Collecting a response that is not complete ends, and gives the body of all its chunks, or the first
  -- error that the channel delivers.
  pub collect_body-until_error :
      (new_body : List Bytes → Body) (s : ResponseStream H S)
      → s.complete ≡ false
      → collect_body new_body s ≡ some (until_error s.chunks >>= λ chunks. ok (new_body chunks))
  unfolding collect_body
  collect_body-until_error new_body s c =
      let all : collect_chunks (length s.chunks + 1) s []
          ≡ some (until_error s.chunks >>= λ chunks. ok ([] ++ chunks)) =
        ap (λ (b : Bool). collect_chunks (length s.chunks + 1) (record s { complete = b }) []) c
        ∙ collect-until_error s s.chunks (length s.chunks + 1) [] (omega arith) in
      rw (collect_body, all) (ap some (same_chunks (until_error s.chunks) new_body))
