-- ===== src/Parser/Header.antt =====
-- `try_parse_header` of src/protocol/frame.rs on a buffer and on a longer one.
use dummy_h.Prelude.{
  ℕ, ◌≤◌, max, ◌≡◌, refl, ◌≢◌, ◌⊎◌, inl, inr, Option, none, some, ◌++◌, arith, ltb, le→ltb,
  Bool-cases, length, length-append,
}
use dummy_h.Error.{H3Error, parse, Result, ok, err, ◌>>=◌, map_err}
use dummy_h.Varint.{Bytes, read_varint}
use dummy_h.Varint.Read.{read_cases, read-append}
use dummy_h.Frame.{FrameType, frame_type_try_from}
use dummy_h.Parser.{header_length, header_type, try_parse_header}

-- More bytes behind a header that was read, or refused, change only what is left after it.
abbrev pub more_rest :
    Bytes
    → Result H3Error (Option (FrameType × ℕ × Bytes))
    → Result H3Error (Option (FrameType × ℕ × Bytes))
more_rest bs (ok (some (t, len, rest))) = ok (some (t, len, rest ++ bs))
more_rest bs (ok none) = ok none
more_rest bs (err e) = err e

header_length-append :
    (max : ℕ) (t : FrameType) (rest bs : Bytes)
    → header_length max t (read_varint rest) ≢ ok none
    → header_length max t (read_varint (rest ++ bs))
      ≡ more_rest bs (header_length max t (read_varint rest))
unfolding header_length
header_length-append max t rest bs h = elim (read_cases rest) [
  | inl e ↦ absurd (h (rw e))
  | inr (v, after, e, lt) ↦ rw (e, read-append rest bs e) (ground arith)
]

typed_length-append :
    (max : ℕ) (t : Result H3Error FrameType) (rest bs : Bytes)
    → (t >>= λ t. header_length max t (read_varint rest)) ≢ ok none
    → (t >>= λ t. header_length max t (read_varint (rest ++ bs)))
      ≡ more_rest bs (t >>= λ t. header_length max t (read_varint rest))
typed_length-append max (ok t) rest bs h = header_length-append max t rest bs h
typed_length-append max (err e) rest bs h = refl

header_type-append :
    (max : ℕ) (buffer bs : Bytes)
    → header_type max (read_varint buffer) ≢ ok none
    → header_type max (read_varint (buffer ++ bs))
      ≡ more_rest bs (header_type max (read_varint buffer))
unfolding header_type
header_type-append max buffer bs h = elim (read_cases buffer) [
  | inl e ↦ absurd (h (rw e))
  | inr (v, after, e, lt) ↦
      rw (e, read-append buffer bs e)
        (typed_length-append max (map_err parse (frame_type_try_from v)) after bs (λ n. h (rw e n)))
]

pub try_parse_header-append :
    (max : ℕ) (buffer bs : Bytes)
    → try_parse_header max buffer ≢ ok none
    → try_parse_header max (buffer ++ bs) ≡ more_rest bs (try_parse_header max buffer)
unfolding try_parse_header
try_parse_header-append max buffer bs h = elim (Bool-cases (ltb (length buffer) 2)) [
  | inl e ↦ absurd (h (rw e))
  | inr e ↦
      let long : 2 ≤ length (buffer ++ bs) = ground (arith, length-append buffer bs) in
      rw (e, le→ltb (length (buffer ++ bs)) 2 long)
        (header_type-append max buffer bs (λ n. h (rw e n)))
]

pub header-cases :
    (max : ℕ) (buffer : Bytes)
    → (try_parse_header max buffer ≡ ok none) ⊎ (try_parse_header max buffer ≢ ok none)
header-cases max buffer = go (try_parse_header max buffer)
  where
    go : (r : Result H3Error (Option (FrameType × ℕ × Bytes))) → (r ≡ ok none) ⊎ (r ≢ ok none)
    go (ok none) = inl refl
    go (ok (some x)) = inr (λ e. cc)
    go (err e) = inr (λ e. cc)
