-- ===== src/Crypto/Lost.antt =====
-- Packets that one side of src/crypto/keys.rs seals and the other never opens.
use Prim.Native.Nat.{bit_xor}
use dummy_h.Prelude.{
  ℕ, ◌^◌, ◌≤◌, ◌<◌, ◌≡◌, refl, sym, ap, ◌∙◌, ◌≢◌, List, [], ◌∷◌, ◌++◌, arith, length, drop, All,
  drop-append_self,
}
use dummy_h.Prelude.Xor.{xor_comm, xor_assoc, xor_self, zero-xor}
use dummy_h.Varint.{Bytes}
use dummy_h.Crypto.{to_be_bytes, xor_bytes}
use dummy_h.Crypto.Nonce.{nonce_after, update-split}

-- The numbers of packets, added one after the other.
xor_numbers : Bytes → List ℕ → Bytes
xor_numbers back [] = back
xor_numbers back (n ∷ ns) = xor_numbers (xor_bytes back (to_be_bytes n)) ns

nonce_after-split :
    (front back : Bytes) (ns : List ℕ)
    → length front ≡ 4
    → nonce_after (front ++ back) ns ≡ front ++ xor_numbers back ns
unfolding nonce_after xor_numbers
nonce_after-split front back [] h = refl
nonce_after-split front back (n ∷ ns) h =
    rw (update-split front back n h) (nonce_after-split front (xor_bytes back (to_be_bytes n)) ns h)

xor_swap : (a b c : ℕ) → bit_xor (bit_xor a b) c ≡ bit_xor (bit_xor a c) b
xor_swap a b c =
    xor_assoc a b c ∙ ap (λ (t : ℕ). bit_xor a t) (xor_comm b c) ∙ sym (xor_assoc a c b)

xor_bytes-swap :
    (as' bs cs : Bytes) → xor_bytes (xor_bytes as' bs) cs ≡ xor_bytes (xor_bytes as' cs) bs
xor_bytes-swap [] bs cs = refl
xor_bytes-swap (a ∷ as') [] [] = refl
xor_bytes-swap (a ∷ as') [] (c ∷ cs) = refl
xor_bytes-swap (a ∷ as') (b ∷ bs) [] = refl
xor_bytes-swap (a ∷ as') (b ∷ bs) (c ∷ cs) = cc (xor_swap a b c, xor_bytes-swap as' bs cs)

-- What is added first can be added last.
xor_numbers-later :
    (back b : Bytes) (ns : List ℕ)
    → xor_numbers (xor_bytes back b) ns ≡ xor_bytes (xor_numbers back ns) b
unfolding xor_numbers
xor_numbers-later back b [] = refl
xor_numbers-later back b (n ∷ ns) =
    ap (λ (t : Bytes). xor_numbers t ns) (xor_bytes-swap back b (to_be_bytes n))
    ∙ xor_numbers-later (xor_bytes back (to_be_bytes n)) b ns

length-xor_bytes : (as' bs : Bytes) → length (xor_bytes as' bs) ≡ length as'
length-xor_bytes [] bs = refl
length-xor_bytes (a ∷ as') [] = refl
length-xor_bytes (a ∷ as') (b ∷ bs) = omega (arith, length-xor_bytes as' bs)

length-xor_numbers : (back : Bytes) (ns : List ℕ) → length (xor_numbers back ns) ≡ length back
unfolding xor_numbers
length-xor_numbers back [] = refl
length-xor_numbers back (n ∷ ns) =
    length-xor_numbers (xor_bytes back (to_be_bytes n)) ns ∙ length-xor_bytes back (to_be_bytes n)

xor_nothing : (a b : ℕ) → bit_xor a b ≡ a → b ≡ 0
xor_nothing a b h = sym (xor_self-first a b) ∙ ap (λ (t : ℕ). bit_xor a t) h ∙ xor_self a
  where
    xor_self-first : (a b : ℕ) → bit_xor a (bit_xor a b) ≡ b
    xor_self-first a b =
        sym (xor_assoc a a b) ∙ ap (λ (t : ℕ). bit_xor t b) (xor_self a) ∙ zero-xor b

xor_bytes-nothing :
    (as' bs : Bytes) → length bs ≤ length as' → xor_bytes as' bs ≡ as' → All (λ b. b ≡ 0) bs
xor_bytes-nothing as' [] h e = tt
xor_bytes-nothing [] (b ∷ bs) h e = absurd (omega arith)
xor_bytes-nothing (a ∷ as') (b ∷ bs) h e =
    let first : bit_xor a b ≡ a = ground arith in
    let rest : xor_bytes as' bs ≡ as' = ground arith in
    (xor_nothing a b first, xor_bytes-nothing as' bs (omega arith) rest)

length-to_be_bytes : (n : ℕ) → length (to_be_bytes n) ≡ 8
unfolding to_be_bytes
length-to_be_bytes n = refl

zero_bytes : (n : ℕ) → n < 2 ^ 64 → All (λ b. b ≡ 0) (to_be_bytes n) → n ≡ 0
unfolding to_be_bytes
zero_bytes n h (a, (b, (c, (d, (e, (f, (g, (i, t)))))))) = omega arith

-- If one of two sides with the same nonce misses a packet whose number is not 0, and no other one,
-- their nonces differ, after whatever packets that both have had since.
pub nonce-lost :
    (front back : Bytes) (n : ℕ) (ns : List ℕ)
    → length front ≡ 4
    → length back ≡ 8
    → n < 2 ^ 64
    → n ≢ 0
    → nonce_after (front ++ back) (n ∷ ns) ≢ nonce_after (front ++ back) ns
unfolding xor_numbers
nonce-lost front back n ns h k small nonzero e =
    let x = xor_numbers back ns in
    let joined : front ++ xor_numbers (xor_bytes back (to_be_bytes n)) ns ≡ front ++ x =
      sym (nonce_after-split front back (n ∷ ns) h) ∙ e ∙ nonce_after-split front back ns h in
    let dropped =
      sym (drop-append_self front (xor_numbers (xor_bytes back (to_be_bytes n)) ns))
      ∙ ap (λ (t : Bytes). drop (length front) t) joined
      ∙ drop-append_self front x in
    let same : xor_bytes x (to_be_bytes n) ≡ x =
      sym (xor_numbers-later back (to_be_bytes n) ns) ∙ dropped in
    nonzero (
      zero_bytes n small (
        xor_bytes-nothing x (to_be_bytes n)
          (omega (arith, length-to_be_bytes n, length-xor_numbers back ns)) same))
