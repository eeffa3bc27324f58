-- ===== src/Rc4/Streams.antt =====
-- RC4 on a stream: decryption undoes encryption, and a stream may be cut anywhere.
use vardoger.Prelude.{ℕ, ◌≡◌, refl, ap, ◌∙◌, [], ◌∷◌, ◌++◌, bit_xor, bit_xor_twice}
use vardoger.Prelude.Order.{Bytes}
use vardoger.Rc4.{Rc4, step, crypt}

-- Two runs of `crypt` from the same state, the second one on what the first one gave, give the bytes
-- back and end in the same state.
pub crypt-crypt : (r : Rc4) (buf : Bytes) → crypt r (crypt r buf).1 ≡ ((crypt r buf).0, buf)
unfolding crypt
crypt-crypt r [] = refl
crypt-crypt r (b ∷ buf) =
    let k = (step r).1 in
    ap (λ (p : Rc4 × Bytes). (p.0, bit_xor (bit_xor b k) k ∷ p.1)) (crypt-crypt (step r).0 buf)
    ∙ ap (λ (x : ℕ). ((crypt (step r).0 buf).0, x ∷ buf)) (bit_xor_twice b k)

-- Crypting a buffer in two parts, the second one from the state that the first one leaves, gives what
-- crypting it at once gives.
pub crypt-append :
    (r : Rc4) (a b : Bytes)
    → crypt r (a ++ b) ≡ ((crypt (crypt r a).0 b).0, (crypt r a).1 ++ (crypt (crypt r a).0 b).1)
unfolding crypt
crypt-append r [] b = refl
crypt-append r (x ∷ a) b =
    let k = (step r).1 in
    ap (λ (p : Rc4 × Bytes). (p.0, bit_xor x k ∷ p.1)) (crypt-append (step r).0 a b)
