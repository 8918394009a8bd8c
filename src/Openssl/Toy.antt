-- ===== src/Openssl/Toy.antt =====
-- A small library that behaves as the channel assumes, for the examples: a cipher that adds its
-- position to each byte, and tags that pad the message.
use cybersec_proj.Base.{
  ℕ, ◌+◌, ◌-◌, ◌≡◌, refl, Bytes, [], ◌∷◌, ◌++◌, some, arith, take, length, length-append,
  length-take, replicate, bytes_eq, bytes_eq_refl, bytes_eq→eq, if◌then◌else◌, ◌↔◌,
}
use cybersec_proj.Openssl.{Openssl, IsSound}

unfoldable pub add : ℕ → Bytes → Bytes
add k [] = []
add k (b ∷ bs) = (b + k) ∷ add k bs

unfoldable pub subtract : ℕ → Bytes → Bytes
subtract k [] = []
subtract k (b ∷ bs) = (b - k) ∷ subtract k bs

abbrev pub toy : Openssl ℕ
toy = record {
  hmac = λ key m. some (take 32 (m ++ replicate 32 0));
  memcmp = λ a b. if bytes_eq a b then 0 else 1;
  encrypt_init = λ key iv. length key;
  decrypt_init = λ key iv. length key;
  encrypt_update = λ c p. some (add c p, c + length p);
  decrypt_update = λ c x. some (subtract c x, c + length x);
}

subtract-add : (k : ℕ) (p : Bytes) → subtract k (add k p) ≡ p
unfolding add subtract
subtract-add k [] = refl
subtract-add k (b ∷ bs) = ground (arith, subtract-add k bs)

length-add : (k : ℕ) (p : Bytes) → length (add k p) ≡ length p
unfolding add
length-add k [] = refl
length-add k (b ∷ bs) = omega (arith, length-add k bs)

toy_tag : (m : Bytes) → length (take 32 (m ++ replicate 32 0)) ≡ 32
toy_tag m = omega (arith, length-take 32 (m ++ replicate 32 0), length-append m (replicate 32 0))

toy_memcmp : (a b : Bytes) → (toy.memcmp a b ≡ 0) ↔ (a ≡ b)
toy_memcmp a b = (λ h. ground (arith, bytes_eq→eq a b), λ e. rw (e, bytes_eq_refl b))

pub toy-IsSound : IsSound toy (λ e d. e ≡ d)
toy-IsSound = record {
  hmac_tag = λ key m. (_, refl, toy_tag m);
  memcmp_iff = toy_memcmp;
  init_sync = λ key iv. refl;
  update_sync = λ e d p y. (
    add e p,
    e + length p,
    d + length (add e p),
    refl,
    rw (← y, subtract-add e p),
    length-add e p,
    rw (y, length-add d p),
  );
}
