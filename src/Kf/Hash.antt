-- ===== src/Kf/Hash.antt =====
-- kernel/kf/hash.cc: the hash of a string of bytes, in words of 32 and of 64 bits.
use pbos.Common.{
  ℕ, ◌+◌, ◌-◌, ◌*◌, ◌%◌, ◌^◌, ◌<◌, ◌≡◌, refl, ◌∙◌, ap, List, [], ◌∷◌, All, ltb, if◌then◌else◌,
  arith,
}

-- A `char` as a word: it is signed.
unfoldable pub char32 : ℕ → ℕ
char32 b = if ltb b 128 then b else 2 ^ 32 - 256 + b

unfoldable pub char64 : ℕ → ℕ
char64 b = if ltb b 128 then b else 2 ^ 64 - 256 + b

-- `hash += (hash << 5) + *(src++)`.
unfoldable pub round32 : ℕ → ℕ → ℕ
unfolding char32
round32 hash b = (hash + (hash * 32 % 2 ^ 32 + char32 b) % 2 ^ 32) % 2 ^ 32

unfoldable pub round64 : ℕ → ℕ → ℕ
unfolding char64
round64 hash b = (hash + (hash * 32 % 2 ^ 64 + char64 b) % 2 ^ 64) % 2 ^ 64

unfoldable pub rounds32 : ℕ → List ℕ → ℕ
unfolding round32
rounds32 hash [] = hash
rounds32 hash (b ∷ src) = rounds32 (round32 hash b) src

unfoldable pub rounds64 : ℕ → List ℕ → ℕ
unfolding round64
rounds64 hash [] = hash
rounds64 hash (b ∷ src) = rounds64 (round64 hash b) src

-- `kf_djb_hash32` and `kf_djb_hash64`.
unfoldable pub djb_hash32 : List ℕ → ℕ
unfolding rounds32
djb_hash32 src = rounds32 5381 src

unfoldable pub djb_hash64 : List ℕ → ℕ
unfolding rounds64
djb_hash64 src = rounds64 5381 src

-- The hash without bounds, of bytes that a `char` holds as they are.
abbrev pub djb : ℕ → List ℕ → ℕ
djb hash [] = hash
djb hash (b ∷ src) = djb (hash * 33 + b) src

round-mod : (h b : ℕ) → b < 256 → round32 (h % 2 ^ 32) b ≡ round64 h b % 2 ^ 32
unfolding round32 round64 char32 char64
round-mod h b l = ground (arith, l)

rounds-mod :
    (h : ℕ) (src : List ℕ)
    → All (λ b. b < 256) src
    → rounds32 (h % 2 ^ 32) src ≡ rounds64 h src % 2 ^ 32
unfolding rounds32 rounds64
rounds-mod h [] l = refl
rounds-mod h (b ∷ src) l =
    ap (λ k. rounds32 k src) (round-mod h b l.0) ∙ rounds-mod (round64 h b) src l.1

round64-djb : (h b : ℕ) → b < 128 → round64 (h % 2 ^ 64) b ≡ (h * 33 + b) % 2 ^ 64
unfolding round64 char64
round64-djb h b l = ground (arith, l)

rounds64-djb :
    (h : ℕ) (src : List ℕ) → All (λ b. b < 128) src → rounds64 (h % 2 ^ 64) src ≡ djb h src % 2 ^ 64
unfolding rounds64
rounds64-djb h [] l = refl
rounds64-djb h (b ∷ src) l =
    ap (λ k. rounds64 k src) (round64-djb h b l.0) ∙ rounds64-djb (h * 33 + b) src l.1

-- Of every string of bytes: `kf_djb_hash32` is the low word of `kf_djb_hash64`.
pub djb_hash32-djb_hash64 :
    (src : List ℕ) → All (λ b. b < 256) src → djb_hash32 src ≡ djb_hash64 src % 2 ^ 32
unfolding djb_hash32 djb_hash64
djb_hash32-djb_hash64 src l = rounds-mod 5381 src l

-- Of bytes below 128: `kf_djb_hash64` is the word of the unbounded hash, which multiplies by 33 and
-- adds the next byte.
pub djb_hash64-djb :
    (src : List ℕ) → All (λ b. b < 128) src → djb_hash64 src ≡ djb 5381 src % 2 ^ 64
unfolding djb_hash64
djb_hash64-djb src l = rounds64-djb 5381 src l
