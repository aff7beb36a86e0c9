-- ===== src/Kf/Tests.antt =====
-- The hashes of two bytes.
use pbos.Common.{◌%◌, ◌^◌, ◌≡◌, [], ◌∷◌, arith}
use pbos.Kf.Hash.{djb_hash32, djb_hash64, djb_hash32-djb_hash64}

djb_hash32-djb_hash64_example : djb_hash32 (97 ∷ 200 ∷ []) ≡ djb_hash64 (97 ∷ 200 ∷ []) % 2 ^ 32
djb_hash32-djb_hash64_example =
    djb_hash32-djb_hash64 (97 ∷ 200 ∷ []) (omega arith, (omega arith, tt))
