-- ===== src/Uint256/Examples.antt =====
-- Texts of hashes.
use yoin.Base.{◌≡◌, refl, [], ◌∷◌, ◌++◌, some, replicate}
use yoin.Uint256.{scan_hex, new_uint256_from_string}

-- The last byte of the hash comes first.
reversed : new_uint256_from_string (49 ∷ 102 ∷ replicate 62 48) ≡ some (replicate 31 0 ++ (31 ∷ []))
unfolding new_uint256_from_string
reversed = refl

-- Two characters that are no digits leave the byte before.
no_digits : scan_hex 7 122 122 ≡ 7
unfolding scan_hex
no_digits = refl
