-- ===== src/VarLen/Examples.antt =====
-- A value that the protocol writes in three bytes.
use yoin.Base.{◌≡◌, refl, [], ◌∷◌}
use yoin.Bytes.{le_bytes}
use yoin.VarLen.{store_var_len, var_len_field, write_var_len}

five_bytes : var_len_field 300 ≡ 0xfe ∷ 44 ∷ 1 ∷ 0 ∷ 0 ∷ []
unfolding var_len_field store_var_len le_bytes
five_bytes = refl

three_bytes : write_var_len 300 ≡ 0xfd ∷ 44 ∷ 1 ∷ []
unfolding write_var_len le_bytes
three_bytes = refl
