-- ===== src/Script/Hashing.antt =====
-- core/script.go: the cases of `evalScript` that hash the top element, 0xa6 to 0xaa.
use yoin.Base.{ℕ, ◌==◌, if◌then◌else◌}
use yoin.Bytes.{Bytes}
use yoin.Crypto.{Crypto, sha2_sum, rimp160_after_sha256}
use yoin.Script.Stack.{Stack, Flow, next, exited, ◌>>=◌, ◌>>◌, need, push, pop}

abbrev hash_top : (Bytes → Bytes) → Stack → Flow Stack
hash_top h s = do need 1 s; (d, s₁) ← pop s; next (push (h d) s₁)

unfoldable pub hash_op : Crypto → ℕ → Stack → Flow Stack
hash_op c op s =
    if op == 0xa6
    then hash_top c.ripemd160 s
    else if op == 0xa8
    then hash_top c.sha256 s
    else if op == 0xa9
    then hash_top (rimp160_after_sha256 c) s
    else if op == 0xaa
    then hash_top (sha2_sum c) s
    else exited
