-- ===== src/Script.antt =====
-- core/script.go and core/stack.go: the script interpreter.
-- `Stack` has the stack and the results of a step, `Opcode` reads an instruction, `Control`, `Shuffle`,
-- `Numeric`, `Hashing` and `Signing` are the cases of the switch of `evalScript` in its order, and
-- `Eval` has the loop and `VerifyTxScript`.
pub mod Stack
pub mod Opcode
pub mod Control
pub mod Shuffle
pub mod Numeric
pub mod Hashing
pub mod Signing
pub mod Eval
