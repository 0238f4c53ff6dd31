-- ===== src/Lib.antt =====
-- yoin is a Bitcoin node library in Go: core/ has the rules of the protocol, client/ a network
-- client, wallet/ a command-line wallet. This library models the rules of core/: how transactions
-- are coded and checked, how their scripts are run and what is signed, the arithmetic of the curve,
-- how a block's transactions are taken against the unspent outputs, which work a block has to show,
-- and how blocks and outputs are stored, undone and read again; of client/ the messages between
-- nodes; and of wallet/ how a payment is made and signed.
--
-- The files, from the bottom up:
-- Base: names, Boolean tests and list functions that the others share. An `Option` is a Go call
--   that may panic, with `none` for the panic.
-- Bytes, Bytes/Laws: byte slices as lists of numbers, Go's slice expressions, and the integers of
--   encoding/binary.
-- VarLen: core/util.go, StoreVarLen, LoadVarLen, ReadVarLen and WriteVarLen.
-- Crypto: core/hash.go. SHA-256, RIPEMD-160 and ecdsa.Verify are not in the repository; they are
--   the fields of a record that every definition in need of them takes.
-- Key: core/key.go, NewPublicKey, decompressPoint, NewSignature and Verify, with the constants of
--   core/eck256k1.go. Key/Parse has the signature as wallet/wallet.go writes it.
-- Tx: core/tx.go. Tx/Codec is Serialize and DeserializeTx, Tx/Check is CheckTransaction, Tx/Sighash
--   is SignatureHash. `slowMode` is an argument of `check_transaction`.
-- Script: core/stack.go is Script/Stack; core/script.go is Script/Opcode (getOpcode), Script/Control,
--   Script/Shuffle, Script/Numeric, Script/Hashing and Script/Signing (the cases of the switch) and
--   Script/Eval (the loop of evalScript, and VerifyTxScript). The list that models a stack has the
--   last element of the slice first. A piece of the interpreter goes on with a value, ends the script
--   by a `return`, panics, or ends the process by os.Exit.
-- Base58: core/base58.go. Base58/Fits has the room in the buffer of Encodeb58.
-- Curve: core/eck256k1.go, the methods of BitCurve on numbers, with Curve/Int for the integers in
--   between; ModInverse of math/big is an argument. Curve/Field has numbers modulo a prime, and
--   Curve/Doubling, Curve/Adding and Curve/OnCurve are about points of the curve.
-- Addr: core/addr.go, the scripts of addresses; Addr/Text is their text.
-- Uint256: core/uint256.go, a hash as its bytes, its number and its text.
-- Chain/Block: core/block.go, DeserializeBlock and DecodeTxListFromRaw. Chain/Merkle is getMerkel of
--   core/util.go, and Chain/BlockCheck is CheckBlock of core/block_check.go, with the clock and the
--   map of the tree as arguments.
-- Chain/Target: core/target.go. A node of the block tree with its ancestors is a list there.
-- Chain/Tree: core/chain_node.go, the nodes of the block tree behind pointers, and the loops of
--   MoveToBlock over them.
-- Chain/Commit: core/chain_accept.go, commitTxs, with GetBlockReward of core/block.go. The
--   database lookup PickUnspent and the result of VerifyTxScript for an input are arguments of it;
--   the results of the goroutines are joined before the function goes on, so their order is left out.
-- Qdb: core/qdb/. The key-value store github.com/piotrnar/qdb is not in the repository; Qdb/Store
--   has what the code calls of it as a record, and its documented laws as another. Qdb/Outputs is
--   unspent.go, Qdb/Spent is spent.go, Qdb/Unwind is unwind.go and Qdb/Facade is dbase.go, with
--   the loop of NewChain in core/chain.go that takes blocks back. Qdb/Unwind/Window has the steps
--   that the unwind data can take as a relation. A Go map is a list of its entries, in the order
--   in which the loops visit them.
-- BlockDb: core/blockdb.go, with the file of the blocks and the index file as bytes.
--   BlockDb/Operations has the steps of an open database as a relation, BlockDb/Reload the index
--   file as it is read again.
-- Accept: AcceptBlock and ProcessBlockTransactions of core/chain_accept.go, ParseTillBlock,
--   MoveToBlock and DeleteBranch of core/chain_node.go, over Chain/Tree, Chain/Commit, BlockDb and
--   Qdb. The state is the struct Chain of core/chain.go; a new node gets the next pointer.
-- Net/Message: client/net.go, SendRawMsg, HandleError and FetchMessage; what a connection has
--   received stays in its state between two calls. The TCPConn is a state with its Read, which is
--   an argument; the reads go through SockRead as it is, with its mutex. Net/Version has
--   SendVersion, VerMsg, GetBlocks and AnnounceOwnAddr, Net/Inventory ProcessInv, NetSendInv,
--   addInvBlockBranch and ProcessGetBlocks over the nodes of Chain/Tree. Net/Bandwidth is
--   client/bwlimit.go, Net/Address core/netaddr.go.
-- Wallet: wallet/wallet.go. Wallet has UO, the search for the owner of a script, and load_balance;
--   Wallet/Keys is getPubKey, make_wallet and load_others; Wallet/Spend is get_change_addr,
--   make_signed_tx and the payment of main. A step goes on, ends the program by os.Exit, or panics.
--   ecdsa.Sign is an argument, with the number of the input whose call it is. What the files have
--   is taken as read: the lines as decoded, the transactions and the list of outputs.
--
-- Integers are natural numbers, with the wrap-around of uint32 and uint64 written out. An int that a
-- script leaves on the stack stands as its remainder modulo 2^32, which is all that is stored of it.
--
-- Fuel: the loop of evalScript has one unit for each byte of the script and one more; every round
-- reads a byte or more, so it never runs out. Exp has 256 units, one for each bit of its exponent.
-- `byte_len` has as many units as the number it measures. The loops of getMerkel have as many units
-- as there are hashes in a row and in all. The loops over the unwind data and over the index file
-- have as many units as there are bytes; every round but the last takes one or more. The loops over
-- the tree, that of addInvBlockBranch too, take any fuel that bounds the height or the depth.
-- MoveToBlock and ParseTillBlock take fuel for the blocks on the way and for the calls that follow
-- a refused block. The bits of a byte in ScalarMult are eight rounds; the loops over a payload
-- follow its bytes or its count, and those of FetchMessage have a unit for each call of SockRead.
-- Signing takes one round for each input.
--
-- Not modelled: printing and debug switches; core/chain_load.go and the rest of core/chain.go, which
-- open a chain over the parts above; NewAddrFromDataWithSum of core/addr.go, GetAllUnspent of core/qdb/unspent.go, the statistics and
-- the calls that sync and close the files (core/blockdb.go, core/qdb/), GetDifficulty, which is
-- floating point for printing; parse_spend of wallet/wallet.go, which reads decimal fractions; the
-- rest of client/ and wallet/, which are sockets, files and a terminal.
pub mod Base
pub mod Bytes
pub mod VarLen
pub mod Crypto
pub mod Key
pub mod Tx
pub mod Script
pub mod Base58
pub mod Curve
pub mod Addr
pub mod Uint256
pub mod Chain
pub mod Qdb
pub mod BlockDb
pub mod Accept
pub mod Net
pub mod Wallet
