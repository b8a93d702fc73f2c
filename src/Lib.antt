-- ===== src/Lib.antt =====
-- NIGHTRUN: the protocol, file format, network, concurrency and screen code of a language-model
-- appliance that runs on bare UEFI firmware, and the gateway that its host runs.
--
-- The parts and how they meet. A model lies on disk as a .nrm file
-- (crates/nr-model/src/format.rs). The loader streams it into memory and checks it on the way
-- with `StreamingVerifier` (crates/nr-model/src/verify.rs), whose two registers are CRC-32
-- (crates/nr-model/src/crc32.rs); `Model::parse` then reads header and tensor table, and the
-- inference code asks it for tensors. Tools are reached over MCP: messages are cut into datagrams
-- and put together again by crates/nr-mcp/src/lib.rs, and the datagrams travel over the UDP stack
-- of crates/nr-net/src/lib.rs. The appliance drives both from crates/nr-boot/src/network.rs,
-- which moves frames between them and the firmware's network interface.
-- crates/nr-boot/src/modelload.rs reads the model from the boot volume. The rows of a matrix
-- product are split over the processors by the pool of crates/nr-tensor/src/parallel.rs.
--
-- The tokenizer (crates/nr-token/src/blob.rs) is embedded in the model file. Memory for all of it
-- comes from the bump arena of crates/nr-runtime.
--
-- The modules. `Crc32` models crc32.rs, `Crc32.Linear` and `Crc32.Classic` reason about it. `Mcp`
-- models the fragment codec, `Mcp.Reassembler` the state of `Reassembler` and its `push`.
-- `Nrm.Types`, `Nrm.Cursor`, `Nrm.Header` and `Nrm.Model` model format.rs, `Nrm.Verify` models
-- verify.rs. `Net.Types`, `Net.Checksum`, `Net.Cache`, `Net.Wire`, `Net.Echo`, `Net.Receive` and
-- `Net.Send` model nr-net. `Token.Blob`, `Token.Encode` and `Token.Pretok` model the tokenizer,
-- `Runtime.Arena` and `Runtime.Clock` model nr-runtime. `Tensor.Pool` models parallel.rs: every
-- step of a thread is one access to the shared atomics, a schedule is a sequence of such steps,
-- and the invariant lies under `Tensor.Pool.Invariant`. `Boot.ModelLoad` models modelload.rs and
-- `Boot.Network` network.rs; what the firmware answers is an argument. `Gfx.Surface` models the
-- back buffer of crates/nr-gfx/src/surface.rs, `Ui.Chat` the text functions of
-- crates/nr-ui/src/chat.rs. `Requests` and `Gateway` model the host's bridge
-- (tools/nrmcp-gateway/src/main.rs), which turns HTTP requests into datagrams for the appliance
-- and back; its two threads are a step relation again (`Gateway.Threads`); `Gateway.Turns` runs
-- given turns of them. `Prelude` holds what they share, `Examples` runs them at concrete inputs.
--
-- How the code is read. Integers of every width are natural numbers; where the source may wrap,
-- the remainder is written out. A byte slice is a list of numbers. A `&mut` buffer is an
-- argument, and the function returns what it holds afterwards. `Result` has a third case for a
-- panic: a slice or an index out of range, or a write that does not fit. `f32` values are bit
-- patterns. A call on a state record returns the record that it leaves.
--
-- Bounds and fuel. `verify_loop` has one unit of fuel more than there are bytes, and each round
-- reads at least one. `merge_loop` has one unit more than the table has rows and each round
-- halves the range; `encode_loop` has one more than there are tokens and each round removes one;
-- to run out of fuel counts as a panic there, and is excluded. `encode_chunks` has one unit more
-- than there are characters, and a chunk that is cut off has at least one byte. The cut itself,
-- `split_at`, panics inside a character as in the code. `fold_sum` has two rounds, which is what
-- a `u32` needs. `push_chunks` has as many units as the word has characters, and a round takes at
-- least one. Every other loop is recursion on a list or on a count.
--
-- Not modelled: the chat template, the drawing of text and screens, floating-point kernels, the
-- main loop and the drivers of the appliance, the upstream client of the gateway (its result is
-- an argument), and the other host tools. The pool is read under sequential consistency, which is
-- what its accesses ask for, and with counters that do not wrap. The views of a tensor as
-- `&[f32]` or as quantised blocks reinterpret memory and are left out.
pub mod Prelude
pub mod Crc32
pub mod Mcp
pub mod Nrm
pub mod Net
pub mod Token
pub mod Tensor
pub mod Runtime
pub mod Gfx
pub mod Ui
pub mod Boot
pub mod Requests
pub mod Gateway
pub mod Examples
