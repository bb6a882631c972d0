-- ===== src/Lib.antt =====
-- Model of the native generator of TronForge (native/src, native/include): a vanity-address search
-- for TRON. A search request names a public key, a pattern (prefix and suffix behind the T) and a
-- range of offsets; the generator looks for an offset whose public point has a matching address.
--
-- Keccak: native/src/tron.cpp (`keccak_256`) and the device copy of native/src/cuda_runtime.cu.
-- Hex: `hex_to_bytes`, `bytes_to_hex` (tron.cpp), `host_hex_nibble` and `host_public_key_bytes`
--   (cuda_runtime.cu).
-- Base58: `base58_encode` (tron.cpp) and `device_base58_25` (cuda_runtime.cu).
-- Pattern: `loose_equal`, `matches_pattern`, `validate_pattern` (tron.cpp) and
--   `device_pattern_matches` (cuda_runtime.cu).
-- PrefixFilter: `host_prefix_bound`, `populate_prefix_intervals` and the two tests of a payload
--   (cuda_runtime.cu). The device encodes only the candidates that pass.
-- OpenSsl: what tron.cpp uses of OpenSSL, which is not in the repository: a record of operations that
--   the other parts take as a parameter, and records of its documented behaviour.
-- Scalars: `private_scalar`, `parse_range_start`, `add_private_key_offset`, `add_to_offset` (tron.cpp).
-- Address: `point_to_address`, `derive_tron_address` and the functions on public keys (tron.cpp).
-- SearchCpu: `search_cpu` (tron.cpp) with the records of native/include/tronforge/tron.hpp.
-- Chain: the four-limb field and curve of native/src/cuda_chain.cuh, and the host reader of its
--   fields (cuda_runtime.cu). `Represents` says for which number limbs stand.
-- Secp: the eight-limb field and curve of native/src/cuda_secp.cuh.
-- Kernels: the device's SHA-256, its addresses and its test of a candidate (cuda_runtime.cu).
--   Kernels/Grid: one thread of each search kernel. What the source hands to `atomicMin` is the list
--   of the indices, of which `atomic_min` takes the least.
-- Session: `CudaSearchSession` (cuda_runtime.cu, native/include/tronforge/cuda_runtime.hpp): its
--   constructor, the tuning of its launches and its search. A session outlives an exception, so that
--   each step gives its outcome and the session behind it; the CUDA runtime, which is not in the
--   repository, is a record of what its calls answer, and a launch runs its threads in order.
-- Fleet: `search_cuda_all` (cuda_runtime.cu); the search of one shard is a parameter.
-- Cli: `json_escape`, `parse_options`, `required`, `write_private_wallet_file` (native/src/main.cpp).
-- Common: texts as lists of bytes, exceptions as values, lists, arrays and machine words.
--
-- A byte or a word is a number below its power of two, with its wrap-around written out. An array
-- or a string is the list of its elements. A thrown exception is the `err` of a `Result`. Loops over
-- a known range are `for_range`; loops over a list are recursion on it. The loops on
-- fuel are `absorb`, with the length of the message, which is more than its number of blocks;
-- `incremental_loop` and `batch_loop`, with the range and the number of batches, where the index
-- rises by at least one in each round; and `scalar_loop`, with the 64 bits of its scalar.
--
-- The write loop of the wallet file runs over the list of the system's answers.
--
-- Not modelled: the clock, `random_private_key`, the self tests, the accessors, the moves and the
-- destructor of a CUDA session, the stub of a build without CUDA, the command dispatch of main.cpp,
-- the Python backend and the frontend, the build files, and what CMake and nvcc generate.
mod Common
pub mod Keccak
pub mod PrefixFilter
pub mod Pattern
pub mod Base58
pub mod Hex
pub mod OpenSsl
pub mod Scalars
pub mod Address
pub mod SearchCpu
pub mod Cli
pub mod Fleet
pub mod Secp
pub mod Chain
pub mod Kernels
pub mod Session
