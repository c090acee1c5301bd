-- ===== src/CoreFunction.antt =====
-- compiler/ast/src/functions/core_function.rs: the core functions, the number of their arguments, and
-- which of them are commands of finalize blocks. The match arms of `from_symbols` are in
-- CoreFunction/Symbols.antt.
pub mod Symbols
pub mod Names
pub mod Laws
pub mod Tests
use aleotiktacto.Prelude.{ℕ, Bool, true, false}

pub data CoreFunction : Type 0 where
  bhp256_commit_to_address bhp256_commit_to_field bhp256_commit_to_group : CoreFunction
  bhp256_hash_to_address bhp256_hash_to_field bhp256_hash_to_group bhp256_hash_to_i8 : CoreFunction
  bhp256_hash_to_i16 bhp256_hash_to_i32 bhp256_hash_to_i64 bhp256_hash_to_i128 : CoreFunction
  bhp256_hash_to_u8 bhp256_hash_to_u16 bhp256_hash_to_u32 bhp256_hash_to_u64 : CoreFunction
  bhp256_hash_to_u128 bhp256_hash_to_scalar : CoreFunction
  bhp512_commit_to_address bhp512_commit_to_field bhp512_commit_to_group : CoreFunction
  bhp512_hash_to_address bhp512_hash_to_field bhp512_hash_to_group bhp512_hash_to_i8 : CoreFunction
  bhp512_hash_to_i16 bhp512_hash_to_i32 bhp512_hash_to_i64 bhp512_hash_to_i128 : CoreFunction
  bhp512_hash_to_u8 bhp512_hash_to_u16 bhp512_hash_to_u32 bhp512_hash_to_u64 : CoreFunction
  bhp512_hash_to_u128 bhp512_hash_to_scalar : CoreFunction
  bhp768_commit_to_address bhp768_commit_to_field bhp768_commit_to_group : CoreFunction
  bhp768_hash_to_address bhp768_hash_to_field bhp768_hash_to_group bhp768_hash_to_i8 : CoreFunction
  bhp768_hash_to_i16 bhp768_hash_to_i32 bhp768_hash_to_i64 bhp768_hash_to_i128 : CoreFunction
  bhp768_hash_to_u8 bhp768_hash_to_u16 bhp768_hash_to_u32 bhp768_hash_to_u64 : CoreFunction
  bhp768_hash_to_u128 bhp768_hash_to_scalar : CoreFunction
  bhp1024_commit_to_address bhp1024_commit_to_field bhp1024_commit_to_group : CoreFunction
  bhp1024_hash_to_address bhp1024_hash_to_field bhp1024_hash_to_group bhp1024_hash_to_i8 :
      CoreFunction
  bhp1024_hash_to_i16 bhp1024_hash_to_i32 bhp1024_hash_to_i64 bhp1024_hash_to_i128 : CoreFunction
  bhp1024_hash_to_u8 bhp1024_hash_to_u16 bhp1024_hash_to_u32 bhp1024_hash_to_u64 : CoreFunction
  bhp1024_hash_to_u128 bhp1024_hash_to_scalar : CoreFunction
  cha_cha_rand_address cha_cha_rand_bool cha_cha_rand_field cha_cha_rand_group : CoreFunction
  cha_cha_rand_i8 cha_cha_rand_i16 cha_cha_rand_i32 cha_cha_rand_i64 cha_cha_rand_i128 :
      CoreFunction
  cha_cha_rand_scalar cha_cha_rand_u8 cha_cha_rand_u16 cha_cha_rand_u32 cha_cha_rand_u64 :
      CoreFunction
  cha_cha_rand_u128 : CoreFunction
  keccak256_hash_to_address keccak256_hash_to_field keccak256_hash_to_group : CoreFunction
  keccak256_hash_to_i8 keccak256_hash_to_i16 keccak256_hash_to_i32 keccak256_hash_to_i64 :
      CoreFunction
  keccak256_hash_to_i128 keccak256_hash_to_u8 keccak256_hash_to_u16 keccak256_hash_to_u32 :
      CoreFunction
  keccak256_hash_to_u64 keccak256_hash_to_u128 keccak256_hash_to_scalar : CoreFunction
  keccak384_hash_to_address keccak384_hash_to_field keccak384_hash_to_group : CoreFunction
  keccak384_hash_to_i8 keccak384_hash_to_i16 keccak384_hash_to_i32 keccak384_hash_to_i64 :
      CoreFunction
  keccak384_hash_to_i128 keccak384_hash_to_u8 keccak384_hash_to_u16 keccak384_hash_to_u32 :
      CoreFunction
  keccak384_hash_to_u64 keccak384_hash_to_u128 keccak384_hash_to_scalar : CoreFunction
  keccak512_hash_to_address keccak512_hash_to_field keccak512_hash_to_group : CoreFunction
  keccak512_hash_to_i8 keccak512_hash_to_i16 keccak512_hash_to_i32 : CoreFunction
  keccak512_hash_to_i64 keccak512_hash_to_i128 keccak512_hash_to_u8 keccak512_hash_to_u16 :
      CoreFunction
  keccak512_hash_to_u32 keccak512_hash_to_u64 keccak512_hash_to_u128 : CoreFunction
  keccak512_hash_to_scalar : CoreFunction
  pedersen64_commit_to_address pedersen64_commit_to_field pedersen64_commit_to_group : CoreFunction
  pedersen64_hash_to_address pedersen64_hash_to_field pedersen64_hash_to_group : CoreFunction
  pedersen64_hash_to_i8 pedersen64_hash_to_i16 pedersen64_hash_to_i32 pedersen64_hash_to_i64 :
      CoreFunction
  pedersen64_hash_to_i128 pedersen64_hash_to_u8 pedersen64_hash_to_u16 : CoreFunction
  pedersen64_hash_to_u32 pedersen64_hash_to_u64 pedersen64_hash_to_u128 : CoreFunction
  pedersen64_hash_to_scalar : CoreFunction
  pedersen128_commit_to_address pedersen128_commit_to_field pedersen128_commit_to_group :
      CoreFunction
  pedersen128_hash_to_address pedersen128_hash_to_field pedersen128_hash_to_group : CoreFunction
  pedersen128_hash_to_i8 pedersen128_hash_to_i16 pedersen128_hash_to_i32 : CoreFunction
  pedersen128_hash_to_i64 pedersen128_hash_to_i128 pedersen128_hash_to_u8 : CoreFunction
  pedersen128_hash_to_u16 pedersen128_hash_to_u32 pedersen128_hash_to_u64 : CoreFunction
  pedersen128_hash_to_u128 pedersen128_hash_to_scalar : CoreFunction
  poseidon2_hash_to_address poseidon2_hash_to_field poseidon2_hash_to_group : CoreFunction
  poseidon2_hash_to_i8 poseidon2_hash_to_i16 poseidon2_hash_to_i32 poseidon2_hash_to_i64 :
      CoreFunction
  poseidon2_hash_to_i128 poseidon2_hash_to_u8 poseidon2_hash_to_u16 poseidon2_hash_to_u32 :
      CoreFunction
  poseidon2_hash_to_u64 poseidon2_hash_to_u128 poseidon2_hash_to_scalar : CoreFunction
  poseidon4_hash_to_address poseidon4_hash_to_field poseidon4_hash_to_group : CoreFunction
  poseidon4_hash_to_i8 poseidon4_hash_to_i16 poseidon4_hash_to_i32 poseidon4_hash_to_i64 :
      CoreFunction
  poseidon4_hash_to_i128 poseidon4_hash_to_u8 poseidon4_hash_to_u16 poseidon4_hash_to_u32 :
      CoreFunction
  poseidon4_hash_to_u64 poseidon4_hash_to_u128 poseidon4_hash_to_scalar : CoreFunction
  poseidon8_hash_to_address poseidon8_hash_to_field poseidon8_hash_to_group : CoreFunction
  poseidon8_hash_to_i8 poseidon8_hash_to_i16 poseidon8_hash_to_i32 : CoreFunction
  poseidon8_hash_to_i64 poseidon8_hash_to_i128 poseidon8_hash_to_u8 poseidon8_hash_to_u16 :
      CoreFunction
  poseidon8_hash_to_u32 poseidon8_hash_to_u64 poseidon8_hash_to_u128 : CoreFunction
  poseidon8_hash_to_scalar : CoreFunction
  sha3_256_hash_to_address sha3_256_hash_to_field sha3_256_hash_to_group sha3_256_hash_to_i8 :
      CoreFunction
  sha3_256_hash_to_i16 sha3_256_hash_to_i32 sha3_256_hash_to_i64 sha3_256_hash_to_i128 :
      CoreFunction
  sha3_256_hash_to_u8 sha3_256_hash_to_u16 sha3_256_hash_to_u32 sha3_256_hash_to_u64 : CoreFunction
  sha3_256_hash_to_u128 sha3_256_hash_to_scalar sha3_384_hash_to_address : CoreFunction
  sha3_384_hash_to_field sha3_384_hash_to_group : CoreFunction
  sha3_384_hash_to_i8 sha3_384_hash_to_i16 sha3_384_hash_to_i32 sha3_384_hash_to_i64 : CoreFunction
  sha3_384_hash_to_i128 sha3_384_hash_to_u8 sha3_384_hash_to_u16 sha3_384_hash_to_u32 : CoreFunction
  sha3_384_hash_to_u64 sha3_384_hash_to_u128 sha3_384_hash_to_scalar : CoreFunction
  sha3_512_hash_to_address sha3_512_hash_to_field sha3_512_hash_to_group sha3_512_hash_to_i8 :
      CoreFunction
  sha3_512_hash_to_i16 sha3_512_hash_to_i32 : CoreFunction
  sha3_512_hash_to_i64 sha3_512_hash_to_i128 sha3_512_hash_to_u8 sha3_512_hash_to_u16 : CoreFunction
  sha3_512_hash_to_u32 sha3_512_hash_to_u64 sha3_512_hash_to_u128 sha3_512_hash_to_scalar :
      CoreFunction
  mapping_get mapping_get_or_use mapping_set mapping_remove mapping_contains : CoreFunction
  group_to_x_coordinate group_to_y_coordinate signature_verify : CoreFunction

-- `CoreFunction::num_args`; all that are not named take one argument.
unfoldable pub num_args : CoreFunction → ℕ
num_args CoreFunction.bhp256_commit_to_address = 2
num_args CoreFunction.bhp256_commit_to_field = 2
num_args CoreFunction.bhp256_commit_to_group = 2
num_args CoreFunction.bhp512_commit_to_address = 2
num_args CoreFunction.bhp512_commit_to_field = 2
num_args CoreFunction.bhp512_commit_to_group = 2
num_args CoreFunction.bhp768_commit_to_address = 2
num_args CoreFunction.bhp768_commit_to_field = 2
num_args CoreFunction.bhp768_commit_to_group = 2
num_args CoreFunction.bhp1024_commit_to_address = 2
num_args CoreFunction.bhp1024_commit_to_field = 2
num_args CoreFunction.bhp1024_commit_to_group = 2
num_args CoreFunction.cha_cha_rand_address = 0
num_args CoreFunction.cha_cha_rand_bool = 0
num_args CoreFunction.cha_cha_rand_field = 0
num_args CoreFunction.cha_cha_rand_group = 0
num_args CoreFunction.cha_cha_rand_i8 = 0
num_args CoreFunction.cha_cha_rand_i16 = 0
num_args CoreFunction.cha_cha_rand_i32 = 0
num_args CoreFunction.cha_cha_rand_i64 = 0
num_args CoreFunction.cha_cha_rand_i128 = 0
num_args CoreFunction.cha_cha_rand_u8 = 0
num_args CoreFunction.cha_cha_rand_u16 = 0
num_args CoreFunction.cha_cha_rand_u32 = 0
num_args CoreFunction.cha_cha_rand_u64 = 0
num_args CoreFunction.cha_cha_rand_u128 = 0
num_args CoreFunction.cha_cha_rand_scalar = 0
num_args CoreFunction.pedersen64_commit_to_address = 2
num_args CoreFunction.pedersen64_commit_to_field = 2
num_args CoreFunction.pedersen64_commit_to_group = 2
num_args CoreFunction.pedersen128_commit_to_address = 2
num_args CoreFunction.pedersen128_commit_to_field = 2
num_args CoreFunction.pedersen128_commit_to_group = 2
num_args CoreFunction.mapping_get = 2
num_args CoreFunction.mapping_get_or_use = 3
num_args CoreFunction.mapping_set = 3
num_args CoreFunction.mapping_remove = 2
num_args CoreFunction.mapping_contains = 2
num_args CoreFunction.signature_verify = 3
num_args _ = 1

-- `CoreFunction::is_finalize_command`
unfoldable pub is_finalize_command : CoreFunction → Bool
is_finalize_command CoreFunction.cha_cha_rand_address = true
is_finalize_command CoreFunction.cha_cha_rand_bool = true
is_finalize_command CoreFunction.cha_cha_rand_field = true
is_finalize_command CoreFunction.cha_cha_rand_group = true
is_finalize_command CoreFunction.cha_cha_rand_i8 = true
is_finalize_command CoreFunction.cha_cha_rand_i16 = true
is_finalize_command CoreFunction.cha_cha_rand_i32 = true
is_finalize_command CoreFunction.cha_cha_rand_i64 = true
is_finalize_command CoreFunction.cha_cha_rand_i128 = true
is_finalize_command CoreFunction.cha_cha_rand_u8 = true
is_finalize_command CoreFunction.cha_cha_rand_u16 = true
is_finalize_command CoreFunction.cha_cha_rand_u32 = true
is_finalize_command CoreFunction.cha_cha_rand_u64 = true
is_finalize_command CoreFunction.cha_cha_rand_u128 = true
is_finalize_command CoreFunction.cha_cha_rand_scalar = true
is_finalize_command CoreFunction.mapping_get = true
is_finalize_command CoreFunction.mapping_get_or_use = true
is_finalize_command CoreFunction.mapping_set = true
is_finalize_command CoreFunction.mapping_remove = true
is_finalize_command CoreFunction.mapping_contains = true
is_finalize_command _ = false
