-- ===== src/TypeChecker/CoreArms.antt =====
-- The arms of `check_core_function_call` in compiler/passes/src/type_checking/checker.rs: which
-- check of the arguments and which type each core function has.
use aleotiktacto.Ast.{Ty, integer, u8, u16, u32, u64, u128, i8, i16, i32, i64, i128}
use aleotiktacto.CoreFunction.{CoreFunction}

-- `check_not_mapping_tuple_err_unit`, `check_pedersen_64_bit_input`, `check_pedersen_128_bit_input`
pub data InputCheck : Type 0 where
  any_type pedersen64 pedersen128 : InputCheck

-- The bodies of the arms: `commit` checks a second argument, a scalar; `rand` checks nothing.
pub data CoreArm : Type 0 where
  commit hash : InputCheck → Ty → CoreArm
  rand : Ty → CoreArm
  mapping_get mapping_get_or_use mapping_set mapping_remove mapping_contains : CoreArm
  coordinate signature_verify : CoreArm

unfoldable pub core_arm : CoreFunction → CoreArm
core_arm CoreFunction.bhp256_commit_to_address = commit any_type Ty.address
core_arm CoreFunction.bhp256_commit_to_field = commit any_type Ty.field
core_arm CoreFunction.bhp256_commit_to_group = commit any_type Ty.group
core_arm CoreFunction.bhp256_hash_to_address = hash any_type Ty.address
core_arm CoreFunction.bhp256_hash_to_field = hash any_type Ty.field
core_arm CoreFunction.bhp256_hash_to_group = hash any_type Ty.group
core_arm CoreFunction.bhp256_hash_to_i8 = hash any_type (integer i8)
core_arm CoreFunction.bhp256_hash_to_i16 = hash any_type (integer i16)
core_arm CoreFunction.bhp256_hash_to_i32 = hash any_type (integer i32)
core_arm CoreFunction.bhp256_hash_to_i64 = hash any_type (integer i64)
core_arm CoreFunction.bhp256_hash_to_i128 = hash any_type (integer i128)
core_arm CoreFunction.bhp256_hash_to_u8 = hash any_type (integer u8)
core_arm CoreFunction.bhp256_hash_to_u16 = hash any_type (integer u16)
core_arm CoreFunction.bhp256_hash_to_u32 = hash any_type (integer u32)
core_arm CoreFunction.bhp256_hash_to_u64 = hash any_type (integer u64)
core_arm CoreFunction.bhp256_hash_to_u128 = hash any_type (integer u128)
core_arm CoreFunction.bhp256_hash_to_scalar = hash any_type Ty.scalar
core_arm CoreFunction.bhp512_commit_to_address = commit any_type Ty.address
core_arm CoreFunction.bhp512_commit_to_field = commit any_type Ty.field
core_arm CoreFunction.bhp512_commit_to_group = commit any_type Ty.group
core_arm CoreFunction.bhp512_hash_to_address = hash any_type Ty.address
core_arm CoreFunction.bhp512_hash_to_field = hash any_type Ty.field
core_arm CoreFunction.bhp512_hash_to_group = hash any_type Ty.group
core_arm CoreFunction.bhp512_hash_to_i8 = hash any_type (integer i8)
core_arm CoreFunction.bhp512_hash_to_i16 = hash any_type (integer i16)
core_arm CoreFunction.bhp512_hash_to_i32 = hash any_type (integer i32)
core_arm CoreFunction.bhp512_hash_to_i64 = hash any_type (integer i64)
core_arm CoreFunction.bhp512_hash_to_i128 = hash any_type (integer i128)
core_arm CoreFunction.bhp512_hash_to_u8 = hash any_type (integer u8)
core_arm CoreFunction.bhp512_hash_to_u16 = hash any_type (integer u16)
core_arm CoreFunction.bhp512_hash_to_u32 = hash any_type (integer u32)
core_arm CoreFunction.bhp512_hash_to_u64 = hash any_type (integer u64)
core_arm CoreFunction.bhp512_hash_to_u128 = hash any_type (integer u128)
core_arm CoreFunction.bhp512_hash_to_scalar = hash any_type Ty.scalar
core_arm CoreFunction.bhp768_commit_to_address = commit any_type Ty.address
core_arm CoreFunction.bhp768_commit_to_field = commit any_type Ty.field
core_arm CoreFunction.bhp768_commit_to_group = commit any_type Ty.group
core_arm CoreFunction.bhp768_hash_to_address = hash any_type Ty.address
core_arm CoreFunction.bhp768_hash_to_field = hash any_type Ty.field
core_arm CoreFunction.bhp768_hash_to_group = hash any_type Ty.group
core_arm CoreFunction.bhp768_hash_to_i8 = hash any_type (integer i8)
core_arm CoreFunction.bhp768_hash_to_i16 = hash any_type (integer i16)
core_arm CoreFunction.bhp768_hash_to_i32 = hash any_type (integer i32)
core_arm CoreFunction.bhp768_hash_to_i64 = hash any_type (integer i64)
core_arm CoreFunction.bhp768_hash_to_i128 = hash any_type (integer i128)
core_arm CoreFunction.bhp768_hash_to_u8 = hash any_type (integer u8)
core_arm CoreFunction.bhp768_hash_to_u16 = hash any_type (integer u16)
core_arm CoreFunction.bhp768_hash_to_u32 = hash any_type (integer u32)
core_arm CoreFunction.bhp768_hash_to_u64 = hash any_type (integer u64)
core_arm CoreFunction.bhp768_hash_to_u128 = hash any_type (integer u128)
core_arm CoreFunction.bhp768_hash_to_scalar = hash any_type Ty.scalar
core_arm CoreFunction.bhp1024_commit_to_address = commit any_type Ty.address
core_arm CoreFunction.bhp1024_commit_to_field = commit any_type Ty.field
core_arm CoreFunction.bhp1024_commit_to_group = commit any_type Ty.group
core_arm CoreFunction.bhp1024_hash_to_address = hash any_type Ty.address
core_arm CoreFunction.bhp1024_hash_to_field = hash any_type Ty.field
core_arm CoreFunction.bhp1024_hash_to_group = hash any_type Ty.group
core_arm CoreFunction.bhp1024_hash_to_i8 = hash any_type (integer i8)
core_arm CoreFunction.bhp1024_hash_to_i16 = hash any_type (integer i16)
core_arm CoreFunction.bhp1024_hash_to_i32 = hash any_type (integer i32)
core_arm CoreFunction.bhp1024_hash_to_i64 = hash any_type (integer i64)
core_arm CoreFunction.bhp1024_hash_to_i128 = hash any_type (integer i128)
core_arm CoreFunction.bhp1024_hash_to_u8 = hash any_type (integer u8)
core_arm CoreFunction.bhp1024_hash_to_u16 = hash any_type (integer u16)
core_arm CoreFunction.bhp1024_hash_to_u32 = hash any_type (integer u32)
core_arm CoreFunction.bhp1024_hash_to_u64 = hash any_type (integer u64)
core_arm CoreFunction.bhp1024_hash_to_u128 = hash any_type (integer u128)
core_arm CoreFunction.bhp1024_hash_to_scalar = hash any_type Ty.scalar
core_arm CoreFunction.cha_cha_rand_address = rand Ty.address
core_arm CoreFunction.cha_cha_rand_bool = rand Ty.boolean
core_arm CoreFunction.cha_cha_rand_field = rand Ty.field
core_arm CoreFunction.cha_cha_rand_group = rand Ty.group
core_arm CoreFunction.cha_cha_rand_i8 = rand (integer i8)
core_arm CoreFunction.cha_cha_rand_i16 = rand (integer i16)
core_arm CoreFunction.cha_cha_rand_i32 = rand (integer i32)
core_arm CoreFunction.cha_cha_rand_i64 = rand (integer i64)
core_arm CoreFunction.cha_cha_rand_i128 = rand (integer i128)
core_arm CoreFunction.cha_cha_rand_u8 = rand (integer u8)
core_arm CoreFunction.cha_cha_rand_u16 = rand (integer u16)
core_arm CoreFunction.cha_cha_rand_u32 = rand (integer u32)
core_arm CoreFunction.cha_cha_rand_u64 = rand (integer u64)
core_arm CoreFunction.cha_cha_rand_u128 = rand (integer u128)
core_arm CoreFunction.cha_cha_rand_scalar = rand Ty.scalar
core_arm CoreFunction.keccak256_hash_to_address = hash any_type Ty.address
core_arm CoreFunction.keccak256_hash_to_field = hash any_type Ty.field
core_arm CoreFunction.keccak256_hash_to_group = hash any_type Ty.group
core_arm CoreFunction.keccak256_hash_to_i8 = hash any_type (integer i8)
core_arm CoreFunction.keccak256_hash_to_i16 = hash any_type (integer i16)
core_arm CoreFunction.keccak256_hash_to_i32 = hash any_type (integer i32)
core_arm CoreFunction.keccak256_hash_to_i64 = hash any_type (integer i64)
core_arm CoreFunction.keccak256_hash_to_i128 = hash any_type (integer i128)
core_arm CoreFunction.keccak256_hash_to_u8 = hash any_type (integer u8)
core_arm CoreFunction.keccak256_hash_to_u16 = hash any_type (integer u16)
core_arm CoreFunction.keccak256_hash_to_u32 = hash any_type (integer u32)
core_arm CoreFunction.keccak256_hash_to_u64 = hash any_type (integer u64)
core_arm CoreFunction.keccak256_hash_to_u128 = hash any_type (integer u128)
core_arm CoreFunction.keccak256_hash_to_scalar = hash any_type Ty.scalar
core_arm CoreFunction.keccak384_hash_to_address = hash any_type Ty.address
core_arm CoreFunction.keccak384_hash_to_field = hash any_type Ty.field
core_arm CoreFunction.keccak384_hash_to_group = hash any_type Ty.group
core_arm CoreFunction.keccak384_hash_to_i8 = hash any_type (integer i8)
core_arm CoreFunction.keccak384_hash_to_i16 = hash any_type (integer i16)
core_arm CoreFunction.keccak384_hash_to_i32 = hash any_type (integer i32)
core_arm CoreFunction.keccak384_hash_to_i64 = hash any_type (integer i64)
core_arm CoreFunction.keccak384_hash_to_i128 = hash any_type (integer i128)
core_arm CoreFunction.keccak384_hash_to_u8 = hash any_type (integer u8)
core_arm CoreFunction.keccak384_hash_to_u16 = hash any_type (integer u16)
core_arm CoreFunction.keccak384_hash_to_u32 = hash any_type (integer u32)
core_arm CoreFunction.keccak384_hash_to_u64 = hash any_type (integer u64)
core_arm CoreFunction.keccak384_hash_to_u128 = hash any_type (integer u128)
core_arm CoreFunction.keccak384_hash_to_scalar = hash any_type Ty.scalar
core_arm CoreFunction.keccak512_hash_to_address = hash any_type Ty.address
core_arm CoreFunction.keccak512_hash_to_field = hash any_type Ty.field
core_arm CoreFunction.keccak512_hash_to_group = hash any_type Ty.group
core_arm CoreFunction.keccak512_hash_to_i8 = hash any_type (integer i8)
core_arm CoreFunction.keccak512_hash_to_i16 = hash any_type (integer i16)
core_arm CoreFunction.keccak512_hash_to_i32 = hash any_type (integer i32)
core_arm CoreFunction.keccak512_hash_to_i64 = hash any_type (integer i64)
core_arm CoreFunction.keccak512_hash_to_i128 = hash any_type (integer i128)
core_arm CoreFunction.keccak512_hash_to_u8 = hash any_type (integer u8)
core_arm CoreFunction.keccak512_hash_to_u16 = hash any_type (integer u16)
core_arm CoreFunction.keccak512_hash_to_u32 = hash any_type (integer u32)
core_arm CoreFunction.keccak512_hash_to_u64 = hash any_type (integer u64)
core_arm CoreFunction.keccak512_hash_to_u128 = hash any_type (integer u128)
core_arm CoreFunction.keccak512_hash_to_scalar = hash any_type Ty.scalar
core_arm CoreFunction.pedersen64_commit_to_address = commit pedersen64 Ty.address
core_arm CoreFunction.pedersen64_commit_to_field = commit pedersen64 Ty.field
core_arm CoreFunction.pedersen64_commit_to_group = commit pedersen64 Ty.group
core_arm CoreFunction.pedersen64_hash_to_address = hash pedersen64 Ty.address
core_arm CoreFunction.pedersen64_hash_to_field = hash pedersen64 Ty.field
core_arm CoreFunction.pedersen64_hash_to_group = hash pedersen64 Ty.group
core_arm CoreFunction.pedersen64_hash_to_i8 = hash pedersen64 (integer i8)
core_arm CoreFunction.pedersen64_hash_to_i16 = hash pedersen64 (integer i16)
core_arm CoreFunction.pedersen64_hash_to_i32 = hash pedersen64 (integer i32)
core_arm CoreFunction.pedersen64_hash_to_i64 = hash pedersen64 (integer i64)
core_arm CoreFunction.pedersen64_hash_to_i128 = hash pedersen64 (integer i128)
core_arm CoreFunction.pedersen64_hash_to_u8 = hash pedersen64 (integer u8)
core_arm CoreFunction.pedersen64_hash_to_u16 = hash pedersen64 (integer u16)
core_arm CoreFunction.pedersen64_hash_to_u32 = hash pedersen64 (integer u32)
core_arm CoreFunction.pedersen64_hash_to_u64 = hash pedersen64 (integer u64)
core_arm CoreFunction.pedersen64_hash_to_u128 = hash pedersen64 (integer u128)
core_arm CoreFunction.pedersen64_hash_to_scalar = hash pedersen64 Ty.scalar
core_arm CoreFunction.pedersen128_commit_to_address = commit pedersen128 Ty.address
core_arm CoreFunction.pedersen128_commit_to_field = commit pedersen128 Ty.field
core_arm CoreFunction.pedersen128_commit_to_group = commit pedersen128 Ty.group
core_arm CoreFunction.pedersen128_hash_to_address = hash pedersen128 Ty.address
core_arm CoreFunction.pedersen128_hash_to_field = hash pedersen128 Ty.field
core_arm CoreFunction.pedersen128_hash_to_group = hash pedersen128 Ty.group
core_arm CoreFunction.pedersen128_hash_to_i8 = hash pedersen128 (integer i8)
core_arm CoreFunction.pedersen128_hash_to_i16 = hash pedersen128 (integer i16)
core_arm CoreFunction.pedersen128_hash_to_i32 = hash pedersen128 (integer i32)
core_arm CoreFunction.pedersen128_hash_to_i64 = hash pedersen128 (integer i64)
core_arm CoreFunction.pedersen128_hash_to_i128 = hash pedersen128 (integer i128)
core_arm CoreFunction.pedersen128_hash_to_u8 = hash pedersen128 (integer u8)
core_arm CoreFunction.pedersen128_hash_to_u16 = hash pedersen128 (integer u16)
core_arm CoreFunction.pedersen128_hash_to_u32 = hash pedersen128 (integer u32)
core_arm CoreFunction.pedersen128_hash_to_u64 = hash pedersen128 (integer u64)
core_arm CoreFunction.pedersen128_hash_to_u128 = hash pedersen128 (integer u128)
core_arm CoreFunction.pedersen128_hash_to_scalar = hash pedersen128 Ty.scalar
core_arm CoreFunction.poseidon2_hash_to_address = hash any_type Ty.address
core_arm CoreFunction.poseidon2_hash_to_field = hash any_type Ty.field
core_arm CoreFunction.poseidon2_hash_to_group = hash any_type Ty.group
core_arm CoreFunction.poseidon2_hash_to_i8 = hash any_type (integer i8)
core_arm CoreFunction.poseidon2_hash_to_i16 = hash any_type (integer i16)
core_arm CoreFunction.poseidon2_hash_to_i32 = hash any_type (integer i32)
core_arm CoreFunction.poseidon2_hash_to_i64 = hash any_type (integer i64)
core_arm CoreFunction.poseidon2_hash_to_i128 = hash any_type (integer i128)
core_arm CoreFunction.poseidon2_hash_to_u8 = hash any_type (integer u8)
core_arm CoreFunction.poseidon2_hash_to_u16 = hash any_type (integer u16)
core_arm CoreFunction.poseidon2_hash_to_u32 = hash any_type (integer u32)
core_arm CoreFunction.poseidon2_hash_to_u64 = hash any_type (integer u64)
core_arm CoreFunction.poseidon2_hash_to_u128 = hash any_type (integer u128)
core_arm CoreFunction.poseidon2_hash_to_scalar = hash any_type Ty.scalar
core_arm CoreFunction.poseidon4_hash_to_address = hash any_type Ty.address
core_arm CoreFunction.poseidon4_hash_to_field = hash any_type Ty.field
core_arm CoreFunction.poseidon4_hash_to_group = hash any_type Ty.group
core_arm CoreFunction.poseidon4_hash_to_i8 = hash any_type (integer i8)
core_arm CoreFunction.poseidon4_hash_to_i16 = hash any_type (integer i16)
core_arm CoreFunction.poseidon4_hash_to_i32 = hash any_type (integer i32)
core_arm CoreFunction.poseidon4_hash_to_i64 = hash any_type (integer i64)
core_arm CoreFunction.poseidon4_hash_to_i128 = hash any_type (integer i128)
core_arm CoreFunction.poseidon4_hash_to_u8 = hash any_type (integer u8)
core_arm CoreFunction.poseidon4_hash_to_u16 = hash any_type (integer u16)
core_arm CoreFunction.poseidon4_hash_to_u32 = hash any_type (integer u32)
core_arm CoreFunction.poseidon4_hash_to_u64 = hash any_type (integer u64)
core_arm CoreFunction.poseidon4_hash_to_u128 = hash any_type (integer u128)
core_arm CoreFunction.poseidon4_hash_to_scalar = hash any_type Ty.scalar
core_arm CoreFunction.poseidon8_hash_to_address = hash any_type Ty.address
core_arm CoreFunction.poseidon8_hash_to_field = hash any_type Ty.field
core_arm CoreFunction.poseidon8_hash_to_group = hash any_type Ty.group
core_arm CoreFunction.poseidon8_hash_to_i8 = hash any_type (integer i8)
core_arm CoreFunction.poseidon8_hash_to_i16 = hash any_type (integer i16)
core_arm CoreFunction.poseidon8_hash_to_i32 = hash any_type (integer i32)
core_arm CoreFunction.poseidon8_hash_to_i64 = hash any_type (integer i64)
core_arm CoreFunction.poseidon8_hash_to_i128 = hash any_type (integer i128)
core_arm CoreFunction.poseidon8_hash_to_u8 = hash any_type (integer u8)
core_arm CoreFunction.poseidon8_hash_to_u16 = hash any_type (integer u16)
core_arm CoreFunction.poseidon8_hash_to_u32 = hash any_type (integer u32)
core_arm CoreFunction.poseidon8_hash_to_u64 = hash any_type (integer u64)
core_arm CoreFunction.poseidon8_hash_to_u128 = hash any_type (integer u128)
core_arm CoreFunction.poseidon8_hash_to_scalar = hash any_type Ty.scalar
core_arm CoreFunction.sha3_256_hash_to_address = hash any_type Ty.address
core_arm CoreFunction.sha3_256_hash_to_field = hash any_type Ty.field
core_arm CoreFunction.sha3_256_hash_to_group = hash any_type Ty.group
core_arm CoreFunction.sha3_256_hash_to_i8 = hash any_type (integer i8)
core_arm CoreFunction.sha3_256_hash_to_i16 = hash any_type (integer i16)
core_arm CoreFunction.sha3_256_hash_to_i32 = hash any_type (integer i32)
core_arm CoreFunction.sha3_256_hash_to_i64 = hash any_type (integer i64)
core_arm CoreFunction.sha3_256_hash_to_i128 = hash any_type (integer i128)
core_arm CoreFunction.sha3_256_hash_to_u8 = hash any_type (integer u8)
core_arm CoreFunction.sha3_256_hash_to_u16 = hash any_type (integer u16)
core_arm CoreFunction.sha3_256_hash_to_u32 = hash any_type (integer u32)
core_arm CoreFunction.sha3_256_hash_to_u64 = hash any_type (integer u64)
core_arm CoreFunction.sha3_256_hash_to_u128 = hash any_type (integer u128)
core_arm CoreFunction.sha3_256_hash_to_scalar = hash any_type Ty.scalar
core_arm CoreFunction.sha3_384_hash_to_address = hash any_type Ty.address
core_arm CoreFunction.sha3_384_hash_to_field = hash any_type Ty.field
core_arm CoreFunction.sha3_384_hash_to_group = hash any_type Ty.group
core_arm CoreFunction.sha3_384_hash_to_i8 = hash any_type (integer i8)
core_arm CoreFunction.sha3_384_hash_to_i16 = hash any_type (integer i16)
core_arm CoreFunction.sha3_384_hash_to_i32 = hash any_type (integer i32)
core_arm CoreFunction.sha3_384_hash_to_i64 = hash any_type (integer i64)
core_arm CoreFunction.sha3_384_hash_to_i128 = hash any_type (integer i128)
core_arm CoreFunction.sha3_384_hash_to_u8 = hash any_type (integer u8)
core_arm CoreFunction.sha3_384_hash_to_u16 = hash any_type (integer u16)
core_arm CoreFunction.sha3_384_hash_to_u32 = hash any_type (integer u32)
core_arm CoreFunction.sha3_384_hash_to_u64 = hash any_type (integer u64)
core_arm CoreFunction.sha3_384_hash_to_u128 = hash any_type (integer u128)
core_arm CoreFunction.sha3_384_hash_to_scalar = hash any_type Ty.scalar
core_arm CoreFunction.sha3_512_hash_to_address = hash any_type Ty.address
core_arm CoreFunction.sha3_512_hash_to_field = hash any_type Ty.field
core_arm CoreFunction.sha3_512_hash_to_group = hash any_type Ty.group
core_arm CoreFunction.sha3_512_hash_to_i8 = hash any_type (integer i8)
core_arm CoreFunction.sha3_512_hash_to_i16 = hash any_type (integer i16)
core_arm CoreFunction.sha3_512_hash_to_i32 = hash any_type (integer i32)
core_arm CoreFunction.sha3_512_hash_to_i64 = hash any_type (integer i64)
core_arm CoreFunction.sha3_512_hash_to_i128 = hash any_type (integer i128)
core_arm CoreFunction.sha3_512_hash_to_u8 = hash any_type (integer u8)
core_arm CoreFunction.sha3_512_hash_to_u16 = hash any_type (integer u16)
core_arm CoreFunction.sha3_512_hash_to_u32 = hash any_type (integer u32)
core_arm CoreFunction.sha3_512_hash_to_u64 = hash any_type (integer u64)
core_arm CoreFunction.sha3_512_hash_to_u128 = hash any_type (integer u128)
core_arm CoreFunction.sha3_512_hash_to_scalar = hash any_type Ty.scalar
core_arm CoreFunction.mapping_get = mapping_get
core_arm CoreFunction.mapping_get_or_use = mapping_get_or_use
core_arm CoreFunction.mapping_set = mapping_set
core_arm CoreFunction.mapping_remove = mapping_remove
core_arm CoreFunction.mapping_contains = mapping_contains
core_arm CoreFunction.group_to_x_coordinate = coordinate
core_arm CoreFunction.group_to_y_coordinate = coordinate
core_arm CoreFunction.signature_verify = signature_verify
