-- ===== src/CoreFunction/Names.antt =====
-- The module and the function that name each core function of
-- compiler/ast/src/functions/core_function.rs.
use aleotiktacto.Prelude.{ℕ}
use aleotiktacto.Sym
use aleotiktacto.CoreFunction.{CoreFunction}

-- The module's symbol and the function's symbol.
abbrev pub names : CoreFunction → ℕ × ℕ
names CoreFunction.bhp256_commit_to_address = (Sym.bhp256, Sym.commit_to_address)
names CoreFunction.bhp256_commit_to_field = (Sym.bhp256, Sym.commit_to_field)
names CoreFunction.bhp256_commit_to_group = (Sym.bhp256, Sym.commit_to_group)
names CoreFunction.bhp256_hash_to_address = (Sym.bhp256, Sym.hash_to_address)
names CoreFunction.bhp256_hash_to_field = (Sym.bhp256, Sym.hash_to_field)
names CoreFunction.bhp256_hash_to_group = (Sym.bhp256, Sym.hash_to_group)
names CoreFunction.bhp256_hash_to_i8 = (Sym.bhp256, Sym.hash_to_i8)
names CoreFunction.bhp256_hash_to_i16 = (Sym.bhp256, Sym.hash_to_i16)
names CoreFunction.bhp256_hash_to_i32 = (Sym.bhp256, Sym.hash_to_i32)
names CoreFunction.bhp256_hash_to_i64 = (Sym.bhp256, Sym.hash_to_i64)
names CoreFunction.bhp256_hash_to_i128 = (Sym.bhp256, Sym.hash_to_i128)
names CoreFunction.bhp256_hash_to_u8 = (Sym.bhp256, Sym.hash_to_u8)
names CoreFunction.bhp256_hash_to_u16 = (Sym.bhp256, Sym.hash_to_u16)
names CoreFunction.bhp256_hash_to_u32 = (Sym.bhp256, Sym.hash_to_u32)
names CoreFunction.bhp256_hash_to_u64 = (Sym.bhp256, Sym.hash_to_u64)
names CoreFunction.bhp256_hash_to_u128 = (Sym.bhp256, Sym.hash_to_u128)
names CoreFunction.bhp256_hash_to_scalar = (Sym.bhp256, Sym.hash_to_scalar)
names CoreFunction.bhp512_commit_to_address = (Sym.bhp512, Sym.commit_to_address)
names CoreFunction.bhp512_commit_to_field = (Sym.bhp512, Sym.commit_to_field)
names CoreFunction.bhp512_commit_to_group = (Sym.bhp512, Sym.commit_to_group)
names CoreFunction.bhp512_hash_to_address = (Sym.bhp512, Sym.hash_to_address)
names CoreFunction.bhp512_hash_to_field = (Sym.bhp512, Sym.hash_to_field)
names CoreFunction.bhp512_hash_to_group = (Sym.bhp512, Sym.hash_to_group)
names CoreFunction.bhp512_hash_to_i8 = (Sym.bhp512, Sym.hash_to_i8)
names CoreFunction.bhp512_hash_to_i16 = (Sym.bhp512, Sym.hash_to_i16)
names CoreFunction.bhp512_hash_to_i32 = (Sym.bhp512, Sym.hash_to_i32)
names CoreFunction.bhp512_hash_to_i64 = (Sym.bhp512, Sym.hash_to_i64)
names CoreFunction.bhp512_hash_to_i128 = (Sym.bhp512, Sym.hash_to_i128)
names CoreFunction.bhp512_hash_to_u8 = (Sym.bhp512, Sym.hash_to_u8)
names CoreFunction.bhp512_hash_to_u16 = (Sym.bhp512, Sym.hash_to_u16)
names CoreFunction.bhp512_hash_to_u32 = (Sym.bhp512, Sym.hash_to_u32)
names CoreFunction.bhp512_hash_to_u64 = (Sym.bhp512, Sym.hash_to_u64)
names CoreFunction.bhp512_hash_to_u128 = (Sym.bhp512, Sym.hash_to_u128)
names CoreFunction.bhp512_hash_to_scalar = (Sym.bhp512, Sym.hash_to_scalar)
names CoreFunction.bhp768_commit_to_address = (Sym.bhp768, Sym.commit_to_address)
names CoreFunction.bhp768_commit_to_field = (Sym.bhp768, Sym.commit_to_field)
names CoreFunction.bhp768_commit_to_group = (Sym.bhp768, Sym.commit_to_group)
names CoreFunction.bhp768_hash_to_address = (Sym.bhp768, Sym.hash_to_address)
names CoreFunction.bhp768_hash_to_field = (Sym.bhp768, Sym.hash_to_field)
names CoreFunction.bhp768_hash_to_group = (Sym.bhp768, Sym.hash_to_group)
names CoreFunction.bhp768_hash_to_i8 = (Sym.bhp768, Sym.hash_to_i8)
names CoreFunction.bhp768_hash_to_i16 = (Sym.bhp768, Sym.hash_to_i16)
names CoreFunction.bhp768_hash_to_i32 = (Sym.bhp768, Sym.hash_to_i32)
names CoreFunction.bhp768_hash_to_i64 = (Sym.bhp768, Sym.hash_to_i64)
names CoreFunction.bhp768_hash_to_i128 = (Sym.bhp768, Sym.hash_to_i128)
names CoreFunction.bhp768_hash_to_u8 = (Sym.bhp768, Sym.hash_to_u8)
names CoreFunction.bhp768_hash_to_u16 = (Sym.bhp768, Sym.hash_to_u16)
names CoreFunction.bhp768_hash_to_u32 = (Sym.bhp768, Sym.hash_to_u32)
names CoreFunction.bhp768_hash_to_u64 = (Sym.bhp768, Sym.hash_to_u64)
names CoreFunction.bhp768_hash_to_u128 = (Sym.bhp768, Sym.hash_to_u128)
names CoreFunction.bhp768_hash_to_scalar = (Sym.bhp768, Sym.hash_to_scalar)
names CoreFunction.bhp1024_commit_to_address = (Sym.bhp1024, Sym.commit_to_address)
names CoreFunction.bhp1024_commit_to_field = (Sym.bhp1024, Sym.commit_to_field)
names CoreFunction.bhp1024_commit_to_group = (Sym.bhp1024, Sym.commit_to_group)
names CoreFunction.bhp1024_hash_to_address = (Sym.bhp1024, Sym.hash_to_address)
names CoreFunction.bhp1024_hash_to_field = (Sym.bhp1024, Sym.hash_to_field)
names CoreFunction.bhp1024_hash_to_group = (Sym.bhp1024, Sym.hash_to_group)
names CoreFunction.bhp1024_hash_to_i8 = (Sym.bhp1024, Sym.hash_to_i8)
names CoreFunction.bhp1024_hash_to_i16 = (Sym.bhp1024, Sym.hash_to_i16)
names CoreFunction.bhp1024_hash_to_i32 = (Sym.bhp1024, Sym.hash_to_i32)
names CoreFunction.bhp1024_hash_to_i64 = (Sym.bhp1024, Sym.hash_to_i64)
names CoreFunction.bhp1024_hash_to_i128 = (Sym.bhp1024, Sym.hash_to_i128)
names CoreFunction.bhp1024_hash_to_u8 = (Sym.bhp1024, Sym.hash_to_u8)
names CoreFunction.bhp1024_hash_to_u16 = (Sym.bhp1024, Sym.hash_to_u16)
names CoreFunction.bhp1024_hash_to_u32 = (Sym.bhp1024, Sym.hash_to_u32)
names CoreFunction.bhp1024_hash_to_u64 = (Sym.bhp1024, Sym.hash_to_u64)
names CoreFunction.bhp1024_hash_to_u128 = (Sym.bhp1024, Sym.hash_to_u128)
names CoreFunction.bhp1024_hash_to_scalar = (Sym.bhp1024, Sym.hash_to_scalar)
names CoreFunction.cha_cha_rand_address = (Sym.cha_cha, Sym.rand_address)
names CoreFunction.cha_cha_rand_bool = (Sym.cha_cha, Sym.rand_bool)
names CoreFunction.cha_cha_rand_field = (Sym.cha_cha, Sym.rand_field)
names CoreFunction.cha_cha_rand_group = (Sym.cha_cha, Sym.rand_group)
names CoreFunction.cha_cha_rand_i8 = (Sym.cha_cha, Sym.rand_i8)
names CoreFunction.cha_cha_rand_i16 = (Sym.cha_cha, Sym.rand_i16)
names CoreFunction.cha_cha_rand_i32 = (Sym.cha_cha, Sym.rand_i32)
names CoreFunction.cha_cha_rand_i64 = (Sym.cha_cha, Sym.rand_i64)
names CoreFunction.cha_cha_rand_i128 = (Sym.cha_cha, Sym.rand_i128)
names CoreFunction.cha_cha_rand_scalar = (Sym.cha_cha, Sym.rand_scalar)
names CoreFunction.cha_cha_rand_u8 = (Sym.cha_cha, Sym.rand_u8)
names CoreFunction.cha_cha_rand_u16 = (Sym.cha_cha, Sym.rand_u16)
names CoreFunction.cha_cha_rand_u32 = (Sym.cha_cha, Sym.rand_u32)
names CoreFunction.cha_cha_rand_u64 = (Sym.cha_cha, Sym.rand_u64)
names CoreFunction.cha_cha_rand_u128 = (Sym.cha_cha, Sym.rand_u128)
names CoreFunction.keccak256_hash_to_address = (Sym.keccak256, Sym.hash_to_address)
names CoreFunction.keccak256_hash_to_field = (Sym.keccak256, Sym.hash_to_field)
names CoreFunction.keccak256_hash_to_group = (Sym.keccak256, Sym.hash_to_group)
names CoreFunction.keccak256_hash_to_i8 = (Sym.keccak256, Sym.hash_to_i8)
names CoreFunction.keccak256_hash_to_i16 = (Sym.keccak256, Sym.hash_to_i16)
names CoreFunction.keccak256_hash_to_i32 = (Sym.keccak256, Sym.hash_to_i32)
names CoreFunction.keccak256_hash_to_i64 = (Sym.keccak256, Sym.hash_to_i64)
names CoreFunction.keccak256_hash_to_i128 = (Sym.keccak256, Sym.hash_to_i128)
names CoreFunction.keccak256_hash_to_u8 = (Sym.keccak256, Sym.hash_to_u8)
names CoreFunction.keccak256_hash_to_u16 = (Sym.keccak256, Sym.hash_to_u16)
names CoreFunction.keccak256_hash_to_u32 = (Sym.keccak256, Sym.hash_to_u32)
names CoreFunction.keccak256_hash_to_u64 = (Sym.keccak256, Sym.hash_to_u64)
names CoreFunction.keccak256_hash_to_u128 = (Sym.keccak256, Sym.hash_to_u128)
names CoreFunction.keccak256_hash_to_scalar = (Sym.keccak256, Sym.hash_to_scalar)
names CoreFunction.keccak384_hash_to_address = (Sym.keccak384, Sym.hash_to_address)
names CoreFunction.keccak384_hash_to_field = (Sym.keccak384, Sym.hash_to_field)
names CoreFunction.keccak384_hash_to_group = (Sym.keccak384, Sym.hash_to_group)
names CoreFunction.keccak384_hash_to_i8 = (Sym.keccak384, Sym.hash_to_i8)
names CoreFunction.keccak384_hash_to_i16 = (Sym.keccak384, Sym.hash_to_i16)
names CoreFunction.keccak384_hash_to_i32 = (Sym.keccak384, Sym.hash_to_i32)
names CoreFunction.keccak384_hash_to_i64 = (Sym.keccak384, Sym.hash_to_i64)
names CoreFunction.keccak384_hash_to_i128 = (Sym.keccak384, Sym.hash_to_i128)
names CoreFunction.keccak384_hash_to_u8 = (Sym.keccak384, Sym.hash_to_u8)
names CoreFunction.keccak384_hash_to_u16 = (Sym.keccak384, Sym.hash_to_u16)
names CoreFunction.keccak384_hash_to_u32 = (Sym.keccak384, Sym.hash_to_u32)
names CoreFunction.keccak384_hash_to_u64 = (Sym.keccak384, Sym.hash_to_u64)
names CoreFunction.keccak384_hash_to_u128 = (Sym.keccak384, Sym.hash_to_u128)
names CoreFunction.keccak384_hash_to_scalar = (Sym.keccak384, Sym.hash_to_scalar)
names CoreFunction.keccak512_hash_to_address = (Sym.keccak512, Sym.hash_to_address)
names CoreFunction.keccak512_hash_to_field = (Sym.keccak512, Sym.hash_to_field)
names CoreFunction.keccak512_hash_to_group = (Sym.keccak512, Sym.hash_to_group)
names CoreFunction.keccak512_hash_to_i8 = (Sym.keccak512, Sym.hash_to_i8)
names CoreFunction.keccak512_hash_to_i16 = (Sym.keccak512, Sym.hash_to_i16)
names CoreFunction.keccak512_hash_to_i32 = (Sym.keccak512, Sym.hash_to_i32)
names CoreFunction.keccak512_hash_to_i64 = (Sym.keccak512, Sym.hash_to_i64)
names CoreFunction.keccak512_hash_to_i128 = (Sym.keccak512, Sym.hash_to_i128)
names CoreFunction.keccak512_hash_to_u8 = (Sym.keccak512, Sym.hash_to_u8)
names CoreFunction.keccak512_hash_to_u16 = (Sym.keccak512, Sym.hash_to_u16)
names CoreFunction.keccak512_hash_to_u32 = (Sym.keccak512, Sym.hash_to_u32)
names CoreFunction.keccak512_hash_to_u64 = (Sym.keccak512, Sym.hash_to_u64)
names CoreFunction.keccak512_hash_to_u128 = (Sym.keccak512, Sym.hash_to_u128)
names CoreFunction.keccak512_hash_to_scalar = (Sym.keccak512, Sym.hash_to_scalar)
names CoreFunction.pedersen64_commit_to_address = (Sym.pedersen64, Sym.commit_to_address)
names CoreFunction.pedersen64_commit_to_field = (Sym.pedersen64, Sym.commit_to_field)
names CoreFunction.pedersen64_commit_to_group = (Sym.pedersen64, Sym.commit_to_group)
names CoreFunction.pedersen64_hash_to_address = (Sym.pedersen64, Sym.hash_to_address)
names CoreFunction.pedersen64_hash_to_field = (Sym.pedersen64, Sym.hash_to_field)
names CoreFunction.pedersen64_hash_to_group = (Sym.pedersen64, Sym.hash_to_group)
names CoreFunction.pedersen64_hash_to_i8 = (Sym.pedersen64, Sym.hash_to_i8)
names CoreFunction.pedersen64_hash_to_i16 = (Sym.pedersen64, Sym.hash_to_i16)
names CoreFunction.pedersen64_hash_to_i32 = (Sym.pedersen64, Sym.hash_to_i32)
names CoreFunction.pedersen64_hash_to_i64 = (Sym.pedersen64, Sym.hash_to_i64)
names CoreFunction.pedersen64_hash_to_i128 = (Sym.pedersen64, Sym.hash_to_i128)
names CoreFunction.pedersen64_hash_to_u8 = (Sym.pedersen64, Sym.hash_to_u8)
names CoreFunction.pedersen64_hash_to_u16 = (Sym.pedersen64, Sym.hash_to_u16)
names CoreFunction.pedersen64_hash_to_u32 = (Sym.pedersen64, Sym.hash_to_u32)
names CoreFunction.pedersen64_hash_to_u64 = (Sym.pedersen64, Sym.hash_to_u64)
names CoreFunction.pedersen64_hash_to_u128 = (Sym.pedersen64, Sym.hash_to_u128)
names CoreFunction.pedersen64_hash_to_scalar = (Sym.pedersen64, Sym.hash_to_scalar)
names CoreFunction.pedersen128_commit_to_address = (Sym.pedersen128, Sym.commit_to_address)
names CoreFunction.pedersen128_commit_to_field = (Sym.pedersen128, Sym.commit_to_field)
names CoreFunction.pedersen128_commit_to_group = (Sym.pedersen128, Sym.commit_to_group)
names CoreFunction.pedersen128_hash_to_address = (Sym.pedersen128, Sym.hash_to_address)
names CoreFunction.pedersen128_hash_to_field = (Sym.pedersen128, Sym.hash_to_field)
names CoreFunction.pedersen128_hash_to_group = (Sym.pedersen128, Sym.hash_to_group)
names CoreFunction.pedersen128_hash_to_i8 = (Sym.pedersen128, Sym.hash_to_i8)
names CoreFunction.pedersen128_hash_to_i16 = (Sym.pedersen128, Sym.hash_to_i16)
names CoreFunction.pedersen128_hash_to_i32 = (Sym.pedersen128, Sym.hash_to_i32)
names CoreFunction.pedersen128_hash_to_i64 = (Sym.pedersen128, Sym.hash_to_i64)
names CoreFunction.pedersen128_hash_to_i128 = (Sym.pedersen128, Sym.hash_to_i128)
names CoreFunction.pedersen128_hash_to_u8 = (Sym.pedersen128, Sym.hash_to_u8)
names CoreFunction.pedersen128_hash_to_u16 = (Sym.pedersen128, Sym.hash_to_u16)
names CoreFunction.pedersen128_hash_to_u32 = (Sym.pedersen128, Sym.hash_to_u32)
names CoreFunction.pedersen128_hash_to_u64 = (Sym.pedersen128, Sym.hash_to_u64)
names CoreFunction.pedersen128_hash_to_u128 = (Sym.pedersen128, Sym.hash_to_u128)
names CoreFunction.pedersen128_hash_to_scalar = (Sym.pedersen128, Sym.hash_to_scalar)
names CoreFunction.poseidon2_hash_to_address = (Sym.poseidon2, Sym.hash_to_address)
names CoreFunction.poseidon2_hash_to_field = (Sym.poseidon2, Sym.hash_to_field)
names CoreFunction.poseidon2_hash_to_group = (Sym.poseidon2, Sym.hash_to_group)
names CoreFunction.poseidon2_hash_to_i8 = (Sym.poseidon2, Sym.hash_to_i8)
names CoreFunction.poseidon2_hash_to_i16 = (Sym.poseidon2, Sym.hash_to_i16)
names CoreFunction.poseidon2_hash_to_i32 = (Sym.poseidon2, Sym.hash_to_i32)
names CoreFunction.poseidon2_hash_to_i64 = (Sym.poseidon2, Sym.hash_to_i64)
names CoreFunction.poseidon2_hash_to_i128 = (Sym.poseidon2, Sym.hash_to_i128)
names CoreFunction.poseidon2_hash_to_u8 = (Sym.poseidon2, Sym.hash_to_u8)
names CoreFunction.poseidon2_hash_to_u16 = (Sym.poseidon2, Sym.hash_to_u16)
names CoreFunction.poseidon2_hash_to_u32 = (Sym.poseidon2, Sym.hash_to_u32)
names CoreFunction.poseidon2_hash_to_u64 = (Sym.poseidon2, Sym.hash_to_u64)
names CoreFunction.poseidon2_hash_to_u128 = (Sym.poseidon2, Sym.hash_to_u128)
names CoreFunction.poseidon2_hash_to_scalar = (Sym.poseidon2, Sym.hash_to_scalar)
names CoreFunction.poseidon4_hash_to_address = (Sym.poseidon4, Sym.hash_to_address)
names CoreFunction.poseidon4_hash_to_field = (Sym.poseidon4, Sym.hash_to_field)
names CoreFunction.poseidon4_hash_to_group = (Sym.poseidon4, Sym.hash_to_group)
names CoreFunction.poseidon4_hash_to_i8 = (Sym.poseidon4, Sym.hash_to_i8)
names CoreFunction.poseidon4_hash_to_i16 = (Sym.poseidon4, Sym.hash_to_i16)
names CoreFunction.poseidon4_hash_to_i32 = (Sym.poseidon4, Sym.hash_to_i32)
names CoreFunction.poseidon4_hash_to_i64 = (Sym.poseidon4, Sym.hash_to_i64)
names CoreFunction.poseidon4_hash_to_i128 = (Sym.poseidon4, Sym.hash_to_i128)
names CoreFunction.poseidon4_hash_to_u8 = (Sym.poseidon4, Sym.hash_to_u8)
names CoreFunction.poseidon4_hash_to_u16 = (Sym.poseidon4, Sym.hash_to_u16)
names CoreFunction.poseidon4_hash_to_u32 = (Sym.poseidon4, Sym.hash_to_u32)
names CoreFunction.poseidon4_hash_to_u64 = (Sym.poseidon4, Sym.hash_to_u64)
names CoreFunction.poseidon4_hash_to_u128 = (Sym.poseidon4, Sym.hash_to_u128)
names CoreFunction.poseidon4_hash_to_scalar = (Sym.poseidon4, Sym.hash_to_scalar)
names CoreFunction.poseidon8_hash_to_address = (Sym.poseidon8, Sym.hash_to_address)
names CoreFunction.poseidon8_hash_to_field = (Sym.poseidon8, Sym.hash_to_field)
names CoreFunction.poseidon8_hash_to_group = (Sym.poseidon8, Sym.hash_to_group)
names CoreFunction.poseidon8_hash_to_i8 = (Sym.poseidon8, Sym.hash_to_i8)
names CoreFunction.poseidon8_hash_to_i16 = (Sym.poseidon8, Sym.hash_to_i16)
names CoreFunction.poseidon8_hash_to_i32 = (Sym.poseidon8, Sym.hash_to_i32)
names CoreFunction.poseidon8_hash_to_i64 = (Sym.poseidon8, Sym.hash_to_i64)
names CoreFunction.poseidon8_hash_to_i128 = (Sym.poseidon8, Sym.hash_to_i128)
names CoreFunction.poseidon8_hash_to_u8 = (Sym.poseidon8, Sym.hash_to_u8)
names CoreFunction.poseidon8_hash_to_u16 = (Sym.poseidon8, Sym.hash_to_u16)
names CoreFunction.poseidon8_hash_to_u32 = (Sym.poseidon8, Sym.hash_to_u32)
names CoreFunction.poseidon8_hash_to_u64 = (Sym.poseidon8, Sym.hash_to_u64)
names CoreFunction.poseidon8_hash_to_u128 = (Sym.poseidon8, Sym.hash_to_u128)
names CoreFunction.poseidon8_hash_to_scalar = (Sym.poseidon8, Sym.hash_to_scalar)
names CoreFunction.sha3_256_hash_to_address = (Sym.sha3_256, Sym.hash_to_address)
names CoreFunction.sha3_256_hash_to_field = (Sym.sha3_256, Sym.hash_to_field)
names CoreFunction.sha3_256_hash_to_group = (Sym.sha3_256, Sym.hash_to_group)
names CoreFunction.sha3_256_hash_to_i8 = (Sym.sha3_256, Sym.hash_to_i8)
names CoreFunction.sha3_256_hash_to_i16 = (Sym.sha3_256, Sym.hash_to_i16)
names CoreFunction.sha3_256_hash_to_i32 = (Sym.sha3_256, Sym.hash_to_i32)
names CoreFunction.sha3_256_hash_to_i64 = (Sym.sha3_256, Sym.hash_to_i64)
names CoreFunction.sha3_256_hash_to_i128 = (Sym.sha3_256, Sym.hash_to_i128)
names CoreFunction.sha3_256_hash_to_u8 = (Sym.sha3_256, Sym.hash_to_u8)
names CoreFunction.sha3_256_hash_to_u16 = (Sym.sha3_256, Sym.hash_to_u16)
names CoreFunction.sha3_256_hash_to_u32 = (Sym.sha3_256, Sym.hash_to_u32)
names CoreFunction.sha3_256_hash_to_u64 = (Sym.sha3_256, Sym.hash_to_u64)
names CoreFunction.sha3_256_hash_to_u128 = (Sym.sha3_256, Sym.hash_to_u128)
names CoreFunction.sha3_256_hash_to_scalar = (Sym.sha3_256, Sym.hash_to_scalar)
names CoreFunction.sha3_384_hash_to_address = (Sym.sha3_384, Sym.hash_to_address)
names CoreFunction.sha3_384_hash_to_field = (Sym.sha3_384, Sym.hash_to_field)
names CoreFunction.sha3_384_hash_to_group = (Sym.sha3_384, Sym.hash_to_group)
names CoreFunction.sha3_384_hash_to_i8 = (Sym.sha3_384, Sym.hash_to_i8)
names CoreFunction.sha3_384_hash_to_i16 = (Sym.sha3_384, Sym.hash_to_i16)
names CoreFunction.sha3_384_hash_to_i32 = (Sym.sha3_384, Sym.hash_to_i32)
names CoreFunction.sha3_384_hash_to_i64 = (Sym.sha3_384, Sym.hash_to_i64)
names CoreFunction.sha3_384_hash_to_i128 = (Sym.sha3_384, Sym.hash_to_i128)
names CoreFunction.sha3_384_hash_to_u8 = (Sym.sha3_384, Sym.hash_to_u8)
names CoreFunction.sha3_384_hash_to_u16 = (Sym.sha3_384, Sym.hash_to_u16)
names CoreFunction.sha3_384_hash_to_u32 = (Sym.sha3_384, Sym.hash_to_u32)
names CoreFunction.sha3_384_hash_to_u64 = (Sym.sha3_384, Sym.hash_to_u64)
names CoreFunction.sha3_384_hash_to_u128 = (Sym.sha3_384, Sym.hash_to_u128)
names CoreFunction.sha3_384_hash_to_scalar = (Sym.sha3_384, Sym.hash_to_scalar)
names CoreFunction.sha3_512_hash_to_address = (Sym.sha3_512, Sym.hash_to_address)
names CoreFunction.sha3_512_hash_to_field = (Sym.sha3_512, Sym.hash_to_field)
names CoreFunction.sha3_512_hash_to_group = (Sym.sha3_512, Sym.hash_to_group)
names CoreFunction.sha3_512_hash_to_i8 = (Sym.sha3_512, Sym.hash_to_i8)
names CoreFunction.sha3_512_hash_to_i16 = (Sym.sha3_512, Sym.hash_to_i16)
names CoreFunction.sha3_512_hash_to_i32 = (Sym.sha3_512, Sym.hash_to_i32)
names CoreFunction.sha3_512_hash_to_i64 = (Sym.sha3_512, Sym.hash_to_i64)
names CoreFunction.sha3_512_hash_to_i128 = (Sym.sha3_512, Sym.hash_to_i128)
names CoreFunction.sha3_512_hash_to_u8 = (Sym.sha3_512, Sym.hash_to_u8)
names CoreFunction.sha3_512_hash_to_u16 = (Sym.sha3_512, Sym.hash_to_u16)
names CoreFunction.sha3_512_hash_to_u32 = (Sym.sha3_512, Sym.hash_to_u32)
names CoreFunction.sha3_512_hash_to_u64 = (Sym.sha3_512, Sym.hash_to_u64)
names CoreFunction.sha3_512_hash_to_u128 = (Sym.sha3_512, Sym.hash_to_u128)
names CoreFunction.sha3_512_hash_to_scalar = (Sym.sha3_512, Sym.hash_to_scalar)
names CoreFunction.mapping_get = (Sym.mapping, Sym.get)
names CoreFunction.mapping_get_or_use = (Sym.mapping, Sym.get_or_use)
names CoreFunction.mapping_set = (Sym.mapping, Sym.set)
names CoreFunction.mapping_remove = (Sym.mapping, Sym.remove)
names CoreFunction.mapping_contains = (Sym.mapping, Sym.contains)
names CoreFunction.group_to_x_coordinate = (Sym.group, Sym.to_x_coordinate)
names CoreFunction.group_to_y_coordinate = (Sym.group, Sym.to_y_coordinate)
names CoreFunction.signature_verify = (Sym.signature, Sym.verify)
