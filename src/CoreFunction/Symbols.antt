-- ===== src/CoreFunction/Symbols.antt =====
-- `CoreFunction::from_symbols` of compiler/ast/src/functions/core_function.rs: its match arms in
-- their order, and the match.
use aleotiktacto.Prelude.{ℕ, ◌&&◌, Option, none, some, List, [], ◌∷◌, ◌++◌, ◌==◌, if◌then◌else◌}
use aleotiktacto.Sym
use aleotiktacto.CoreFunction.{CoreFunction}

-- `(module, function) => core_function`
pub data SymbolArm : Type 0 where
  symbol_arm : ℕ → ℕ → CoreFunction → SymbolArm

unfoldable pub bhp_arms : List SymbolArm
bhp_arms =
    symbol_arm Sym.bhp256 Sym.commit_to_address CoreFunction.bhp256_commit_to_address
    ∷ symbol_arm Sym.bhp256 Sym.commit_to_field CoreFunction.bhp256_commit_to_field
    ∷ symbol_arm Sym.bhp256 Sym.commit_to_group CoreFunction.bhp256_commit_to_group
    ∷ symbol_arm Sym.bhp256 Sym.hash_to_address CoreFunction.bhp256_hash_to_address
    ∷ symbol_arm Sym.bhp256 Sym.hash_to_field CoreFunction.bhp256_hash_to_field
    ∷ symbol_arm Sym.bhp256 Sym.hash_to_group CoreFunction.bhp256_hash_to_group
    ∷ symbol_arm Sym.bhp256 Sym.hash_to_i8 CoreFunction.bhp256_hash_to_i8
    ∷ symbol_arm Sym.bhp256 Sym.hash_to_i16 CoreFunction.bhp256_hash_to_i16
    ∷ symbol_arm Sym.bhp256 Sym.hash_to_i32 CoreFunction.bhp256_hash_to_i32
    ∷ symbol_arm Sym.bhp256 Sym.hash_to_i64 CoreFunction.bhp256_hash_to_i64
    ∷ symbol_arm Sym.bhp256 Sym.hash_to_i128 CoreFunction.bhp256_hash_to_i128
    ∷ symbol_arm Sym.bhp256 Sym.hash_to_u8 CoreFunction.bhp256_hash_to_u8
    ∷ symbol_arm Sym.bhp256 Sym.hash_to_u16 CoreFunction.bhp256_hash_to_u16
    ∷ symbol_arm Sym.bhp256 Sym.hash_to_u32 CoreFunction.bhp256_hash_to_u32
    ∷ symbol_arm Sym.bhp256 Sym.hash_to_u64 CoreFunction.bhp256_hash_to_u64
    ∷ symbol_arm Sym.bhp256 Sym.hash_to_u128 CoreFunction.bhp256_hash_to_u128
    ∷ symbol_arm Sym.bhp256 Sym.hash_to_scalar CoreFunction.bhp256_hash_to_scalar
    ∷ symbol_arm Sym.bhp512 Sym.commit_to_address CoreFunction.bhp512_commit_to_address
    ∷ symbol_arm Sym.bhp512 Sym.commit_to_field CoreFunction.bhp512_commit_to_field
    ∷ symbol_arm Sym.bhp512 Sym.commit_to_group CoreFunction.bhp512_commit_to_group
    ∷ symbol_arm Sym.bhp512 Sym.hash_to_address CoreFunction.bhp512_hash_to_address
    ∷ symbol_arm Sym.bhp512 Sym.hash_to_field CoreFunction.bhp512_hash_to_field
    ∷ symbol_arm Sym.bhp512 Sym.hash_to_group CoreFunction.bhp512_hash_to_group
    ∷ symbol_arm Sym.bhp512 Sym.hash_to_i8 CoreFunction.bhp512_hash_to_i8
    ∷ symbol_arm Sym.bhp512 Sym.hash_to_i16 CoreFunction.bhp512_hash_to_i16
    ∷ symbol_arm Sym.bhp512 Sym.hash_to_i32 CoreFunction.bhp512_hash_to_i32
    ∷ symbol_arm Sym.bhp512 Sym.hash_to_i64 CoreFunction.bhp512_hash_to_i64
    ∷ symbol_arm Sym.bhp512 Sym.hash_to_i128 CoreFunction.bhp512_hash_to_i128
    ∷ symbol_arm Sym.bhp512 Sym.hash_to_u8 CoreFunction.bhp512_hash_to_u8
    ∷ symbol_arm Sym.bhp512 Sym.hash_to_u16 CoreFunction.bhp512_hash_to_u16
    ∷ symbol_arm Sym.bhp512 Sym.hash_to_u32 CoreFunction.bhp512_hash_to_u32
    ∷ symbol_arm Sym.bhp512 Sym.hash_to_u64 CoreFunction.bhp512_hash_to_u64
    ∷ symbol_arm Sym.bhp512 Sym.hash_to_u128 CoreFunction.bhp512_hash_to_u128
    ∷ symbol_arm Sym.bhp512 Sym.hash_to_scalar CoreFunction.bhp512_hash_to_scalar
    ∷ symbol_arm Sym.bhp768 Sym.commit_to_address CoreFunction.bhp768_commit_to_address
    ∷ symbol_arm Sym.bhp768 Sym.commit_to_field CoreFunction.bhp768_commit_to_field
    ∷ symbol_arm Sym.bhp768 Sym.commit_to_group CoreFunction.bhp768_commit_to_group
    ∷ symbol_arm Sym.bhp768 Sym.hash_to_address CoreFunction.bhp768_hash_to_address
    ∷ symbol_arm Sym.bhp768 Sym.hash_to_field CoreFunction.bhp768_hash_to_field
    ∷ symbol_arm Sym.bhp768 Sym.hash_to_group CoreFunction.bhp768_hash_to_group
    ∷ symbol_arm Sym.bhp768 Sym.hash_to_i8 CoreFunction.bhp768_hash_to_i8
    ∷ symbol_arm Sym.bhp768 Sym.hash_to_i16 CoreFunction.bhp768_hash_to_i16
    ∷ symbol_arm Sym.bhp768 Sym.hash_to_i32 CoreFunction.bhp768_hash_to_i32
    ∷ symbol_arm Sym.bhp768 Sym.hash_to_i64 CoreFunction.bhp768_hash_to_i64
    ∷ symbol_arm Sym.bhp768 Sym.hash_to_i128 CoreFunction.bhp768_hash_to_i128
    ∷ symbol_arm Sym.bhp768 Sym.hash_to_u8 CoreFunction.bhp768_hash_to_u8
    ∷ symbol_arm Sym.bhp768 Sym.hash_to_u16 CoreFunction.bhp768_hash_to_u16
    ∷ symbol_arm Sym.bhp768 Sym.hash_to_u32 CoreFunction.bhp768_hash_to_u32
    ∷ symbol_arm Sym.bhp768 Sym.hash_to_u64 CoreFunction.bhp768_hash_to_u64
    ∷ symbol_arm Sym.bhp768 Sym.hash_to_u128 CoreFunction.bhp768_hash_to_u128
    ∷ symbol_arm Sym.bhp768 Sym.hash_to_scalar CoreFunction.bhp768_hash_to_scalar
    ∷ symbol_arm Sym.bhp1024 Sym.commit_to_address CoreFunction.bhp1024_commit_to_address
    ∷ symbol_arm Sym.bhp1024 Sym.commit_to_field CoreFunction.bhp1024_commit_to_field
    ∷ symbol_arm Sym.bhp1024 Sym.commit_to_group CoreFunction.bhp1024_commit_to_group
    ∷ symbol_arm Sym.bhp1024 Sym.hash_to_address CoreFunction.bhp1024_hash_to_address
    ∷ symbol_arm Sym.bhp1024 Sym.hash_to_field CoreFunction.bhp1024_hash_to_field
    ∷ symbol_arm Sym.bhp1024 Sym.hash_to_group CoreFunction.bhp1024_hash_to_group
    ∷ symbol_arm Sym.bhp1024 Sym.hash_to_i8 CoreFunction.bhp1024_hash_to_i8
    ∷ symbol_arm Sym.bhp1024 Sym.hash_to_i16 CoreFunction.bhp1024_hash_to_i16
    ∷ symbol_arm Sym.bhp1024 Sym.hash_to_i32 CoreFunction.bhp1024_hash_to_i32
    ∷ symbol_arm Sym.bhp1024 Sym.hash_to_i64 CoreFunction.bhp1024_hash_to_i64
    ∷ symbol_arm Sym.bhp1024 Sym.hash_to_i128 CoreFunction.bhp1024_hash_to_i128
    ∷ symbol_arm Sym.bhp1024 Sym.hash_to_u8 CoreFunction.bhp1024_hash_to_u8
    ∷ symbol_arm Sym.bhp1024 Sym.hash_to_u16 CoreFunction.bhp1024_hash_to_u16
    ∷ symbol_arm Sym.bhp1024 Sym.hash_to_u32 CoreFunction.bhp1024_hash_to_u32
    ∷ symbol_arm Sym.bhp1024 Sym.hash_to_u64 CoreFunction.bhp1024_hash_to_u64
    ∷ symbol_arm Sym.bhp1024 Sym.hash_to_u128 CoreFunction.bhp1024_hash_to_u128
    ∷ symbol_arm Sym.bhp1024 Sym.hash_to_scalar CoreFunction.bhp1024_hash_to_scalar
    ∷ []

unfoldable pub cha_cha_arms : List SymbolArm
cha_cha_arms =
    symbol_arm Sym.cha_cha Sym.rand_address CoreFunction.cha_cha_rand_address
    ∷ symbol_arm Sym.cha_cha Sym.rand_bool CoreFunction.cha_cha_rand_bool
    ∷ symbol_arm Sym.cha_cha Sym.rand_field CoreFunction.cha_cha_rand_field
    ∷ symbol_arm Sym.cha_cha Sym.rand_group CoreFunction.cha_cha_rand_group
    ∷ symbol_arm Sym.cha_cha Sym.rand_i8 CoreFunction.cha_cha_rand_i8
    ∷ symbol_arm Sym.cha_cha Sym.rand_i16 CoreFunction.cha_cha_rand_i16
    ∷ symbol_arm Sym.cha_cha Sym.rand_i32 CoreFunction.cha_cha_rand_i32
    ∷ symbol_arm Sym.cha_cha Sym.rand_i64 CoreFunction.cha_cha_rand_i64
    ∷ symbol_arm Sym.cha_cha Sym.rand_i128 CoreFunction.cha_cha_rand_i128
    ∷ symbol_arm Sym.cha_cha Sym.rand_scalar CoreFunction.cha_cha_rand_scalar
    ∷ symbol_arm Sym.cha_cha Sym.rand_u8 CoreFunction.cha_cha_rand_u8
    ∷ symbol_arm Sym.cha_cha Sym.rand_u16 CoreFunction.cha_cha_rand_u16
    ∷ symbol_arm Sym.cha_cha Sym.rand_u32 CoreFunction.cha_cha_rand_u32
    ∷ symbol_arm Sym.cha_cha Sym.rand_u64 CoreFunction.cha_cha_rand_u64
    ∷ symbol_arm Sym.cha_cha Sym.rand_u128 CoreFunction.cha_cha_rand_u128
    ∷ []

unfoldable pub keccak_arms : List SymbolArm
keccak_arms =
    symbol_arm Sym.keccak256 Sym.hash_to_address CoreFunction.keccak256_hash_to_address
    ∷ symbol_arm Sym.keccak256 Sym.hash_to_field CoreFunction.keccak256_hash_to_field
    ∷ symbol_arm Sym.keccak256 Sym.hash_to_group CoreFunction.keccak256_hash_to_group
    ∷ symbol_arm Sym.keccak256 Sym.hash_to_i8 CoreFunction.keccak256_hash_to_i8
    ∷ symbol_arm Sym.keccak256 Sym.hash_to_i16 CoreFunction.keccak256_hash_to_i16
    ∷ symbol_arm Sym.keccak256 Sym.hash_to_i32 CoreFunction.keccak256_hash_to_i32
    ∷ symbol_arm Sym.keccak256 Sym.hash_to_i64 CoreFunction.keccak256_hash_to_i64
    ∷ symbol_arm Sym.keccak256 Sym.hash_to_i128 CoreFunction.keccak256_hash_to_i128
    ∷ symbol_arm Sym.keccak256 Sym.hash_to_u8 CoreFunction.keccak256_hash_to_u8
    ∷ symbol_arm Sym.keccak256 Sym.hash_to_u16 CoreFunction.keccak256_hash_to_u16
    ∷ symbol_arm Sym.keccak256 Sym.hash_to_u32 CoreFunction.keccak256_hash_to_u32
    ∷ symbol_arm Sym.keccak256 Sym.hash_to_u64 CoreFunction.keccak256_hash_to_u64
    ∷ symbol_arm Sym.keccak256 Sym.hash_to_u128 CoreFunction.keccak256_hash_to_u128
    ∷ symbol_arm Sym.keccak256 Sym.hash_to_scalar CoreFunction.keccak256_hash_to_scalar
    ∷ symbol_arm Sym.keccak384 Sym.hash_to_address CoreFunction.keccak384_hash_to_address
    ∷ symbol_arm Sym.keccak384 Sym.hash_to_field CoreFunction.keccak384_hash_to_field
    ∷ symbol_arm Sym.keccak384 Sym.hash_to_group CoreFunction.keccak384_hash_to_group
    ∷ symbol_arm Sym.keccak384 Sym.hash_to_i8 CoreFunction.keccak384_hash_to_i8
    ∷ symbol_arm Sym.keccak384 Sym.hash_to_i16 CoreFunction.keccak384_hash_to_i16
    ∷ symbol_arm Sym.keccak384 Sym.hash_to_i32 CoreFunction.keccak384_hash_to_i32
    ∷ symbol_arm Sym.keccak384 Sym.hash_to_i64 CoreFunction.keccak384_hash_to_i64
    ∷ symbol_arm Sym.keccak384 Sym.hash_to_i128 CoreFunction.keccak384_hash_to_i128
    ∷ symbol_arm Sym.keccak384 Sym.hash_to_u8 CoreFunction.keccak384_hash_to_u8
    ∷ symbol_arm Sym.keccak384 Sym.hash_to_u16 CoreFunction.keccak384_hash_to_u16
    ∷ symbol_arm Sym.keccak384 Sym.hash_to_u32 CoreFunction.keccak384_hash_to_u32
    ∷ symbol_arm Sym.keccak384 Sym.hash_to_u64 CoreFunction.keccak384_hash_to_u64
    ∷ symbol_arm Sym.keccak384 Sym.hash_to_u128 CoreFunction.keccak384_hash_to_u128
    ∷ symbol_arm Sym.keccak384 Sym.hash_to_scalar CoreFunction.keccak384_hash_to_scalar
    ∷ symbol_arm Sym.keccak512 Sym.hash_to_address CoreFunction.keccak512_hash_to_address
    ∷ symbol_arm Sym.keccak512 Sym.hash_to_field CoreFunction.keccak512_hash_to_field
    ∷ symbol_arm Sym.keccak512 Sym.hash_to_group CoreFunction.keccak512_hash_to_group
    ∷ symbol_arm Sym.keccak512 Sym.hash_to_i8 CoreFunction.keccak512_hash_to_i8
    ∷ symbol_arm Sym.keccak512 Sym.hash_to_i16 CoreFunction.keccak512_hash_to_i16
    ∷ symbol_arm Sym.keccak512 Sym.hash_to_i32 CoreFunction.keccak512_hash_to_i32
    ∷ symbol_arm Sym.keccak512 Sym.hash_to_i64 CoreFunction.keccak512_hash_to_i64
    ∷ symbol_arm Sym.keccak512 Sym.hash_to_i128 CoreFunction.keccak512_hash_to_i128
    ∷ symbol_arm Sym.keccak512 Sym.hash_to_u8 CoreFunction.keccak512_hash_to_u8
    ∷ symbol_arm Sym.keccak512 Sym.hash_to_u16 CoreFunction.keccak512_hash_to_u16
    ∷ symbol_arm Sym.keccak512 Sym.hash_to_u32 CoreFunction.keccak512_hash_to_u32
    ∷ symbol_arm Sym.keccak512 Sym.hash_to_u64 CoreFunction.keccak512_hash_to_u64
    ∷ symbol_arm Sym.keccak512 Sym.hash_to_u128 CoreFunction.keccak512_hash_to_u128
    ∷ symbol_arm Sym.keccak512 Sym.hash_to_scalar CoreFunction.keccak512_hash_to_scalar
    ∷ []

unfoldable pub pedersen_arms : List SymbolArm
pedersen_arms =
    symbol_arm Sym.pedersen64 Sym.commit_to_address CoreFunction.pedersen64_commit_to_address
    ∷ symbol_arm Sym.pedersen64 Sym.commit_to_field CoreFunction.pedersen64_commit_to_field
    ∷ symbol_arm Sym.pedersen64 Sym.commit_to_group CoreFunction.pedersen64_commit_to_group
    ∷ symbol_arm Sym.pedersen64 Sym.hash_to_address CoreFunction.pedersen64_hash_to_address
    ∷ symbol_arm Sym.pedersen64 Sym.hash_to_field CoreFunction.pedersen64_hash_to_field
    ∷ symbol_arm Sym.pedersen64 Sym.hash_to_group CoreFunction.pedersen64_hash_to_group
    ∷ symbol_arm Sym.pedersen64 Sym.hash_to_i8 CoreFunction.pedersen64_hash_to_i8
    ∷ symbol_arm Sym.pedersen64 Sym.hash_to_i16 CoreFunction.pedersen64_hash_to_i16
    ∷ symbol_arm Sym.pedersen64 Sym.hash_to_i32 CoreFunction.pedersen64_hash_to_i32
    ∷ symbol_arm Sym.pedersen64 Sym.hash_to_i64 CoreFunction.pedersen64_hash_to_i64
    ∷ symbol_arm Sym.pedersen64 Sym.hash_to_i128 CoreFunction.pedersen64_hash_to_i128
    ∷ symbol_arm Sym.pedersen64 Sym.hash_to_u8 CoreFunction.pedersen64_hash_to_u8
    ∷ symbol_arm Sym.pedersen64 Sym.hash_to_u16 CoreFunction.pedersen64_hash_to_u16
    ∷ symbol_arm Sym.pedersen64 Sym.hash_to_u32 CoreFunction.pedersen64_hash_to_u32
    ∷ symbol_arm Sym.pedersen64 Sym.hash_to_u64 CoreFunction.pedersen64_hash_to_u64
    ∷ symbol_arm Sym.pedersen64 Sym.hash_to_u128 CoreFunction.pedersen64_hash_to_u128
    ∷ symbol_arm Sym.pedersen64 Sym.hash_to_scalar CoreFunction.pedersen64_hash_to_scalar
    ∷ symbol_arm Sym.pedersen128 Sym.commit_to_address CoreFunction.pedersen128_commit_to_address
    ∷ symbol_arm Sym.pedersen128 Sym.commit_to_field CoreFunction.pedersen128_commit_to_field
    ∷ symbol_arm Sym.pedersen128 Sym.commit_to_group CoreFunction.pedersen128_commit_to_group
    ∷ symbol_arm Sym.pedersen128 Sym.hash_to_address CoreFunction.pedersen128_hash_to_address
    ∷ symbol_arm Sym.pedersen128 Sym.hash_to_field CoreFunction.pedersen128_hash_to_field
    ∷ symbol_arm Sym.pedersen128 Sym.hash_to_group CoreFunction.pedersen128_hash_to_group
    ∷ symbol_arm Sym.pedersen128 Sym.hash_to_i8 CoreFunction.pedersen128_hash_to_i8
    ∷ symbol_arm Sym.pedersen128 Sym.hash_to_i16 CoreFunction.pedersen128_hash_to_i16
    ∷ symbol_arm Sym.pedersen128 Sym.hash_to_i32 CoreFunction.pedersen128_hash_to_i32
    ∷ symbol_arm Sym.pedersen128 Sym.hash_to_i64 CoreFunction.pedersen128_hash_to_i64
    ∷ symbol_arm Sym.pedersen128 Sym.hash_to_i128 CoreFunction.pedersen128_hash_to_i128
    ∷ symbol_arm Sym.pedersen128 Sym.hash_to_u8 CoreFunction.pedersen128_hash_to_u8
    ∷ symbol_arm Sym.pedersen128 Sym.hash_to_u16 CoreFunction.pedersen128_hash_to_u16
    ∷ symbol_arm Sym.pedersen128 Sym.hash_to_u32 CoreFunction.pedersen128_hash_to_u32
    ∷ symbol_arm Sym.pedersen128 Sym.hash_to_u64 CoreFunction.pedersen128_hash_to_u64
    ∷ symbol_arm Sym.pedersen128 Sym.hash_to_u128 CoreFunction.pedersen128_hash_to_u128
    ∷ symbol_arm Sym.pedersen128 Sym.hash_to_scalar CoreFunction.pedersen128_hash_to_scalar
    ∷ []

unfoldable pub poseidon_arms : List SymbolArm
poseidon_arms =
    symbol_arm Sym.poseidon2 Sym.hash_to_address CoreFunction.poseidon2_hash_to_address
    ∷ symbol_arm Sym.poseidon2 Sym.hash_to_field CoreFunction.poseidon2_hash_to_field
    ∷ symbol_arm Sym.poseidon2 Sym.hash_to_group CoreFunction.poseidon2_hash_to_group
    ∷ symbol_arm Sym.poseidon2 Sym.hash_to_i8 CoreFunction.poseidon2_hash_to_i8
    ∷ symbol_arm Sym.poseidon2 Sym.hash_to_i16 CoreFunction.poseidon2_hash_to_i16
    ∷ symbol_arm Sym.poseidon2 Sym.hash_to_i32 CoreFunction.poseidon2_hash_to_i32
    ∷ symbol_arm Sym.poseidon2 Sym.hash_to_i64 CoreFunction.poseidon2_hash_to_i64
    ∷ symbol_arm Sym.poseidon2 Sym.hash_to_i128 CoreFunction.poseidon2_hash_to_i128
    ∷ symbol_arm Sym.poseidon2 Sym.hash_to_u8 CoreFunction.poseidon2_hash_to_u8
    ∷ symbol_arm Sym.poseidon2 Sym.hash_to_u16 CoreFunction.poseidon2_hash_to_u16
    ∷ symbol_arm Sym.poseidon2 Sym.hash_to_u32 CoreFunction.poseidon2_hash_to_u32
    ∷ symbol_arm Sym.poseidon2 Sym.hash_to_u64 CoreFunction.poseidon2_hash_to_u64
    ∷ symbol_arm Sym.poseidon2 Sym.hash_to_u128 CoreFunction.poseidon2_hash_to_u128
    ∷ symbol_arm Sym.poseidon2 Sym.hash_to_scalar CoreFunction.poseidon2_hash_to_scalar
    ∷ symbol_arm Sym.poseidon4 Sym.hash_to_address CoreFunction.poseidon4_hash_to_address
    ∷ symbol_arm Sym.poseidon4 Sym.hash_to_field CoreFunction.poseidon4_hash_to_field
    ∷ symbol_arm Sym.poseidon4 Sym.hash_to_group CoreFunction.poseidon4_hash_to_group
    ∷ symbol_arm Sym.poseidon4 Sym.hash_to_i8 CoreFunction.poseidon4_hash_to_i8
    ∷ symbol_arm Sym.poseidon4 Sym.hash_to_i16 CoreFunction.poseidon4_hash_to_i16
    ∷ symbol_arm Sym.poseidon4 Sym.hash_to_i32 CoreFunction.poseidon4_hash_to_i32
    ∷ symbol_arm Sym.poseidon4 Sym.hash_to_i64 CoreFunction.poseidon4_hash_to_i64
    ∷ symbol_arm Sym.poseidon4 Sym.hash_to_i128 CoreFunction.poseidon4_hash_to_i128
    ∷ symbol_arm Sym.poseidon4 Sym.hash_to_u8 CoreFunction.poseidon4_hash_to_u8
    ∷ symbol_arm Sym.poseidon4 Sym.hash_to_u16 CoreFunction.poseidon4_hash_to_u16
    ∷ symbol_arm Sym.poseidon4 Sym.hash_to_u32 CoreFunction.poseidon4_hash_to_u32
    ∷ symbol_arm Sym.poseidon4 Sym.hash_to_u64 CoreFunction.poseidon4_hash_to_u64
    ∷ symbol_arm Sym.poseidon4 Sym.hash_to_u128 CoreFunction.poseidon4_hash_to_u128
    ∷ symbol_arm Sym.poseidon4 Sym.hash_to_scalar CoreFunction.poseidon4_hash_to_scalar
    ∷ symbol_arm Sym.poseidon8 Sym.hash_to_address CoreFunction.poseidon8_hash_to_address
    ∷ symbol_arm Sym.poseidon8 Sym.hash_to_field CoreFunction.poseidon8_hash_to_field
    ∷ symbol_arm Sym.poseidon8 Sym.hash_to_group CoreFunction.poseidon8_hash_to_group
    ∷ symbol_arm Sym.poseidon8 Sym.hash_to_i8 CoreFunction.poseidon8_hash_to_i8
    ∷ symbol_arm Sym.poseidon8 Sym.hash_to_i16 CoreFunction.poseidon8_hash_to_i16
    ∷ symbol_arm Sym.poseidon8 Sym.hash_to_i32 CoreFunction.poseidon8_hash_to_i32
    ∷ symbol_arm Sym.poseidon8 Sym.hash_to_i64 CoreFunction.poseidon8_hash_to_i64
    ∷ symbol_arm Sym.poseidon8 Sym.hash_to_i128 CoreFunction.poseidon8_hash_to_i128
    ∷ symbol_arm Sym.poseidon8 Sym.hash_to_u8 CoreFunction.poseidon8_hash_to_u8
    ∷ symbol_arm Sym.poseidon8 Sym.hash_to_u16 CoreFunction.poseidon8_hash_to_u16
    ∷ symbol_arm Sym.poseidon8 Sym.hash_to_u32 CoreFunction.poseidon8_hash_to_u32
    ∷ symbol_arm Sym.poseidon8 Sym.hash_to_u64 CoreFunction.poseidon8_hash_to_u64
    ∷ symbol_arm Sym.poseidon8 Sym.hash_to_u128 CoreFunction.poseidon8_hash_to_u128
    ∷ symbol_arm Sym.poseidon8 Sym.hash_to_scalar CoreFunction.poseidon8_hash_to_scalar
    ∷ []

unfoldable pub sha3_arms : List SymbolArm
sha3_arms =
    symbol_arm Sym.sha3_256 Sym.hash_to_address CoreFunction.sha3_256_hash_to_address
    ∷ symbol_arm Sym.sha3_256 Sym.hash_to_field CoreFunction.sha3_256_hash_to_field
    ∷ symbol_arm Sym.sha3_256 Sym.hash_to_group CoreFunction.sha3_256_hash_to_group
    ∷ symbol_arm Sym.sha3_256 Sym.hash_to_i8 CoreFunction.sha3_256_hash_to_i8
    ∷ symbol_arm Sym.sha3_256 Sym.hash_to_i16 CoreFunction.sha3_256_hash_to_i16
    ∷ symbol_arm Sym.sha3_256 Sym.hash_to_i32 CoreFunction.sha3_256_hash_to_i32
    ∷ symbol_arm Sym.sha3_256 Sym.hash_to_i64 CoreFunction.sha3_256_hash_to_i64
    ∷ symbol_arm Sym.sha3_256 Sym.hash_to_i128 CoreFunction.sha3_256_hash_to_i128
    ∷ symbol_arm Sym.sha3_256 Sym.hash_to_u8 CoreFunction.sha3_256_hash_to_u8
    ∷ symbol_arm Sym.sha3_256 Sym.hash_to_u16 CoreFunction.sha3_256_hash_to_u16
    ∷ symbol_arm Sym.sha3_256 Sym.hash_to_u32 CoreFunction.sha3_256_hash_to_u32
    ∷ symbol_arm Sym.sha3_256 Sym.hash_to_u64 CoreFunction.sha3_256_hash_to_u64
    ∷ symbol_arm Sym.sha3_256 Sym.hash_to_u128 CoreFunction.sha3_256_hash_to_u128
    ∷ symbol_arm Sym.sha3_256 Sym.hash_to_scalar CoreFunction.sha3_256_hash_to_scalar
    ∷ symbol_arm Sym.sha3_384 Sym.hash_to_address CoreFunction.sha3_384_hash_to_address
    ∷ symbol_arm Sym.sha3_384 Sym.hash_to_field CoreFunction.sha3_384_hash_to_field
    ∷ symbol_arm Sym.sha3_384 Sym.hash_to_group CoreFunction.sha3_384_hash_to_group
    ∷ symbol_arm Sym.sha3_384 Sym.hash_to_i8 CoreFunction.sha3_384_hash_to_i8
    ∷ symbol_arm Sym.sha3_384 Sym.hash_to_i16 CoreFunction.sha3_384_hash_to_i16
    ∷ symbol_arm Sym.sha3_384 Sym.hash_to_i32 CoreFunction.sha3_384_hash_to_i32
    ∷ symbol_arm Sym.sha3_384 Sym.hash_to_i64 CoreFunction.sha3_384_hash_to_i64
    ∷ symbol_arm Sym.sha3_384 Sym.hash_to_i128 CoreFunction.sha3_384_hash_to_i128
    ∷ symbol_arm Sym.sha3_384 Sym.hash_to_u8 CoreFunction.sha3_384_hash_to_u8
    ∷ symbol_arm Sym.sha3_384 Sym.hash_to_u16 CoreFunction.sha3_384_hash_to_u16
    ∷ symbol_arm Sym.sha3_384 Sym.hash_to_u32 CoreFunction.sha3_384_hash_to_u32
    ∷ symbol_arm Sym.sha3_384 Sym.hash_to_u64 CoreFunction.sha3_384_hash_to_u64
    ∷ symbol_arm Sym.sha3_384 Sym.hash_to_u128 CoreFunction.sha3_384_hash_to_u128
    ∷ symbol_arm Sym.sha3_384 Sym.hash_to_scalar CoreFunction.sha3_384_hash_to_scalar
    ∷ symbol_arm Sym.sha3_512 Sym.hash_to_address CoreFunction.sha3_512_hash_to_address
    ∷ symbol_arm Sym.sha3_512 Sym.hash_to_field CoreFunction.sha3_512_hash_to_field
    ∷ symbol_arm Sym.sha3_512 Sym.hash_to_group CoreFunction.sha3_512_hash_to_group
    ∷ symbol_arm Sym.sha3_512 Sym.hash_to_i8 CoreFunction.sha3_512_hash_to_i8
    ∷ symbol_arm Sym.sha3_512 Sym.hash_to_i16 CoreFunction.sha3_512_hash_to_i16
    ∷ symbol_arm Sym.sha3_512 Sym.hash_to_i32 CoreFunction.sha3_512_hash_to_i32
    ∷ symbol_arm Sym.sha3_512 Sym.hash_to_i64 CoreFunction.sha3_512_hash_to_i64
    ∷ symbol_arm Sym.sha3_512 Sym.hash_to_i128 CoreFunction.sha3_512_hash_to_i128
    ∷ symbol_arm Sym.sha3_512 Sym.hash_to_u8 CoreFunction.sha3_512_hash_to_u8
    ∷ symbol_arm Sym.sha3_512 Sym.hash_to_u16 CoreFunction.sha3_512_hash_to_u16
    ∷ symbol_arm Sym.sha3_512 Sym.hash_to_u32 CoreFunction.sha3_512_hash_to_u32
    ∷ symbol_arm Sym.sha3_512 Sym.hash_to_u64 CoreFunction.sha3_512_hash_to_u64
    ∷ symbol_arm Sym.sha3_512 Sym.hash_to_u128 CoreFunction.sha3_512_hash_to_u128
    ∷ symbol_arm Sym.sha3_512 Sym.hash_to_scalar CoreFunction.sha3_512_hash_to_scalar
    ∷ []

unfoldable pub other_arms : List SymbolArm
other_arms =
    symbol_arm Sym.mapping Sym.get CoreFunction.mapping_get
    ∷ symbol_arm Sym.mapping Sym.get_or_use CoreFunction.mapping_get_or_use
    ∷ symbol_arm Sym.mapping Sym.set CoreFunction.mapping_set
    ∷ symbol_arm Sym.mapping Sym.remove CoreFunction.mapping_remove
    ∷ symbol_arm Sym.mapping Sym.contains CoreFunction.mapping_contains
    ∷ symbol_arm Sym.group Sym.to_x_coordinate CoreFunction.group_to_x_coordinate
    ∷ symbol_arm Sym.group Sym.to_y_coordinate CoreFunction.group_to_y_coordinate
    ∷ symbol_arm Sym.signature Sym.verify CoreFunction.signature_verify
    ∷ []

unfoldable pub find_symbols : List SymbolArm → ℕ → ℕ → Option CoreFunction
find_symbols [] module_ function = none
find_symbols (symbol_arm m f c ∷ symbol_arms) module_ function =
    if m == module_ && f == function then some c else find_symbols symbol_arms module_ function

unfoldable pub symbol_arms : List SymbolArm
unfolding bhp_arms cha_cha_arms keccak_arms pedersen_arms poseidon_arms sha3_arms other_arms
symbol_arms =
    bhp_arms ++ cha_cha_arms ++ keccak_arms ++ pedersen_arms ++ poseidon_arms ++ sha3_arms
    ++ other_arms

unfoldable pub from_symbols : ℕ → ℕ → Option CoreFunction
unfolding find_symbols symbol_arms
from_symbols module_ function = find_symbols symbol_arms module_ function
