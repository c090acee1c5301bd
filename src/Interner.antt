-- ===== src/Interner.antt =====
-- The interner of compiler/span/src/symbol.rs: the set of the strings seen so far, in the order in
-- which they came. A string is the list of its code points, and a symbol is the index under which
-- `as_u32` gives it back.
pub mod Laws
pub mod Tests
use aleotiktacto.Prelude.{
  ℕ, suc, ◌-◌, ◌%◌, ◌^◌, Option, none, some, List, [], ◌∷◌, ◌++◌, length, get_elem?, ltb,
  if◌then◌else◌, codes, equal,
}

-- `Symbol::new` and `as_u32`: one is added without overflow, and taken away again.
unfoldable pub symbol : ℕ → ℕ
symbol index = if ltb index (2 ^ 32 - 1) then index else 2 ^ 32 - 2

-- `PRE_DEFINED`
abbrev pub pre_defined : List (List ℕ)
pre_defined =
    codes "abs"
    ∷ codes "abs_wrapped"
    ∷ codes "double"
    ∷ codes "inv"
    ∷ codes "neg"
    ∷ codes "not"
    ∷ codes "square"
    ∷ codes "square_root"
    ∷ codes "add"
    ∷ codes "add_wrapped"
    ∷ codes "and"
    ∷ codes "div"
    ∷ codes "div_wrapped"
    ∷ codes "eq"
    ∷ codes "gte"
    ∷ codes "gt"
    ∷ codes "lte"
    ∷ codes "lt"
    ∷ codes "mod"
    ∷ codes "mul"
    ∷ codes "mul_wrapped"
    ∷ codes "nand"
    ∷ codes "neq"
    ∷ codes "nor"
    ∷ codes "or"
    ∷ codes "pow"
    ∷ codes "pow_wrapped"
    ∷ codes "rem"
    ∷ codes "rem_wrapped"
    ∷ codes "shl"
    ∷ codes "shl_wrapped"
    ∷ codes "shr"
    ∷ codes "shr_wrapped"
    ∷ codes "sub"
    ∷ codes "sub_wrapped"
    ∷ codes "xor"
    ∷ codes "GEN"
    ∷ codes "BHP256"
    ∷ codes "BHP512"
    ∷ codes "BHP768"
    ∷ codes "BHP1024"
    ∷ codes "ChaCha"
    ∷ codes "commit_to_address"
    ∷ codes "commit_to_field"
    ∷ codes "commit_to_group"
    ∷ codes "contains"
    ∷ codes "get"
    ∷ codes "get_or_use"
    ∷ codes "hash_to_address"
    ∷ codes "hash_to_field"
    ∷ codes "hash_to_group"
    ∷ codes "hash_to_i8"
    ∷ codes "hash_to_i16"
    ∷ codes "hash_to_i32"
    ∷ codes "hash_to_i64"
    ∷ codes "hash_to_i128"
    ∷ codes "hash_to_u8"
    ∷ codes "hash_to_u16"
    ∷ codes "hash_to_u32"
    ∷ codes "hash_to_u64"
    ∷ codes "hash_to_u128"
    ∷ codes "hash_to_scalar"
    ∷ codes "Keccak256"
    ∷ codes "Keccak384"
    ∷ codes "Keccak512"
    ∷ codes "Mapping"
    ∷ codes "Pedersen64"
    ∷ codes "Pedersen128"
    ∷ codes "Poseidon2"
    ∷ codes "Poseidon4"
    ∷ codes "Poseidon8"
    ∷ codes "rand_address"
    ∷ codes "rand_bool"
    ∷ codes "rand_field"
    ∷ codes "rand_group"
    ∷ codes "rand_i8"
    ∷ codes "rand_i16"
    ∷ codes "rand_i32"
    ∷ codes "rand_i64"
    ∷ codes "rand_i128"
    ∷ codes "rand_scalar"
    ∷ codes "rand_u8"
    ∷ codes "rand_u16"
    ∷ codes "rand_u32"
    ∷ codes "rand_u64"
    ∷ codes "rand_u128"
    ∷ codes "remove"
    ∷ codes "set"
    ∷ codes "SHA3_256"
    ∷ codes "SHA3_384"
    ∷ codes "SHA3_512"
    ∷ codes "to_x_coordinate"
    ∷ codes "to_y_coordinate"
    ∷ codes "verify"
    ∷ codes "address"
    ∷ codes "bool"
    ∷ codes "field"
    ∷ codes "group"
    ∷ codes "i8"
    ∷ codes "i16"
    ∷ codes "i32"
    ∷ codes "i64"
    ∷ codes "i128"
    ∷ codes "record"
    ∷ codes "scalar"
    ∷ codes "signature"
    ∷ codes "string"
    ∷ codes "struct"
    ∷ codes "u8"
    ∷ codes "u16"
    ∷ codes "u32"
    ∷ codes "u64"
    ∷ codes "u128"
    ∷ codes "false"
    ∷ codes "true"
    ∷ codes "as"
    ∷ codes "assert"
    ∷ codes "assert_eq"
    ∷ codes "assert_neq"
    ∷ codes "caller"
    ∷ codes "console"
    ∷ codes "const"
    ∷ codes "constant"
    ∷ codes "decrement"
    ∷ codes "else"
    ∷ codes "finalize"
    ∷ codes "for"
    ∷ codes "function"
    ∷ codes "if"
    ∷ codes "in"
    ∷ codes "import"
    ∷ codes "increment"
    ∷ codes "inline"
    ∷ codes "input"
    ∷ codes "let"
    ∷ codes "leo"
    ∷ codes "main"
    ∷ codes "mapping"
    ∷ codes "mut"
    ∷ codes "return"
    ∷ codes "self"
    ∷ codes "Self"
    ∷ codes "signer"
    ∷ codes "*"
    ∷ codes "then"
    ∷ codes "transition"
    ∷ codes "type"
    ∷ codes "aleo"
    ∷ codes "public"
    ∷ codes "private"
    ∷ codes "owner"
    ∷ codes "_nonce"
    ∷ codes "program"
    ∷ codes "block"
    ∷ codes "height"
    ∷ []

-- `set.get_index_of(string)`
unfoldable pub get_index_of : List (List ℕ) → List ℕ → Option ℕ
get_index_of [] string = none
get_index_of (s ∷ set) string =
    if equal s string
    then some 0
    else elim (get_index_of set string) [ none ↦ none | some i ↦ some (suc i) ]

unfoldable pub intern_at : Option ℕ → List (List ℕ) → List ℕ → ℕ × List (List ℕ)
unfolding symbol
intern_at (some sym) set string = (symbol (sym % 2 ^ 32), set)
intern_at none set string = (symbol (length set % 2 ^ 32), set ++ string ∷ [])

-- `Interner::intern`: the symbol, and the set behind it.
unfoldable pub intern : List (List ℕ) → List ℕ → ℕ × List (List ℕ)
unfolding get_index_of intern_at
intern set string = intern_at (get_index_of set string) set string

-- `set.get_index(symbol.as_u32())`; `none` is the panic of its `unwrap`.
abbrev pub get : List (List ℕ) → ℕ → Option (List ℕ)
get set symbol = get_elem? set symbol

unfoldable pub insert_all : List (List ℕ) → List (List ℕ) → List (List ℕ)
unfolding intern
insert_all set [] = set
insert_all set (s ∷ init) = insert_all (intern set s).1 init

-- `Interner::prefill`
unfoldable pub prefill : List (List ℕ) → List (List ℕ)
unfolding insert_all
prefill init = insert_all [] init
