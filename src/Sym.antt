-- ===== src/Sym.antt =====
-- The symbols of compiler/span/src/symbol.rs that operators, core functions and access expressions name: their
-- indices in the list of predefined symbols.
use aleotiktacto.Prelude.{ℕ}

abbrev pub gen : ℕ
gen = 36

abbrev pub bhp256 : ℕ
bhp256 = 37

abbrev pub bhp512 : ℕ
bhp512 = 38

abbrev pub bhp768 : ℕ
bhp768 = 39

abbrev pub bhp1024 : ℕ
bhp1024 = 40

abbrev pub cha_cha : ℕ
cha_cha = 41

abbrev pub commit_to_address : ℕ
commit_to_address = 42

abbrev pub commit_to_field : ℕ
commit_to_field = 43

abbrev pub commit_to_group : ℕ
commit_to_group = 44

abbrev pub contains : ℕ
contains = 45

abbrev pub get : ℕ
get = 46

abbrev pub get_or_use : ℕ
get_or_use = 47

abbrev pub hash_to_address : ℕ
hash_to_address = 48

abbrev pub hash_to_field : ℕ
hash_to_field = 49

abbrev pub hash_to_group : ℕ
hash_to_group = 50

abbrev pub hash_to_i8 : ℕ
hash_to_i8 = 51

abbrev pub hash_to_i16 : ℕ
hash_to_i16 = 52

abbrev pub hash_to_i32 : ℕ
hash_to_i32 = 53

abbrev pub hash_to_i64 : ℕ
hash_to_i64 = 54

abbrev pub hash_to_i128 : ℕ
hash_to_i128 = 55

abbrev pub hash_to_u8 : ℕ
hash_to_u8 = 56

abbrev pub hash_to_u16 : ℕ
hash_to_u16 = 57

abbrev pub hash_to_u32 : ℕ
hash_to_u32 = 58

abbrev pub hash_to_u64 : ℕ
hash_to_u64 = 59

abbrev pub hash_to_u128 : ℕ
hash_to_u128 = 60

abbrev pub hash_to_scalar : ℕ
hash_to_scalar = 61

abbrev pub keccak256 : ℕ
keccak256 = 62

abbrev pub keccak384 : ℕ
keccak384 = 63

abbrev pub keccak512 : ℕ
keccak512 = 64

abbrev pub mapping : ℕ
mapping = 65

abbrev pub pedersen64 : ℕ
pedersen64 = 66

abbrev pub pedersen128 : ℕ
pedersen128 = 67

abbrev pub poseidon2 : ℕ
poseidon2 = 68

abbrev pub poseidon4 : ℕ
poseidon4 = 69

abbrev pub poseidon8 : ℕ
poseidon8 = 70

abbrev pub rand_address : ℕ
rand_address = 71

abbrev pub rand_bool : ℕ
rand_bool = 72

abbrev pub rand_field : ℕ
rand_field = 73

abbrev pub rand_group : ℕ
rand_group = 74

abbrev pub rand_i8 : ℕ
rand_i8 = 75

abbrev pub rand_i16 : ℕ
rand_i16 = 76

abbrev pub rand_i32 : ℕ
rand_i32 = 77

abbrev pub rand_i64 : ℕ
rand_i64 = 78

abbrev pub rand_i128 : ℕ
rand_i128 = 79

abbrev pub rand_scalar : ℕ
rand_scalar = 80

abbrev pub rand_u8 : ℕ
rand_u8 = 81

abbrev pub rand_u16 : ℕ
rand_u16 = 82

abbrev pub rand_u32 : ℕ
rand_u32 = 83

abbrev pub rand_u64 : ℕ
rand_u64 = 84

abbrev pub rand_u128 : ℕ
rand_u128 = 85

abbrev pub remove : ℕ
remove = 86

abbrev pub set : ℕ
set = 87

abbrev pub sha3_256 : ℕ
sha3_256 = 88

abbrev pub sha3_384 : ℕ
sha3_384 = 89

abbrev pub sha3_512 : ℕ
sha3_512 = 90

abbrev pub to_x_coordinate : ℕ
to_x_coordinate = 91

abbrev pub to_y_coordinate : ℕ
to_y_coordinate = 92

abbrev pub verify : ℕ
verify = 93

abbrev pub group : ℕ
group = 97

abbrev pub signature : ℕ
signature = 105

abbrev pub caller : ℕ
caller = 119

abbrev pub self_lower : ℕ
self_lower = 140

abbrev pub signer : ℕ
signer = 142

abbrev pub block : ℕ
block = 153

abbrev pub height : ℕ
height = 154

abbrev pub abs : ℕ
abs = 0

abbrev pub abs_wrapped : ℕ
abs_wrapped = 1

abbrev pub double : ℕ
double = 2

abbrev pub inv : ℕ
inv = 3

abbrev pub neg : ℕ
neg = 4

abbrev pub not : ℕ
not = 5

abbrev pub square : ℕ
square = 6

abbrev pub square_root : ℕ
square_root = 7

abbrev pub add : ℕ
add = 8

abbrev pub add_wrapped : ℕ
add_wrapped = 9

abbrev pub and : ℕ
and = 10

abbrev pub div : ℕ
div = 11

abbrev pub div_wrapped : ℕ
div_wrapped = 12

abbrev pub eq : ℕ
eq = 13

abbrev pub gte : ℕ
gte = 14

abbrev pub gt : ℕ
gt = 15

abbrev pub lte : ℕ
lte = 16

abbrev pub lt : ℕ
lt = 17

abbrev pub mod_ : ℕ
mod_ = 18

abbrev pub mul : ℕ
mul = 19

abbrev pub mul_wrapped : ℕ
mul_wrapped = 20

abbrev pub nand : ℕ
nand = 21

abbrev pub neq : ℕ
neq = 22

abbrev pub nor : ℕ
nor = 23

abbrev pub or : ℕ
or = 24

abbrev pub pow : ℕ
pow = 25

abbrev pub pow_wrapped : ℕ
pow_wrapped = 26

abbrev pub rem : ℕ
rem = 27

abbrev pub rem_wrapped : ℕ
rem_wrapped = 28

abbrev pub shl : ℕ
shl = 29

abbrev pub shl_wrapped : ℕ
shl_wrapped = 30

abbrev pub shr : ℕ
shr = 31

abbrev pub shr_wrapped : ℕ
shr_wrapped = 32

abbrev pub sub : ℕ
sub = 33

abbrev pub sub_wrapped : ℕ
sub_wrapped = 34

abbrev pub xor : ℕ
xor = 35

abbrev pub decrement : ℕ
decrement = 123

abbrev pub increment : ℕ
increment = 131

abbrev pub aleo : ℕ
aleo = 147

abbrev pub program : ℕ
program = 152
