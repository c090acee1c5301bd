-- ===== src/Parser/Moves.antt =====
-- compiler/parser/src/parser: how far a method reads. `size` counts the tokens that are left, and
-- `Parses` says of a method that it answers and how many tokens it takes.
use aleotiktacto.Prelude.{
  ℕ, suc, ◌+◌, ◌≤◌, ◌<◌, ◌≡◌, refl, sym, subst, Bool, true, false, none, length, if◌then◌else◌,
  arith,
}
use aleotiktacto.Interner
use aleotiktacto.Parser.{
  ParserContext, ParserError, Panic, Outcome, past_eof, unreachable, not_usize, unknown_symbol, M,
  pure, and_then, ◌>>=◌, fail, is_eof,
}
use aleotiktacto.Parser.Numbers.{parse_usize}
use aleotiktacto.Parser.Outcome.{ok, err, panic, out_of_fuel}

abbrev pub size : ParserContext → ℕ
size c = if is_eof c.token.token then 0 else suc (length c.tokens)

-- The parser has not read the end, and `disallow_struct_construction` is `d`.
pub record Ready (d : Bool) (c : ParserContext) : Type 0 where
  pub not_past : is_eof c.prev_token.token ≡ false
  pub flag : c.disallow ≡ d

-- The panics that a text or a symbol brings about: a number that is no `usize`, and a symbol that
-- the interner does not hold.
abbrev pub IsDue : Panic → Type 0
IsDue (not_usize value) = parse_usize value ≡ none
IsDue (unknown_symbol set symbol) = Interner.get set symbol ≡ none
IsDue past_eof = ⊥
IsDue unreachable = ⊥

-- What a method does from the context `c`: it takes `k` tokens or more, with the flag as it was, or
-- returns an error, or panics for one of these reasons.
pub data Moves {A : Type 0} (d : Bool) (k : ℕ) (c : ParserContext) : Outcome A → Type 0 where
  takes : {a : A} {c' : ParserContext} → Ready d c' → size c' + k ≤ size c → Moves d k c (ok a c')
  fails : {e : ParserError} {c' : ParserContext} → Moves d k c (err e c')
  stops : {p : Panic} → IsDue p → Moves d k c (panic p)

pub record Parses {A : Type 0} (d : Bool) (n k : ℕ) (m : M A) : Type 0 where
  pub apply : (c : ParserContext) → Ready d c → size c < n → Moves d k c (m c)

module _ {d : Bool} where
  pub later :
      {B : Type 0} {j : ℕ} (k l : ℕ) {c c' : ParserContext} {r : Outcome B}
      → Moves d l c' r
      → size c' + k ≤ size c
      → j ≤ k + l
      → Moves d j c r
  later k l (takes ready' le') le h = takes ready' (omega arith)
  later k l fails le h = fails
  later k l (stops p) le h = stops p

  pub Moves-and_then :
      {A B : Type 0} {j k l : ℕ} {c : ParserContext} {r : Outcome A} (f : A → M B)
      → Moves d k c r
      → ((a : A) (c' : ParserContext) → Ready d c' → size c' + k ≤ size c → Moves d l c' (f a c'))
      → j ≤ k + l
      → Moves d j c (and_then r f)
  unfolding and_then
  Moves-and_then {k} {l} f (takes {a} {c'} ready le) g h = later k l (g a c' ready le) le h
  Moves-and_then f fails g h = fails
  Moves-and_then f (stops p) g h = stops p

  pub Parses-pure : {A : Type 0} {n : ℕ} (a : A) → Parses d n 0 (pure a)
  unfolding pure
  Parses-pure a = record { apply = λ c ready h. takes ready (omega arith) }

  pub Parses-fail : {A : Type 0} {n k : ℕ} (e : ParserError) → Parses d n k (fail {A = A} e)
  unfolding fail
  Parses-fail e = record { apply = λ c ready h. fails }

  -- One method behind another, where the first takes `k` tokens.
  pub Parses-bind :
      {A B : Type 0} {n n' j k l : ℕ} {m : M A} {f : A → M B}
      → Parses d n k m
      → ((a : A) → Parses d n' l (f a))
      → n ≤ n' + k
      → j ≤ k + l
      → Parses d n j (m >>= f)
  unfolding ◌>>=◌
  Parses-bind {f} h g le le' = record {
    apply = λ c ready lt.
        Moves-and_then f (h.apply c ready lt)
          (λ a c' ready' moved. (g a).apply c' ready' (omega arith)) le';
  }

  pub Parses-weaken :
      {A : Type 0} {n n' k k' : ℕ} {m : M A} → Parses d n k m → n' ≤ n → k' ≤ k → Parses d n' k' m
  Parses-weaken h le le' = record { apply = λ c ready lt. less (h.apply c ready (omega arith)) le' }
    where
      less :
          {A : Type 0} {k k' : ℕ} {c : ParserContext} {r : Outcome A}
          → Moves d k c r
          → k' ≤ k
          → Moves d k' c r
      less (takes ready' moved) le' = takes ready' (omega arith)
      less fails le' = fails
      less (stops p) le' = stops p

  module _ {A B : Type 0} {n : ℕ} {m : M A} {f : A → M B} where
    -- Behind a method that takes nothing.
    pub first : {k : ℕ} → Parses d n 0 m → ((a : A) → Parses d n k (f a)) → Parses d n k (m >>= f)
    first h g = Parses-bind h g (omega arith) (omega arith)

    -- Behind a method that takes a token.
    pub then_any : Parses d n 1 m → ((a : A) → Parses d n 0 (f a)) → Parses d n 1 (m >>= f)
    then_any h g = Parses-bind h g (omega arith) (omega arith)

    -- The same, where less is left for the second.
    pub then_less :
        Parses d (suc n) 1 m → ((a : A) → Parses d n 0 (f a)) → Parses d (suc n) 1 (m >>= f)
    then_less h g = Parses-bind h g (omega arith) (omega arith)

  pub Parses-drop : {A : Type 0} {n : ℕ} {m : M A} → Parses d n 1 m → Parses d n 0 m
  Parses-drop h = Parses-weaken h (omega arith) (omega arith)

  pub Parses-less : {A : Type 0} {n k : ℕ} {m : M A} → Parses d (suc n) k m → Parses d n k m
  Parses-less h = Parses-weaken h (omega arith) (omega arith)

  pub Parses-if :
      {A : Type 0} {n k : ℕ} {m m' : M A} (b : Bool)
      → Parses d n k m
      → Parses d n k m'
      → Parses d n k (if b then m else m')
  Parses-if true h h' = h
  Parses-if false h h' = h'

  -- A branch, where each side knows of the test.
  pub Moves-if :
      {A : Type 0} {k : ℕ} {c : ParserContext} {r r' : Outcome A} (b : Bool)
      → (b ≡ true → Moves d k c r)
      → (b ≡ false → Moves d k c r')
      → Moves d k c (if b then r else r')
  Moves-if true h h' = h refl
  Moves-if false h h' = h' refl

  pub Parses-assoc :
      {A B C : Type 0} {n k : ℕ} (m : M A) (f : A → M B) (g : B → M C)
      → Parses d n k (m >>= λ a. (f a >>= g))
      → Parses d n k ((m >>= f) >>= g)
  unfolding ◌>>=◌ and_then
  Parses-assoc m f g h = record {
    apply = λ c ready lt. subst (Moves d _ c) (sym (assoc (m c) f g)) (h.apply c ready lt);
  }
    where
      assoc :
          {A B C : Type 0} (r : Outcome A) (f : A → M B) (g : B → M C)
          → and_then (and_then r f) g ≡ and_then r (λ a. f a >>= g)
      assoc (ok a c) f g = refl
      assoc (err e c) f g = refl
      assoc (panic p) f g = refl
      assoc out_of_fuel f g = refl
