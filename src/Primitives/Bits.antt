-- ===== src/Primitives/Bits.antt =====
-- The bit vectors in which Yosys writes integers, for src/rtl_buddy_cdc/primitives.py.
use rtl_buddy_cdc.Base.{
  ℕ, zero, suc, ◌+◌, ◌<◌, Char, Bool, true, false, Option, some, List, [], ◌∷◌, ◌≡◌, refl, ap, ◌∙◌,
  arith, nat_eq, all, length,
}
use rtl_buddy_cdc.Sdc.Tokenizer.{Text, join}
use rtl_buddy_cdc.Sdc.Names.{is_space}
use rtl_buddy_cdc.Sdc.Names.Grammar.{chars-join}
use rtl_buddy_cdc.Text.{lstrip, rstrip, strip}
use rtl_buddy_cdc.Primitives.{is_bit, read_bits, is_bit_vector, parse_text_int, parse_param_int}

-- A bit vector, its most significant bit first.
abbrev bit_char : Bool → Char
bit_char true = "1"
bit_char false = "0"

unfoldable pub vector_text : List Bool → Text
vector_text [] = []
vector_text (b ∷ bs) = bit_char b ∷ vector_text bs

unfoldable pub power_of_two : ℕ → ℕ
power_of_two zero = 1
power_of_two (suc n) = power_of_two n + power_of_two n

-- The number that a bit vector stands for.
unfoldable pub vector_value : List Bool → ℕ
vector_value [] = 0
vector_value (true ∷ bs) = power_of_two (length bs) + vector_value bs
vector_value (false ∷ bs) = vector_value bs

-- `n` times `2 ^ w`.
scaled : ℕ → ℕ → ℕ
scaled n zero = n
scaled n (suc w) = scaled (n + n) w

scaled-add : (n m w : ℕ) → scaled (n + m) w ≡ scaled n w + scaled m w
unfolding scaled
scaled-add n m zero = refl
scaled-add n m (suc w) = ap (λ k. scaled k w) (omega arith) ∙ scaled-add (n + n) (m + m) w

scaled_zero : (w : ℕ) → scaled 0 w ≡ 0
unfolding scaled
scaled_zero zero = refl
scaled_zero (suc w) = scaled_zero w

scaled_one : (w : ℕ) → scaled 1 w ≡ power_of_two w
unfolding scaled power_of_two
scaled_one zero = refl
scaled_one (suc w) = scaled-add 1 1 w ∙ omega (arith, scaled_one w)

read_bits-vector_text :
    (bs : List Bool) (n : ℕ) → read_bits n (vector_text bs) ≡ scaled n (length bs) + vector_value bs
unfolding read_bits vector_text vector_value scaled
read_bits-vector_text [] n = omega arith
read_bits-vector_text (true ∷ bs) n =
    read_bits-vector_text bs (n + n + 1)
    ∙ omega (arith, scaled-add (n + n) 1 (length bs), scaled_one (length bs))
read_bits-vector_text (false ∷ bs) n =
    read_bits-vector_text bs (n + n + 0)
    ∙ omega (arith, scaled-add (n + n) 0 (length bs), scaled_zero (length bs))

vector_text-all : (bs : List Bool) → all (vector_text bs) is_bit ≡ true
unfolding vector_text all is_bit
vector_text-all [] = refl
vector_text-all (true ∷ bs) = vector_text-all bs
vector_text-all (false ∷ bs) = vector_text-all bs

rstrip-vector_text : (bs : List Bool) → rstrip (vector_text bs) ≡ vector_text bs
unfolding rstrip vector_text is_space
rstrip-vector_text [] = refl
rstrip-vector_text (true ∷ bs) = rw (rstrip-vector_text bs) refl
rstrip-vector_text (false ∷ bs) = rw (rstrip-vector_text bs) refl

lstrip-vector_text : (bs : List Bool) → lstrip (vector_text bs) ≡ vector_text bs
unfolding lstrip vector_text is_space
lstrip-vector_text [] = refl
lstrip-vector_text (true ∷ bs) = refl
lstrip-vector_text (false ∷ bs) = refl

strip-vector_text : (bs : List Bool) → strip (vector_text bs) ≡ vector_text bs
unfolding strip
strip-vector_text bs = rw lstrip-vector_text (rstrip-vector_text bs)

is_bit_vector-vector_text :
    (a b : Bool) (bs : List Bool) → is_bit_vector (vector_text (a ∷ b ∷ bs)) ≡ true
unfolding is_bit_vector vector_text
is_bit_vector-vector_text a b bs = vector_text-all (a ∷ b ∷ bs)

vector_value-bound : (bs : List Bool) → vector_value bs < power_of_two (length bs)
unfolding vector_value power_of_two
vector_value-bound [] = omega arith
vector_value-bound (true ∷ bs) = omega (arith, vector_value-bound bs)
vector_value-bound (false ∷ bs) = omega (arith, vector_value-bound bs)

module _ {Int : Type 0} (of_nat : ℕ → Int) (decimal : Text → Option Int) where
  parse_vector :
      (a b : Bool) (bs : List Bool)
      → parse_text_int of_nat decimal (vector_text (a ∷ b ∷ bs))
        ≡ some (of_nat (vector_value (a ∷ b ∷ bs)))
  unfolding parse_text_int vector_text
  parse_vector a b bs =
      let value =
        read_bits-vector_text (a ∷ b ∷ bs) 0 ∙ omega (arith, scaled_zero (length (a ∷ b ∷ bs))) in
      rw (is_bit_vector-vector_text a b bs) (ap (λ n. some (of_nat n)) value)

  -- A parameter of two bits or more is read as the number that its bits stand for, the most
  -- significant first, which is less than two to the power of their number.
  pub parse_param_int-vector_text :
      (a b : Bool) (bs : List Bool)
      → (parse_param_int of_nat decimal (join (vector_text (a ∷ b ∷ bs)))
          ≡ some (of_nat (vector_value (a ∷ b ∷ bs))))
        × (vector_value (a ∷ b ∷ bs) < power_of_two (length (a ∷ b ∷ bs)))
  unfolding parse_param_int parse_text_int is_bit_vector
  parse_param_int-vector_text a b bs = (
    rw (chars-join (vector_text (a ∷ b ∷ bs)), strip-vector_text (a ∷ b ∷ bs))
        (parse_vector a b bs),
    vector_value-bound (a ∷ b ∷ bs),
  )
