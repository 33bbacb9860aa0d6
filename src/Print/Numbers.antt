-- ===== src/Print/Numbers.antt =====
-- The printed addresses can be read back.
use native.Mathlib.Nat.{pow-suc}
use nw_proj.Base.{
  ℕ, zero, suc, ◌+◌, ◌-◌, ◌*◌, ◌/◌, ◌%◌, ◌^◌, ◌<◌, ◌≡◌, refl, ◌∙◌, arith, true, false, inl, inr,
  Bool-cases, ltb, ◌==◌, ◌||◌, List, [], ◌∷◌, ◌++◌, ap, append_assoc, if◌then◌else◌,
}
use nw_proj.Memory.{Bytes}
use nw_proj.Memory.Laws.{IsBytes}
use nw_proj.Text.{Text}
use nw_proj.Print.{
  decimal_digits, decimal, hex_digit, hex_byte, addr_eth_from, print_addr_eth, print_addr_ip_int,
}

-- The numbers of a text in which each is followed by a dot or the end of the line; `n` is begun.
unfoldable pub read_numbers : ℕ → Text → List ℕ
read_numbers n [] = []
read_numbers n (c ∷ cs) =
    let ends = (c == b'.') || (c == 10) in
    let rest = read_numbers (if ends then 0 else 10 * n + (c - b'0')) cs in
    if ends then n ∷ rest else rest

-- The address of four bytes, the first the highest.
unfoldable pub address_of : List ℕ → ℕ
address_of (a ∷ b ∷ c ∷ d ∷ []) = 2 ^ 24 * a + 2 ^ 16 * b + 2 ^ 8 * c + d
address_of ns = 0

read_numbers-digit :
    (n d : ℕ) (rest : Text)
    → d < 10
    → read_numbers n ((b'0' + d) ∷ rest) ≡ read_numbers (10 * n + d) rest
unfolding read_numbers
read_numbers-digit n d rest h =
    let no_dot : (b'0' + d == b'.') ≡ false = ground (arith, h) in
    let no_end : (b'0' + d == 10) ≡ false = ground (arith, h) in
    rw (no_dot, read_numbers)
      (rw (no_end, read_numbers) (ap (λ (x : ℕ). read_numbers x rest) (omega arith)))

read_numbers-decimal_digits :
    (k n : ℕ) (rest : Text)
    → n < 10 ^ suc k
    → read_numbers 0 (decimal_digits k n ++ rest) ≡ read_numbers n rest
unfolding decimal_digits
read_numbers-decimal_digits zero n rest h =
    read_numbers-digit 0 (n % 10) rest (omega arith)
    ∙ ap (λ (x : ℕ). read_numbers x rest) (omega (arith, h))
read_numbers-decimal_digits (suc k) n rest h = elim (Bool-cases (ltb n 10)) [
  | inl one ↦
      rw (one, decimal_digits)
        (read_numbers-digit 0 n rest (ground (arith, one))
          ∙ ap (λ (x : ℕ). read_numbers x rest) (omega arith))
  | inr more ↦
      rw (more, decimal_digits)
        (ap (read_numbers 0) (append_assoc (decimal_digits k (n / 10)) ((b'0' + n % 10) ∷ []) rest)
          ∙ (read_numbers-decimal_digits k (n / 10) ((b'0' + n % 10) ∷ rest)
                (omega (arith, h, pow-suc 10 (suc k)))
              ∙ (read_numbers-digit (n / 10) (n % 10) rest (omega arith)
                  ∙ ap (λ (x : ℕ). read_numbers x rest) (omega arith))))
]

read_numbers-decimal :
    (n c : ℕ) (rest : Text)
    → n < 2 ^ 32
    → ((c == b'.') || (c == 10)) ≡ true
    → read_numbers 0 (decimal n ++ c ∷ rest) ≡ n ∷ read_numbers 0 rest
unfolding decimal read_numbers
read_numbers-decimal n c rest h e =
    read_numbers-decimal_digits 9 n (c ∷ rest) (omega (arith, h)) ∙ rw (e, read_numbers) refl

-- The dotted address that is printed for a 32-bit number in host order reads as that number.
read_numbers-print_addr_ip_int :
    (ip : ℕ) → ip < 2 ^ 32 → address_of (read_numbers 0 (print_addr_ip_int ip)) ≡ ip
unfolding print_addr_ip_int address_of read_numbers
read_numbers-print_addr_ip_int ip h =
    let a = ip / 2 ^ 24 in
    let b = ip * 2 ^ 8 % 2 ^ 32 / 2 ^ 24 in
    let c = ip * 2 ^ 16 % 2 ^ 32 / 2 ^ 24 in
    let d = ip * 2 ^ 24 % 2 ^ 32 / 2 ^ 24 in
    rw
      (
        read_numbers-decimal a b'.' _ (omega (arith, h)) refl,
        read_numbers-decimal b b'.' _ (omega arith) refl,
        read_numbers-decimal c b'.' _ (omega arith) refl,
        read_numbers-decimal d 10 [] (omega arith) refl,
      )
      (omega (arith, h))

-- The bytes of a text of pairs of hexadecimal digits, with one character behind each pair.
hex_value : ℕ → ℕ
hex_value c = if ltb c b'A' then c - b'0' else c - b'A' + 10

unfoldable pub read_pairs : Text → List ℕ
unfolding hex_value
read_pairs [] = []
read_pairs (a ∷ []) = []
read_pairs (a ∷ b ∷ []) = []
read_pairs (a ∷ b ∷ c ∷ cs) = (16 * hex_value a + hex_value b) ∷ read_pairs cs

hex_value-hex_digit : (d : ℕ) → d < 16 → hex_value (hex_digit d) ≡ d
unfolding hex_value hex_digit
hex_value-hex_digit d h = ground (arith, h)

hex_value-hex_byte :
    (b : ℕ) → b < 256 → 16 * hex_value (hex_digit (b / 16)) + hex_value (hex_digit (b % 16)) ≡ b
hex_value-hex_byte b h = omega (
  arith,
  hex_value-hex_digit (b / 16) (omega (arith, h)),
  hex_value-hex_digit (b % 16) (omega arith),
)

read_pairs-print_addr_eth :
    (m : Bytes) (a : ℕ)
    → IsBytes m
    → read_pairs (print_addr_eth m a)
      ≡ m a ∷ m (a + 1) ∷ m (a + 2) ∷ m (a + 3) ∷ m (a + 4) ∷ m (a + 5) ∷ []
unfolding print_addr_eth addr_eth_from hex_byte read_pairs
read_pairs-print_addr_eth m a h =
    rw
      (
        hex_value-hex_byte (m (a + 0)) (h (a + 0)),
        hex_value-hex_byte (m (a + 1)) (h (a + 1)),
        hex_value-hex_byte (m (a + 2)) (h (a + 2)),
        hex_value-hex_byte (m (a + 3)) (h (a + 3)),
        hex_value-hex_byte (m (a + 4)) (h (a + 4)),
        hex_value-hex_byte (m (a + 5)) (h (a + 5)),
      )
      (ap (λ (x : ℕ). m x ∷ m (a + 1) ∷ m (a + 2) ∷ m (a + 3) ∷ m (a + 4) ∷ m (a + 5) ∷ [])
        (omega arith))

-- What is printed of the addresses of a header can be read back: an IP address below 2^32, in host
-- order, from its four decimal numbers, and the six bytes of a hardware address from their pairs of
-- hexadecimal digits.
pub print_addr_reads_back :
    (m : Bytes) (a ip : ℕ)
    → IsBytes m
    → ip < 2 ^ 32
    → (address_of (read_numbers 0 (print_addr_ip_int ip)) ≡ ip)
      × (read_pairs (print_addr_eth m a)
          ≡ m a ∷ m (a + 1) ∷ m (a + 2) ∷ m (a + 3) ∷ m (a + 4) ∷ m (a + 5) ∷ [])
print_addr_reads_back m a ip h k =
    (read_numbers-print_addr_ip_int ip k, read_pairs-print_addr_eth m a h)
