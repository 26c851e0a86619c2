-- ===== src/Guest/StraceParser/Syscalls/Numbers.antt =====
-- Numbers in decimal, read back.
use Prim.Native.Nat.{◌*◌, ◌/◌, ◌%◌}
use script_jail.Base.{
  ℕ, zero, suc, ◌+◌, ◌-◌, ◌<◌, true, false, [], ◌∷◌, ◌++◌, some, Text, codes, length, text_eq,
  starts_with, decimal, decimal_step, ltb, All, All-append, ◌≡◌, refl, ◌∙◌, ap, arith, Bool-cases,
  inl, inr, length-append,
}
use script_jail.Lock.Schema.{pos}
use script_jail.Guest.StraceParser.Syscalls.{is_decimal, decimal_value, leading_int, at_fdcwd}

abbrev pub IsDigits : Text → Type 0
IsDigits = All (λ c. is_decimal c ≡ true)

decimal_value-last :
    (v : ℕ) (s : Text) (c : ℕ)
    → IsDigits s
    → is_decimal c ≡ true
    → decimal_value v (s ++ c ∷ []) ≡ decimal_value v s * 10 + (c - b'0')
unfolding decimal_value
decimal_value-last v [] c _ h = rw h refl
decimal_value-last v (d ∷ s) c (here, later) h =
    rw here (decimal_value-last (v * 10 + (d - b'0')) s c later h)

digit : (n : ℕ) → n < 10 → is_decimal (b'0' + n) ≡ true
digit n h = ground arith

-- The digits of a number, and their value.
decimal_lem :
    (m n : ℕ)
    → n < m
    → IsDigits (decimal n) × (decimal_value 0 (decimal n) ≡ n) × (0 < length (decimal n))
unfolding decimal_value
decimal_lem zero n h = elim h [ ]
decimal_lem (suc m) n h = elim (Bool-cases (ltb n 10)) [
  | inl e ↦
      let d = digit n (ground arith) in
      rw (decimal_step n, e) ((d, tt), rw d (omega arith), omega arith)
  | inr e ↦
      let d = digit (n % 10) (omega arith) in
      let (digits, value, _) = decimal_lem m (n / 10) (ground arith) in
      rw (decimal_step n, e)
        (
          All-append (λ c. is_decimal c ≡ true) (decimal (n / 10)) ((b'0' + n % 10) ∷ []) digits
              (d, tt),
          decimal_value-last 0 (decimal (n / 10)) (b'0' + n % 10) digits d ∙ omega (arith, value),
          omega (arith, length-append (decimal (n / 10)) ((b'0' + n % 10) ∷ [])),
        )
]

pub decimal-IsDigits : (n : ℕ) → IsDigits (decimal n)
decimal-IsDigits n = (decimal_lem (suc n) n (omega arith)).0

-- Digits are neither a number in hexadecimal nor the working directory.
pub digits_no_hex : (s : Text) → IsDigits s → starts_with s (codes "0x") ≡ false
unfolding starts_with
digits_no_hex [] _ = refl
digits_no_hex (c ∷ []) _ = ground arith
digits_no_hex (c ∷ d ∷ s) (_, (h, _)) = ground arith

pub digits_no_cwd : (s : Text) → IsDigits s → text_eq s at_fdcwd ≡ false
unfolding text_eq
digits_no_cwd [] _ = refl
digits_no_cwd (c ∷ s) (h, _) = ground arith

leading_int-IsDigits :
    (s : Text) → IsDigits s → 0 < length s → leading_int s ≡ some (pos (decimal_value 0 s))
unfolding leading_int
leading_int-IsDigits [] _ long = absurd (omega (arith, long))
leading_int-IsDigits (c ∷ s) (h, _) long = ground arith

pub leading_int-decimal : (n : ℕ) → leading_int (decimal n) ≡ some (pos n)
leading_int-decimal n =
    let (digits, value, long) = decimal_lem (suc n) n (omega arith) in
    leading_int-IsDigits (decimal n) digits long ∙ ap (λ v. some (pos v)) value

pub decimal_cons : (n : ℕ) → (c : ℕ) × (s : Text) × (decimal n ≡ c ∷ s)
decimal_cons n = split (decimal n) (decimal_lem (suc n) n (omega arith)).2
  where
    split : (t : Text) → 0 < length t → (c : ℕ) × (s : Text) × (t ≡ c ∷ s)
    split [] long = absurd (omega (arith, long))
    split (c ∷ s) long = (c, s, refl)
