-- ===== src/Domain/Decimal.antt =====
-- What Python's formatting and `str.strip` do where prototype/commands.py uses them.
use Prim.Native.Nat.{◌/◌, ◌%◌}
use Prim.Native.Char.{Char, code, len_utf8}
use Prim.Native.String.{len}
use text.Mathlib.Text.{char_at?}
use ronro.Prelude.{
  ℕ, zero, suc, ◌+◌, String, Bool, true, ◌&&◌, ◌||◌, none, some, nat_eq, ltb, leb, if◌then◌else◌,
}
use ronro.Domain.Text.{◌⧺◌}

abbrev digit : ℕ → String
digit n =
    if nat_eq n 0
    then "0"
    else (if nat_eq n 1
        then "1"
        else (if nat_eq n 2
            then "2"
            else (if nat_eq n 3
                then "3"
                else (if nat_eq n 4
                    then "4"
                    else (if nat_eq n 5
                        then "5"
                        else (if nat_eq n 6
                            then "6"
                            else (if nat_eq n 7
                                then "7"
                                else (if nat_eq n 8 then "8" else "9"))))))))

-- A number has at most as many digits as it counts, so `n` steps write all of `n`.
abbrev digits : ℕ → ℕ → String
digits zero n = digit (n % 10)
digits (suc fuel) n =
    let front = digits fuel (n / 10) in if ltb n 10 then digit n else front ⧺ digit (n % 10)

abbrev zeros : ℕ → String
zeros n =
    if ltb n 10
    then "00000"
    else (if ltb n 100
        then "0000"
        else (if ltb n 1000
            then "000"
            else (if ltb n 10000 then "00" else (if ltb n 100000 then "0" else ""))))

-- f"{n:06d}"
unfoldable pub six_digits : ℕ → String
six_digits n = zeros n ⧺ digits n n

-- The characters that `str.strip` takes off.
abbrev is_space : Char → Bool
is_space c =
    let n = code c in
    (leb 9 n && leb n 13)
    || (leb 28 n && leb n 32)
    || nat_eq n 133
    || nat_eq n 160
    || nat_eq n 5760
    || (leb 8192 n && leb n 8202)
    || nat_eq n 8232
    || nat_eq n 8233
    || nat_eq n 8239
    || nat_eq n 8287
    || nat_eq n 12288

abbrev blank_from : ℕ → String → ℕ → Bool
blank_from zero s i = true
blank_from (suc fuel) s i = elim (char_at? s i) [
  | none ↦ true
  | some c ↦ is_space c && blank_from fuel s (i + len_utf8 c)
]

-- `not s.strip()`: a text has at most as many characters as bytes.
unfoldable pub is_blank : String → Bool
is_blank s = blank_from (len s) s 0
