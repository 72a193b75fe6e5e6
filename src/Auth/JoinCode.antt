-- ===== src/Auth/JoinCode.antt =====
-- Join codes: backend/src/features/staff/join_code.rs. A text is the list of its code points. The
-- random generator's draws are an argument, each taken below the length of the alphabet.
pub mod Laws
use kitaza.Common.{
  ℕ, suc, ◌+◌, ◌-◌, ◌%◌, Bool, true, ◌&&◌, ◌||◌, Option, none, some, List, [], ◌∷◌, ◌++◌, map, take,
  drop, select, length, leb, if◌then◌else◌,
}

abbrev pub Text : Type 0
Text = List ℕ

-- `LENGTH`
abbrev pub code_length : ℕ
code_length = 10

abbrev pub dash : ℕ
dash = 45

-- `ALPHABET` by its index: A to H, J and K, M and N, P to Z, and the digits from 2 to 9.
unfoldable pub letter : ℕ → ℕ
letter index =
    if leb index 7
    then index + 65
    else if leb index 9
    then index + 66
    else if leb index 11
    then index + 67
    else if leb index 22
    then index + 68
    else index + 27

abbrev pub alphabet_length : ℕ
alphabet_length = 31

-- `rng.random_range(0..ALPHABET.len())`
abbrev pub drawn_letter : ℕ → ℕ
drawn_letter draw = letter (draw % alphabet_length)

-- `generate`, from its draws.
unfoldable pub generate : List ℕ → Text
unfolding letter
generate draws =
    let raw = map drawn_letter (take code_length draws) in take 5 raw ++ (dash ∷ drop 5 raw)

abbrev pub between : ℕ → ℕ → ℕ → Bool
between low high c = leb low c && leb c high

abbrev pub is_ascii_alphanumeric : ℕ → Bool
is_ascii_alphanumeric c = between 48 57 c || between 65 90 c || between 97 122 c

abbrev pub to_ascii_uppercase : ℕ → ℕ
to_ascii_uppercase c = if between 97 122 c then c - 32 else c

-- `normalise`
unfoldable pub normalise : Text → Text
normalise typed = map to_ascii_uppercase (select is_ascii_alphanumeric typed)
