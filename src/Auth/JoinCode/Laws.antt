-- ===== src/Auth/JoinCode/Laws.antt =====
-- However a code is typed, it reads as the code that was shared.
use kitaza.Common.{
  ℕ, zero, suc, ◌+◌, ◌%◌, ◌<◌, ◌≡◌, refl, ap, ◌∙◌, sym, true, false, List, [], ◌∷◌, ◌++◌, map, take,
  drop, arith,
}
use kitaza.Auth.JoinCode.{
  Text, letter, drawn_letter, generate, normalise, is_ascii_alphanumeric, to_ascii_uppercase, dash,
  code_length,
}

-- Typed alike: the same letters and digits in the same order, in either case, with anything else
-- between them.
pub data TypedAs : Text → Text → Type 0 where
  done : TypedAs [] []
  same : (c : ℕ) {typed code : Text} → TypedAs typed code → TypedAs (c ∷ typed) (c ∷ code)
  lower :
      (c : ℕ) {typed code : Text}
      → 64 < c
      → c < 91
      → TypedAs typed code
      → TypedAs ((c + 32) ∷ typed) (c ∷ code)
  stray :
      (c : ℕ) {typed code : Text}
      → is_ascii_alphanumeric c ≡ false
      → TypedAs typed code
      → TypedAs (c ∷ typed) code
  skipped :
      (c : ℕ) {typed code : Text}
      → is_ascii_alphanumeric c ≡ false
      → TypedAs typed code
      → TypedAs typed (c ∷ code)

normalise-stray :
    (c : ℕ) (t : Text) → is_ascii_alphanumeric c ≡ false → normalise (c ∷ t) ≡ normalise t
unfolding normalise
normalise-stray c t e = ground arith

normalise-lower :
    (c : ℕ) (t u : Text)
    → 64 < c
    → c < 91
    → normalise t ≡ normalise u
    → normalise ((c + 32) ∷ t) ≡ normalise (c ∷ u)
unfolding normalise
normalise-lower c t u low high e = ground arith

normalise-same :
    (c : ℕ) (t u : Text) → normalise t ≡ normalise u → normalise (c ∷ t) ≡ normalise (c ∷ u)
unfolding normalise
normalise-same c t u e = ground arith

-- A text that differs from a code only in case, and in characters that are neither letters nor
-- digits, is normalised to the same text.
pub normalise-TypedAs : {typed code : Text} → TypedAs typed code → normalise typed ≡ normalise code
normalise-TypedAs done = refl
normalise-TypedAs (same c h) = normalise-same c _ _ (normalise-TypedAs h)
normalise-TypedAs (lower c low high h) = normalise-lower c _ _ low high (normalise-TypedAs h)
normalise-TypedAs (stray c e h) = normalise-stray c _ e ∙ normalise-TypedAs h
normalise-TypedAs (skipped c e h) = normalise-TypedAs h ∙ sym (normalise-stray c _ e)

letter-plain :
    (i : ℕ)
    → i < 31
    → (is_ascii_alphanumeric (letter i) ≡ true) × (to_ascii_uppercase (letter i) ≡ letter i)
unfolding letter
letter-plain i h = ground arith

normalise-letter :
    (d : ℕ) (t : Text) → normalise (drawn_letter d ∷ t) ≡ drawn_letter d ∷ normalise t
unfolding normalise
normalise-letter d t = ground (arith, letter-plain (d % 31) (omega arith))

normalise-raw : (draws : List ℕ) → normalise (map drawn_letter draws) ≡ map drawn_letter draws
unfolding normalise
normalise-raw [] = refl
normalise-raw (d ∷ draws) =
    normalise-letter d (map drawn_letter draws) ∙ ap (λ t. drawn_letter d ∷ t) (normalise-raw draws)

normalise-dashed :
    (n : ℕ) (draws : List ℕ)
    → let raw = map drawn_letter draws in normalise (take n raw ++ (dash ∷ drop n raw)) ≡ raw
unfolding normalise
normalise-dashed zero draws =
    normalise-stray dash (map drawn_letter draws) refl ∙ normalise-raw draws
normalise-dashed (suc n) [] = refl
normalise-dashed (suc n) (d ∷ draws) =
    let raw = map drawn_letter draws in
    normalise-letter d (take n raw ++ (dash ∷ drop n raw))
    ∙ ap (λ t. drawn_letter d ∷ t) (normalise-dashed n draws)

-- A code that is typed as it was shared, up to case, the dash and stray characters, reads as the
-- letters that were drawn for it.
pub normalise-generate :
    (draws : List ℕ) (typed : Text)
    → TypedAs typed (generate draws)
    → normalise typed ≡ map drawn_letter (take code_length draws)
unfolding generate
normalise-generate draws typed h = normalise-TypedAs h ∙ normalise-dashed 5 (take code_length draws)
