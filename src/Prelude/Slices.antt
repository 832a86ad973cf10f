-- ===== src/Prelude/Slices.antt =====
-- The first elements of a list of numbers, and the rest.
use sasd_gatehold.Prelude.{
  ℕ, zero, suc, ◌-◌, ◌≤◌, ◌<◌, ◌≡◌, refl, ap, false, List, [], ◌∷◌, ◌++◌, arith, is_empty, length,
  take, drop,
}

pub length-take : (n : ℕ) (s : List ℕ) → n ≤ length s → length (take n s) ≡ n
length-take zero s h = refl
length-take (suc n) [] h = omega arith
length-take (suc n) (c ∷ s) h = omega (arith, length-take n s (omega arith))

pub take-append_short : (n : ℕ) (s t : List ℕ) → n ≤ length s → take n (s ++ t) ≡ take n s
take-append_short zero s t h = refl
take-append_short (suc n) [] t h = ground arith
take-append_short (suc n) (c ∷ s) t h = ap (λ r. c ∷ r) (take-append_short n s t (omega arith))

pub drop-append_short : (n : ℕ) (s t : List ℕ) → n ≤ length s → drop n (s ++ t) ≡ drop n s ++ t
drop-append_short zero s t h = refl
drop-append_short (suc n) [] t h = ground arith
drop-append_short (suc n) (c ∷ s) t h = drop-append_short n s t (omega arith)

pub take-append_long :
    (n : ℕ) (s t : List ℕ) → length s ≤ n → take n (s ++ t) ≡ s ++ take (n - length s) t
take-append_long n [] t h = ground arith
take-append_long zero (c ∷ s) t h = ground arith
take-append_long (suc n) (c ∷ s) t h = ground (arith, take-append_long n s t)

pub drop-append_long :
    (n : ℕ) (s t : List ℕ) → length s ≤ n → drop n (s ++ t) ≡ drop (n - length s) t
drop-append_long n [] t h = ground arith
drop-append_long zero (c ∷ s) t h = ground arith
drop-append_long (suc n) (c ∷ s) t h = ground (arith, drop-append_long n s t)

pub drop-ne_empty : (n : ℕ) (s : List ℕ) → n < length s → is_empty (drop n s) ≡ false
drop-ne_empty n [] h = ground arith
drop-ne_empty zero (c ∷ s) h = refl
drop-ne_empty (suc n) (c ∷ s) h = drop-ne_empty n s (omega arith)

pub take-append : (s t : List ℕ) → take (length s) (s ++ t) ≡ s
take-append [] t = refl
take-append (c ∷ s) t = ap (λ r. c ∷ r) (take-append s t)

pub take-append-drop : (n : ℕ) (s : List ℕ) → take n s ++ drop n s ≡ s
take-append-drop zero s = refl
take-append-drop (suc n) [] = refl
take-append-drop (suc n) (c ∷ s) = ap (λ r. c ∷ r) (take-append-drop n s)
