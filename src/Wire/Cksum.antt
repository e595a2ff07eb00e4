-- ===== src/Wire/Cksum.antt =====
-- What `cksum` depends on and what it detects.
use stanford.Prelude.{
  ℕ, zero, suc, ◌+◌, ◌-◌, ◌*◌, ◌%◌, ◌≤◌, ◌<◌, ◌≡◌, ◌≢◌, refl, inl, inr, List, [], ◌∷◌, ◌++◌, arith,
  All, length, ◌==◌, if◌then◌else◌, ◌↔◌, ◌∙◌, sym, ap, ◌⊎◌,
}
use stanford.Wire.Order.{htons-htons}
use stanford.Wire.{htons, sum_words, fold_carries, cksum}

fold_carries-le : (s : ℕ) → s < 4294967296 → fold_carries 2 s ≤ 65535
unfolding fold_carries
fold_carries-le s h = ground arith

fold_carries-mod : (s : ℕ) → fold_carries 2 s % 65535 ≡ s % 65535
unfolding fold_carries
fold_carries-mod s = ground arith

-- The loop's fuel is enough for any `uint32_t`: more changes nothing.
pub fold_carries-fuel : (k s : ℕ) → s < 4294967296 → fold_carries (suc (suc k)) s ≡ fold_carries 2 s
unfolding fold_carries
fold_carries-fuel zero s h = refl
fold_carries-fuel (suc k) s h = ground arith

-- The sum of the 16-bit words.
pub word_sum : List ℕ → ℕ
word_sum [] = 0
word_sum (a ∷ []) = a * 256
word_sum (a ∷ b ∷ rest) = a * 256 + b + word_sum rest

abbrev pub AllBytes : List ℕ → Type 0
AllBytes = All (λ b. b < 256)

word_sum-le : (xs : List ℕ) → AllBytes xs → 2 * word_sum xs ≤ 65535 * (length xs + 1)
unfolding word_sum
word_sum-le [] h = omega arith
word_sum-le (a ∷ []) h = omega arith
word_sum-le (a ∷ b ∷ rest) h = omega (arith, word_sum-le rest h.1.1)

-- The 32-bit accumulator does not wrap.
sum_words-eq :
    (xs : List ℕ) (s : ℕ)
    → AllBytes xs
    → s + word_sum xs < 4294967296
    → sum_words xs s ≡ s + word_sum xs
unfolding word_sum sum_words
sum_words-eq [] s h lt = omega arith
sum_words-eq (a ∷ []) s h lt = omega arith
sum_words-eq (a ∷ b ∷ rest) s h lt =
    sum_words-eq rest ((s + (a * 256 + b)) % 4294967296) h.1.1 (omega arith) ∙ omega arith

complement : ℕ → ℕ
complement f = let sum = htons ((4294967295 - f) % 65536) in if sum == 0 then 65535 else sum

complement_lem : (f : ℕ) → f ≤ 65535 → complement f ≡ htons (65535 - f % 65535)
unfolding complement htons
complement_lem f h = ground arith

-- The checksum of at most 65536 bytes, in closed form: the complement, in 16 bits and in network
-- order, of the sum of the big-endian words modulo 65535, an odd last byte standing for a word.
pub cksum_lem :
    (xs : List ℕ) → AllBytes xs → length xs ≤ 65536 → cksum xs ≡ htons (65535 - word_sum xs % 65535)
unfolding cksum complement
cksum_lem xs h len =
    ap (λ s. complement (fold_carries 2 s)) (sum_words-eq xs 0 h (omega (arith, word_sum-le xs h)))
    ∙ complement_lem (fold_carries 2 (0 + word_sum xs))
        (fold_carries-le (0 + word_sum xs) (omega (arith, word_sum-le xs h)))
    ∙ ap (λ r. htons (65535 - r)) (fold_carries-mod (0 + word_sum xs) ∙ omega arith)

residue_of_htons :
    (a b : ℕ) → htons (65535 - a % 65535) ≡ htons (65535 - b % 65535) → a % 65535 ≡ b % 65535
residue_of_htons a b e = omega (
  arith,
  ap htons e,
  htons-htons (65535 - a % 65535) (omega arith),
  htons-htons (65535 - b % 65535) (omega arith),
)

-- Two blocks of at most 65536 bytes have the same checksum exactly when the sums of their words
-- agree modulo 65535.
pub cksum_eq_iff :
    (xs ys : List ℕ)
    → AllBytes xs
    → AllBytes ys
    → length xs ≤ 65536
    → length ys ≤ 65536
    → (cksum xs ≡ cksum ys) ↔ (word_sum xs % 65535 ≡ word_sum ys % 65535)
cksum_eq_iff xs ys hx hy lx ly = (
  λ e.
      residue_of_htons (word_sum xs) (word_sum ys)
        (sym (cksum_lem xs hx lx) ∙ e ∙ cksum_lem ys hy ly),
  λ e. cksum_lem xs hx lx ∙ ap (λ r. htons (65535 - r)) e ∙ sym (cksum_lem ys hy ly),
)

-- Where a byte stands in its word.
weight : List ℕ → ℕ
weight [] = 256
weight (a ∷ []) = 1
weight (a ∷ b ∷ rest) = weight rest

word_sum-change :
    (xs ys : List ℕ) (a b : ℕ)
    → word_sum (xs ++ a ∷ ys) + weight xs * b ≡ word_sum (xs ++ b ∷ ys) + weight xs * a
unfolding word_sum weight
word_sum-change [] [] a b = omega arith
word_sum-change [] (y ∷ ys) a b = omega arith
word_sum-change (x ∷ []) ys a b = omega arith
word_sum-change (x ∷ x' ∷ xs) ys a b = omega (arith, word_sum-change xs ys a b)

weight-cases : (xs : List ℕ) → (weight xs ≡ 256) ⊎ (weight xs ≡ 1)
unfolding weight
weight-cases [] = inl refl
weight-cases (a ∷ []) = inr refl
weight-cases (a ∷ b ∷ rest) = weight-cases rest

-- A change of any one byte of a block of at most 65536 bytes changes the checksum.
pub cksum-detects_byte :
    (xs ys : List ℕ) (a b : ℕ)
    → AllBytes (xs ++ a ∷ ys)
    → AllBytes (xs ++ b ∷ ys)
    → length (xs ++ a ∷ ys) ≤ 65536
    → length (xs ++ b ∷ ys) ≤ 65536
    → a < 256
    → b < 256
    → a ≢ b
    → cksum (xs ++ a ∷ ys) ≢ cksum (xs ++ b ∷ ys)
cksum-detects_byte xs ys a b ha hb la lb lta ltb' ne e =
    let same = (cksum_eq_iff (xs ++ a ∷ ys) (xs ++ b ∷ ys) ha hb la lb).0 e in
    elim (weight-cases xs) [
      | inl w ↦ ne (omega (arith, same, rw w at (word_sum-change xs ys a b)))
      | inr w ↦ ne (omega (arith, same, rw w at (word_sum-change xs ys a b)))
    ]
