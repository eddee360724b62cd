-- ===== src/Prelude/Slices.antt =====
-- The part of a list between two positions, `xs[a:b]`, and how parts join.
use Prim.Native.Nat.{ℕ, zero, suc, ◌+◌, ◌-◌, ◌≤◌, min}
use mathlib.Core.Path.{◌≡◌, refl, sym, ap, ◌∙◌}
use mathlib.Core.List.{List, [], ◌∷◌, ◌++◌}
use native.Mathlib.Omega.{arith}
use vmnetx.Prelude.Lists.{length, take, drop, length-take, length-drop}

module _ {ℓ} {A : Type ℓ} where
  -- xs[a:b] for positions that are not negative.
  abbrev pub slice : List A → ℕ → ℕ → List A
  slice xs a b = take (b - a) (drop a xs)

  take_at : {m n : ℕ} (xs : List A) → m ≡ n → take m xs ≡ take n xs
  take_at xs e = ap (λ k. take k xs) e

  drop_at : {m n : ℕ} (xs : List A) → m ≡ n → drop m xs ≡ drop n xs
  drop_at xs e = ap (λ k. drop k xs) e

  pub drop-nil : (n : ℕ) → drop {A = A} n [] ≡ []
  drop-nil zero = refl
  drop-nil (suc n) = refl

  pub take-nil : (n : ℕ) → take {A = A} n [] ≡ []
  take-nil zero = refl
  take-nil (suc n) = refl

  pub drop-drop : (m n : ℕ) (xs : List A) → drop m (drop n xs) ≡ drop (n + m) xs
  drop-drop m zero xs = drop_at xs (omega arith)
  drop-drop m (suc n) [] = drop-nil m ∙ sym (drop-nil (suc n + m))
  drop-drop m (suc n) (x ∷ xs) =
      drop-drop m n xs ∙ drop_at {m = suc (n + m)} {n = suc n + m} (x ∷ xs) (omega arith)

  pub take-take : (m n : ℕ) (xs : List A) → take m (take n xs) ≡ take (min m n) xs
  take-take zero n xs = take_at {m = 0} xs (omega arith)
  take-take (suc m) zero xs = take_at {m = 0} xs (omega arith)
  take-take (suc m) (suc n) [] = sym (take-nil (min (suc m) (suc n)))
  take-take (suc m) (suc n) (x ∷ xs) =
      ap (λ l. x ∷ l) (take-take m n xs)
      ∙ take_at {m = suc (min m n)} {n = min (suc m) (suc n)} (x ∷ xs) (omega arith)

  pub take-drop : (m n : ℕ) (xs : List A) → drop m (take n xs) ≡ take (n - m) (drop m xs)
  take-drop zero n xs = take_at xs (omega arith)
  take-drop (suc m) zero xs = take_at {m = 0} (drop (suc m) xs) (omega arith)
  take-drop (suc m) (suc n) [] = sym (take-nil (suc n - suc m))
  take-drop (suc m) (suc n) (x ∷ xs) =
      take-drop m n xs ∙ take_at {m = n - m} {n = suc n - suc m} (drop m xs) (omega arith)

  pub take_add : (m n : ℕ) (xs : List A) → take m xs ++ take n (drop m xs) ≡ take (m + n) xs
  take_add zero n xs = take_at xs (omega arith)
  take_add (suc m) n [] = take-nil n ∙ sym (take-nil (suc m + n))
  take_add (suc m) n (x ∷ xs) =
      ap (λ l. x ∷ l) (take_add m n xs)
      ∙ take_at {m = suc (m + n)} {n = suc m + n} (x ∷ xs) (omega arith)

  -- Adjacent parts join.
  pub slice-append :
      (xs : List A) (a b c : ℕ) → a ≤ b → b ≤ c → slice xs a b ++ slice xs b c ≡ slice xs a c
  slice-append xs a b c h k =
      ap (λ l. slice xs a b ++ take (c - b) l)
        (ap (λ n. drop n xs) (let e : b ≡ a + (b - a) = omega arith in e)
          ∙ sym (drop-drop (b - a) a xs))
      ∙ take_add (b - a) (c - b) (drop a xs)
      ∙ ap (λ n. take n (drop a xs)) (omega arith)

  pub length-slice : (xs : List A) (a b : ℕ) → length (slice xs a b) ≡ min (b - a) (length xs - a)
  length-slice xs a b = omega (arith, length-take (b - a) (drop a xs), length-drop a xs)

  -- The tail and the head of a part.
  pub drop-slice : (xs : List A) (a b n : ℕ) → drop n (slice xs a b) ≡ slice xs (a + n) b
  drop-slice xs a b n =
      take-drop n (b - a) (drop a xs)
      ∙ ap (λ l. take (b - a - n) l) (drop-drop n a xs)
      ∙ take_at (drop (a + n) xs) (omega arith)

  pub take-slice :
      (xs : List A) (a b n : ℕ) → a + n ≤ b → take n (slice xs a b) ≡ slice xs a (a + n)
  take-slice xs a b n h = take-take n (b - a) (drop a xs) ∙ take_at (drop a xs) (omega arith)

  pub take-length : (n : ℕ) (xs : List A) → length xs ≤ n → take n xs ≡ xs
  take-length zero [] h = refl
  take-length zero (x ∷ xs) h = absurd (omega arith)
  take-length (suc n) [] h = refl
  take-length (suc n) (x ∷ xs) h = ap (λ l. x ∷ l) (take-length n xs (omega arith))

  take-length-take : (n : ℕ) (xs : List A) → take (length (take n xs)) xs ≡ take n xs
  take-length-take zero xs = refl
  take-length-take (suc n) [] = refl
  take-length-take (suc n) (x ∷ xs) = ap (λ l. x ∷ l) (take-length-take n xs)

  -- A part that reaches past the end of the list is the part up to the end.
  pub slice-length : (xs : List A) (a b : ℕ) → slice xs a b ≡ slice xs a (a + length (slice xs a b))
  slice-length xs a b =
      sym (take-length-take (b - a) (drop a xs))
      ∙ take_at {m = length (slice xs a b)} {n = a + length (slice xs a b) - a} (drop a xs)
          (omega arith)

  pub length-slice_of_le : (xs : List A) (a b : ℕ) → b ≤ length xs → length (slice xs a b) ≡ b - a
  length-slice_of_le xs a b h = omega (arith, length-slice xs a b)

  -- The middle of a part.
  pub slice-slice :
      (xs : List A) (a b c d : ℕ)
      → a ≤ c
      → c ≤ d
      → d ≤ b
      → take (d - c) (drop (c - a) (slice xs a b)) ≡ slice xs c d
  slice-slice xs a b c d h k l =
      ap (take (d - c)) (drop-slice xs a b (c - a) ∙ take_drop_at (omega arith))
      ∙ take-slice xs c b (d - c) (omega arith)
      ∙ take_at {m = c + (d - c) - c} {n = d - c} (drop c xs) (omega arith)
    where
      take_drop_at : a + (c - a) ≡ c → slice xs (a + (c - a)) b ≡ slice xs c b
      take_drop_at e = ap (λ n. slice xs n b) e

  pub take_to-slice :
      (xs : List A) (a b d : ℕ) → a ≤ d → d ≤ b → take (d - a) (slice xs a b) ≡ slice xs a d
  take_to-slice xs a b d h k =
      take-slice xs a b (d - a) (omega arith)
      ∙ take_at {m = a + (d - a) - a} {n = d - a} (drop a xs) (omega arith)

  pub drop_to-slice : (xs : List A) (a b c : ℕ) → a ≤ c → drop (c - a) (slice xs a b) ≡ slice xs c b
  drop_to-slice xs a b c h =
      drop-slice xs a b (c - a)
      ∙ ap (λ n. slice xs n b) (let e : a + (c - a) ≡ c = omega arith in e)

  -- A list that is some part of another is the part of its own length.
  pub slice_of_eq :
      (xs : List A) {ys : List A} (a b : ℕ) → ys ≡ slice xs a b → ys ≡ slice xs a (a + length ys)
  slice_of_eq xs a b e = rw e (slice-length xs a b)

  -- A part, taken up from another that overlaps its end.
  pub append-take-slice :
      (xs : List A) (a b d e first n stop : ℕ)
      → first ≡ b
      → n ≡ d - b
      → stop ≡ e
      → a ≤ b
      → b ≤ d
      → d ≤ e
      → (slice xs a b ++ take n (slice xs first stop) ≡ slice xs a d)
        × (drop n (slice xs first stop) ≡ slice xs d e)
  append-take-slice xs a b d e first n stop p q r h k l =
      rw (p, q, r)
        (
          ap (λ y. slice xs a b ++ y) (take_to-slice xs b e d k l) ∙ slice-append xs a b d h k,
          drop_to-slice xs b e d k,
        )

  pub drop-append : (xs ys : List A) (n : ℕ) → length xs ≡ n → drop n (xs ++ ys) ≡ ys
  drop-append [] ys zero e = refl
  drop-append [] ys (suc n) e = absurd (omega arith)
  drop-append (x ∷ xs) ys zero e = absurd (omega arith)
  drop-append (x ∷ xs) ys (suc n) e = drop-append xs ys n (omega arith)

  pub take-append : (xs ys : List A) (n : ℕ) → length xs ≡ n → take n (xs ++ ys) ≡ xs
  take-append [] ys zero e = refl
  take-append [] ys (suc n) e = absurd (omega arith)
  take-append (x ∷ xs) ys zero e = absurd (omega arith)
  take-append (x ∷ xs) ys (suc n) e = ap (λ l. x ∷ l) (take-append xs ys n (omega arith))

  -- The middle of three lists.
  pub slice-append_middle :
      (xs ys zs : List A) (m n : ℕ)
      → length xs ≡ m
      → length ys ≡ n - m
      → slice (xs ++ (ys ++ zs)) m n ≡ ys
  slice-append_middle xs ys zs m n p q =
      ap (take (n - m)) (drop-append xs (ys ++ zs) m p) ∙ take-append ys zs (n - m) q
