-- ===== src/AtBuffer/Crate.antt =====
-- at_buffer.cpp: `GetCrate`, against the bytes of all lines together.
use aether_client_cpp.Prelude.{
  ℕ, zero, suc, ◌+◌, ◌-◌, ◌^◌, ◌≤◌, ◌<◌, ◌≡◌, refl, arith, ap, ap₂, sym, ◌∙◌, leb, ltb,
  if◌then◌else◌, List, inl, inr, [], ◌∷◌, ◌++◌, length, take, drop, Bool-cases, none, some, false,
  append-nil, append_assoc, length-append, length-take, drop-length, min,
}
use aether_client_cpp.AtBuffer.{is_negative, crate_loop, get_crate}

-- The bytes of all lines, without their ends.
unfoldable pub joined : List (List ℕ) → List ℕ
joined [] = []
joined (line ∷ lines) = line ++ joined lines

drop-append : (n : ℕ) (xs ys : List ℕ) → drop n (xs ++ ys) ≡ drop n xs ++ drop (n - length xs) ys
drop-append zero xs ys = ap (λ (k : ℕ). xs ++ drop k ys) {x = 0} {y = 0 - length xs} (omega arith)
drop-append (suc n) [] ys = ap (λ (k : ℕ). drop k ys) {x = suc n} {y = suc n - 0} (omega arith)
drop-append (suc n) (x ∷ xs) ys =
    drop-append n xs ys
    ∙ ap (λ (k : ℕ). drop n xs ++ drop k ys) {x = n - length xs} {y = suc n - suc (length xs)}
        (omega arith)

take-append : (n : ℕ) (xs ys : List ℕ) → take n (xs ++ ys) ≡ take n xs ++ take (n - length xs) ys
take-append zero xs ys = ap (λ (k : ℕ). take k ys) {x = 0} {y = 0 - length xs} (omega arith)
take-append (suc n) [] ys = ap (λ (k : ℕ). take k ys) {x = suc n} {y = suc n - 0} (omega arith)
take-append (suc n) (x ∷ xs) ys = ap (◌∷◌ x) (
    take-append n xs ys
    ∙ ap (λ (k : ℕ). take n xs ++ take k ys) {x = n - length xs} {y = suc n - suc (length xs)}
        (omega arith))

take-all : (n : ℕ) (xs : List ℕ) → length xs ≤ n → take n xs ≡ xs
take-all zero [] h = refl
take-all zero (x ∷ xs) h = absurd (omega arith)
take-all (suc n) [] h = refl
take-all (suc n) (x ∷ xs) h = ap (◌∷◌ x) (take-all n xs (omega arith))

take-nil : (n : ℕ) → take {A = ℕ} n [] ≡ []
take-nil zero = refl
take-nil (suc n) = refl

drop-nil : (n : ℕ) → drop {A = ℕ} n [] ≡ []
drop-nil zero = refl
drop-nil (suc n) = refl

same_take : (xs : List ℕ) (m n : ℕ) → n ≡ min m (length xs) → take n xs ≡ take m xs
same_take [] m n e = take-nil n ∙ sym (take-nil m)
same_take (x ∷ xs) zero n e = ap (λ (k : ℕ). take k (x ∷ xs)) {x = n} {y = 0} (omega (arith, e))
same_take (x ∷ xs) (suc m) zero e = absurd (omega (arith, e))
same_take (x ∷ xs) (suc m) (suc n) e = ap (◌∷◌ x) (same_take xs m n (omega (arith, e)))

crate_loop_lem :
    (size : ℕ) (res : List ℕ) (remaining offset : ℕ) (lines : List (List ℕ))
    → remaining < 2 ^ 63
    → length res + remaining ≡ size
    → crate_loop size res remaining offset lines
      ≡ some (res ++ take remaining (drop offset (joined lines)))
unfolding crate_loop joined is_negative
crate_loop_lem size res remaining offset [] small h = ap some (
    sym (append-nil res)
    ∙ ap (λ xs. res ++ xs)
        (sym (take-nil remaining ∙ refl) ∙ ap (take remaining) (sym (drop-nil offset))))
crate_loop_lem size res remaining offset (line ∷ lines) small h =
    elim (Bool-cases (ltb (length res) size)) [
      | inr full ↦ rw full (
          ap some (
            sym (append-nil res)
            ∙ ap (λ (k : ℕ). res ++ take k (drop offset (line ++ joined lines))) {x = 0}
                {y = remaining} (ground arith)))
      | inl more ↦ elim (Bool-cases (leb (length line) offset)) [
        | inl skip ↦
            rw (more, skip)
              (crate_loop_lem size res remaining (offset - length line) lines small h
                ∙ ap (λ xs. some (res ++ take remaining xs))
                    (sym (
                      drop-append offset line (joined lines)
                      ∙ ap (λ xs. xs ++ drop (offset - length line) (joined lines))
                          (drop-length offset line (ground arith)))))
        | inr copy ↦
            rw (more, copy, in_range)
              let bucket = drop offset line in
                let n = if ltb remaining (length bucket) then remaining else length bucket in
                let n_min : n ≡ min remaining (length bucket) = ground arith in
                (crate_loop_lem size (res ++ take n bucket) (remaining - n) 0 lines
                    (omega (arith, small))
                    (omega (arith, length-append res (take n bucket), length-take n bucket, n_min))
                  ∙ ap some (
                      append_assoc res (take n bucket) (take (remaining - n) (joined lines))
                      ∙ ap (λ xs. res ++ xs)
                          (ap₂ ◌++◌ (same_take bucket remaining n n_min)
                              (ap (λ (k : ℕ). take k (joined lines)) (omega (arith, n_min)))
                            ∙ sym (take-append remaining bucket (joined lines))
                            ∙ ap (λ (k : ℕ). take remaining (bucket ++ drop k (joined lines)))
                                {x = 0} {y = offset - length line} (ground arith)
                            ∙ ap (take remaining) (sym (drop-append offset line (joined lines))))))
      ]
    ]
  where
    in_range : leb (2 ^ 63) remaining ≡ false
    in_range = ground (arith, small)

crate_loop-negative :
    (size : ℕ) (res : List ℕ) (remaining offset : ℕ) (lines : List (List ℕ))
    → 2 ^ 63 ≤ remaining
    → length res + remaining ≡ size
    → crate_loop size res remaining offset lines
      ≡ (if ltb offset (length (joined lines)) then none else some res)
unfolding crate_loop joined is_negative
crate_loop-negative size res remaining offset [] large h = ground arith
crate_loop-negative size res remaining offset (line ∷ lines) large h = ground (
  arith,
  large,
  h,
  crate_loop-negative size res remaining (offset - length line) lines large h,
  length-append line (joined lines),
)

-- `GetCrate` from a line on, for any `size` of 64 bits: where `size` is less than 2 ^ 63, it answers
-- the bytes of that and the later lines together, less the first `offset` ones and at most `size` of
-- them, however they are spread over the lines. From 2 ^ 63 on, it inserts a range that ends before
-- it begins if there is a byte behind the first `offset` ones, and else answers no bytes.
pub get_crate_lem :
    (size offset : ℕ) (start : List (List ℕ))
    → get_crate size offset start ≡ (
        if ltb size (2 ^ 63)
        then some (take size (drop offset (joined start)))
        else if ltb offset (length (joined start))
        then none
        else some [])
unfolding get_crate
get_crate_lem size offset start = elim (Bool-cases (ltb size (2 ^ 63))) [
  | inl small ↦
      rw small (crate_loop_lem size [] size offset start (ground (arith, small)) (omega arith))
  | inr large ↦
      rw large (crate_loop-negative size [] size offset start (ground (arith, large)) (omega arith))
]
