-- ===== src/BufferWrite/Numbers.antt =====
-- buffer_write.h: the numbers of the writes, in order, and those of the entries.
use aether_client_cpp.Prelude.{
  ℕ, ◌≤◌, ◌<◌, ◌≡◌, refl, arith, ◌==◌, Bool, true, false, if◌then◌else◌, List, [], ◌∷◌, ◌++◌,
  length, All, erase_if,
}
use aether_client_cpp.BufferWrite.{BufferEntry, set_finished, unsubscribe}
use aether_client_cpp.BufferWrite.Order.{waiting}

-- By the numbers, each higher than the ones before.
abbrev pub IsIncreasing : List (ℕ × ℕ) → Type 0
IsIncreasing [] = Unit
IsIncreasing (x ∷ xs) = All (λ y. x.0 < y.0) xs × IsIncreasing xs

pub All-below :
    (m n : ℕ) (xs : List (ℕ × ℕ)) → m ≤ n → All (λ y. y.0 < m) xs → All (λ y. y.0 < n) xs
All-below m n [] h a = tt
All-below m n (x ∷ xs) h a = (omega (arith, h, a.0), All-below m n xs h a.1)

pub All-append-one :
    (P : ℕ × ℕ → Type 0) (xs : List (ℕ × ℕ)) (y : ℕ × ℕ) → All P xs → P y → All P (xs ++ y ∷ [])
All-append-one P [] y a p = (p, tt)
All-append-one P (x ∷ xs) y a p = (a.0, All-append-one P xs y a.1 p)

pub IsIncreasing-append-one :
    (xs : List (ℕ × ℕ)) (y : ℕ × ℕ)
    → IsIncreasing xs
    → All (λ x. x.0 < y.0) xs
    → IsIncreasing (xs ++ y ∷ [])
IsIncreasing-append-one [] y i a = (tt, tt)
IsIncreasing-append-one (x ∷ xs) y i a =
    (All-append-one (λ z. x.0 < z.0) xs y i.0 a.0, IsIncreasing-append-one xs y i.1 a.1)

pub All-erase_if :
    (P : ℕ × ℕ → Type 0) (p : ℕ × ℕ → Bool) (xs ys : List (ℕ × ℕ))
    → All P (xs ++ ys)
    → All P (xs ++ erase_if p ys)
All-erase_if P p [] [] a = tt
All-erase_if P p [] (y ∷ ys) a = kept (p y) (All-erase_if P p [] ys a.1)
  where
    kept :
        (b : Bool) → All P (erase_if p ys) → All P (if b then erase_if p ys else y ∷ erase_if p ys)
    kept true rest = rest
    kept false rest = (a.0, rest)
All-erase_if P p (x ∷ xs) ys a = (a.0, All-erase_if P p xs ys a.1)

pub IsIncreasing-erase_if :
    (p : ℕ × ℕ → Bool) (xs ys : List (ℕ × ℕ))
    → IsIncreasing (xs ++ ys)
    → IsIncreasing (xs ++ erase_if p ys)
IsIncreasing-erase_if p [] [] i = tt
IsIncreasing-erase_if p [] (y ∷ ys) i =
    kept (p y) (All-erase_if (λ z. y.0 < z.0) p [] ys i.0) (IsIncreasing-erase_if p [] ys i.1)
  where
    kept :
        (b : Bool)
        → All (λ z. y.0 < z.0) (erase_if p ys)
        → IsIncreasing (erase_if p ys)
        → IsIncreasing (if b then erase_if p ys else y ∷ erase_if p ys)
    kept true later rest = rest
    kept false later rest = (later, rest)
IsIncreasing-erase_if p (x ∷ xs) ys i =
    (All-erase_if (λ z. x.0 < z.0) p xs ys i.0, IsIncreasing-erase_if p xs ys i.1)

pub erase_if-all : (xs : List (ℕ × ℕ)) → erase_if (λ x. true) xs ≡ []
erase_if-all [] = refl
erase_if-all (x ∷ xs) = erase_if-all xs

pub waiting-set_finished :
    (id : ℕ) (l : List BufferEntry)
    → waiting (set_finished id l) ≡ erase_if (λ y. y.0 == id) (waiting l)
unfolding set_finished
waiting-set_finished id [] = refl
waiting-set_finished id (e ∷ es) = ground (arith, waiting-set_finished id es)

pub waiting-unsubscribe : (id : ℕ) (l : List BufferEntry) → waiting (unsubscribe id l) ≡ waiting l
unfolding unsubscribe
waiting-unsubscribe id [] = refl
waiting-unsubscribe id (e ∷ es) = ground (arith, waiting-unsubscribe id es)

pub length-set_finished : (id : ℕ) (l : List BufferEntry) → length (set_finished id l) ≡ length l
unfolding set_finished
length-set_finished id [] = refl
length-set_finished id (e ∷ es) = omega (arith, length-set_finished id es)

pub length-unsubscribe : (id : ℕ) (l : List BufferEntry) → length (unsubscribe id l) ≡ length l
unfolding unsubscribe
length-unsubscribe id [] = refl
length-unsubscribe id (e ∷ es) = omega (arith, length-unsubscribe id es)
