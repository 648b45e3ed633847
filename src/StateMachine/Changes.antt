-- ===== src/StateMachine/Changes.antt =====
-- state_machine.h: what a row of calls of `Set` tells.
use aether_client_cpp.Prelude.{
  ℕ, ◌≡◌, refl, arith, sym, ◌∙◌, ◌==◌, Bool, true, false, ◌||◌, if◌then◌else◌, List, [], ◌∷◌, ◌++◌,
  append-nil, append_assoc, Bool-cases, inl, inr,
}
use aether_client_cpp.StateMachine.{StateMachine, acquire, set}

unfoldable pub set_all : StateMachine → List ℕ → StateMachine
set_all m [] = m
set_all m (v ∷ vs) = set_all (set m v) vs

-- The values of a row that differ from the one before them.
unfoldable pub changes : ℕ → List ℕ → List ℕ
changes last [] = []
changes last (v ∷ vs) = if last == v then changes last vs else v ∷ changes v vs

unfoldable pub last_of : ℕ → List ℕ → ℕ
last_of last [] = last
last_of last (v ∷ vs) = last_of v vs

unfoldable pub is_any : List ℕ → Bool
is_any [] = false
is_any (v ∷ vs) = true

set_all_lem :
    (m : StateMachine) (vs : List ℕ)
    → ((set_all m vs).log ≡ m.log ++ changes m.state vs)
      × ((set_all m vs).state ≡ last_of m.state vs)
      × ((set_all m vs).changed ≡ (m.changed || is_any (changes m.state vs)))
unfolding set_all changes last_of is_any set
set_all_lem m [] = (sym (append-nil m.log), refl, ground arith)
set_all_lem m (v ∷ vs) = elim (Bool-cases (m.state == v)) [
  | inl same ↦
      rw (same, set, set_all) (let (l, s, c) = set_all_lem m vs in (l, ground (arith, s, same), c))
  | inr other ↦
      rw (other, set, set_all)
        (let (l, s, c) =
            set_all_lem (record { changed = true; state = v; log = m.log ++ v ∷ [] }) vs in
          (l ∙ append_assoc m.log (v ∷ []) (changes v vs), s, ground (arith, c)))
]

-- After `Acquire` and any row of calls of `Set`, the changed event has carried just the values that
-- differ from the one before them, the state is the last value, and the machine counts as changed
-- exactly if the event was emitted.
pub set_all-acquire :
    (m : StateMachine) (vs : List ℕ)
    → let m' = set_all (acquire m).0 vs in
      (m'.log ≡ m.log ++ changes (acquire m).1 vs)
      × (m'.state ≡ last_of (acquire m).1 vs)
      × (m'.changed ≡ is_any (changes (acquire m).1 vs))
unfolding acquire
set_all-acquire m vs = set_all_lem (record m { changed = false }) vs
