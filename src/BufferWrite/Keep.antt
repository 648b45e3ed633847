-- ===== src/BufferWrite/Keep.antt =====
-- buffer_write.h: each operation keeps the writes in order and the buffer within its capacity.
use aether_client_cpp.Prelude.{
  ℕ, ◌+◌, ◌≤◌, ◌<◌, ◌≡◌, refl, arith, ap, sym, ◌∙◌, subst, ◌==◌, Bool, true, false, not, ◌||◌,
  if◌then◌else◌, List, [], ◌∷◌, ◌++◌, length, All, erase_if, Option, none, some, append-nil,
  append_assoc, length-append, inl, inr, Bool-cases, Option-cases,
}
use aether_client_cpp.Stream.Message.{WriteStatus, fail, stop}
use aether_client_cpp.BufferWrite.{
  BufferEntry, DirectResult, BufferWrite, called, find_entry, set_finished, unsubscribe,
  drain_buffer, turn_off, set_status, on_status, stop_entry, write_to_buffer, direct_written, write,
  drop_entries, drop_all, entry_ids,
}
use aether_client_cpp.BufferWrite.Order.{waiting, waiting-append, drain_buffer-waiting}
use aether_client_cpp.BufferWrite.Numbers.{
  IsIncreasing, All-below, All-append-one, IsIncreasing-append-one, All-erase_if,
  IsIncreasing-erase_if, erase_if-all, waiting-set_finished, waiting-unsubscribe,
  length-set_finished, length-unsubscribe,
}

-- What was written and what waits, with the number of the next write.
pub record IsWell (capacity : ℕ) (s : BufferWrite) : Type 0 where
  pub increasing : IsIncreasing (s.written ++ waiting s.buffer)
  pub below : All (λ y. y.0 < s.next_id) (s.written ++ waiting s.buffer)
  pub fits : length s.buffer ≤ capacity

-- What keeps the numbers in order: the same, one more, or some that do not wait any more.
pub IsWell-same :
    {capacity : ℕ} (s s' : BufferWrite)
    → s'.written ++ waiting s'.buffer ≡ s.written ++ waiting s.buffer
    → s'.next_id ≡ s.next_id
    → length s'.buffer ≤ length s.buffer
    → IsWell capacity s
    → IsWell capacity s'
IsWell-same s s' same id shorter i = record {
  increasing = subst IsIncreasing (sym same) i.increasing;
  below =
      subst (λ n. All (λ y. y.0 < n) (s'.written ++ waiting s'.buffer)) (sym id)
        (subst (All (λ y. y.0 < s.next_id)) (sym same) i.below);
  fits = omega (arith, shorter, i.fits);
}

pub IsWell-more :
    {capacity : ℕ} (s s' : BufferWrite) (payload : ℕ)
    → s'.written ++ waiting s'.buffer ≡ (s.written ++ waiting s.buffer) ++ (s.next_id, payload) ∷ []
    → s'.next_id ≡ s.next_id + 1
    → length s'.buffer ≤ capacity
    → IsWell capacity s
    → IsWell capacity s'
IsWell-more s s' payload more id fits i =
    let old = s.written ++ waiting s.buffer in
    let one : ℕ × ℕ = (s.next_id, payload) in
    let below : All (λ y. y.0 < s.next_id + 1) (old ++ one ∷ []) =
      All-append-one (λ y. y.0 < s.next_id + 1) old one
        (All-below s.next_id (s.next_id + 1) old (omega arith) i.below) (omega arith) in
    record {
      increasing =
          subst IsIncreasing (sym more) (IsIncreasing-append-one old one i.increasing i.below);
      below =
          subst (λ n. All (λ y. y.0 < n) (s'.written ++ waiting s'.buffer)) (sym id)
            (subst (All (λ y. y.0 < s.next_id + 1)) (sym more) below);
      fits = fits;
    }

pub IsWell-fewer :
    {capacity : ℕ} (p : ℕ × ℕ → Bool) (s : BufferWrite) (buffer : List BufferEntry)
    (log : List (ℕ × WriteStatus))
    → waiting buffer ≡ erase_if p (waiting s.buffer)
    → length buffer ≤ length s.buffer
    → IsWell capacity s
    → IsWell capacity (record s { buffer = buffer; log = log })
IsWell-fewer p s buffer log fewer shorter i = record {
  increasing =
      subst (λ xs. IsIncreasing (s.written ++ xs)) (sym fewer)
        (IsIncreasing-erase_if p s.written (waiting s.buffer) i.increasing);
  below =
      subst (λ xs. All (λ y. y.0 < s.next_id) (s.written ++ xs)) (sym fewer)
        (All-erase_if (λ y. y.0 < s.next_id) p s.written (waiting s.buffer) i.below);
  fits = omega (arith, shorter, i.fits);
}

abbrev pub WellIfSome : ℕ → Option BufferWrite → Type 0
WellIfSome capacity none = Unit
WellIfSome capacity (some s) = IsWell capacity s

module _ (capacity : ℕ) (direct_write : ℕ → ℕ → DirectResult) where
  pub drain_buffer-IsWell :
      (s : BufferWrite) → IsWell capacity s → IsWell capacity (drain_buffer capacity direct_write s)
  drain_buffer-IsWell s i =
      let (same, shorter, id, log) = drain_buffer-waiting capacity direct_write s in
      IsWell-same s (drain_buffer capacity direct_write s) same id shorter i

  pub set_status-IsWell :
      (s : BufferWrite) (id : ℕ) (status : WriteStatus)
      → IsWell capacity s
      → IsWell capacity (set_status capacity direct_write s id status)
  unfolding set_status
  set_status-IsWell s id status i =
      let s1 : BufferWrite = record s {
        log = s.log ++ (id, status) ∷ [];
        buffer = set_finished id s.buffer;
      } in
      let i1 : IsWell capacity s1 =
        IsWell-fewer (λ y. y.0 == id) s (set_finished id s.buffer) s1.log
          (waiting-set_finished id s.buffer) (omega (arith, length-set_finished id s.buffer)) i in
      drained s.buffer_on s1 i1
    where
      drained :
          (b : Bool) (s1 : BufferWrite)
          → IsWell capacity s1
          → IsWell capacity (if b then s1 else drain_buffer capacity direct_write s1)
      drained true s1 i1 = i1
      drained false s1 i1 = drain_buffer-IsWell s1 i1

  pub on_status-IsWell :
      (s : BufferWrite) (id : ℕ) (status : WriteStatus)
      → IsWell capacity s
      → IsWell capacity (on_status capacity direct_write s id status)
  unfolding on_status
  on_status-IsWell s id status i = found (find_entry id s.buffer)
    where
      found :
          (r : Option BufferEntry)
          → IsWell capacity (elim r [
            | none ↦ s
            | some e ↦ if e.subscribed then set_status capacity direct_write s id status else s
          ])
      found none = i
      found (some e) = elim (Bool-cases e.subscribed) [
        | inl y ↦ rw y (set_status-IsWell s id status i)
        | inr n ↦ rw n i
      ]

  pub stop_entry-IsWell :
      (s : BufferWrite) (id : ℕ)
      → IsWell capacity s
      → IsWell capacity (stop_entry capacity direct_write s id)
  unfolding stop_entry
  stop_entry-IsWell s id i = found (find_entry id s.buffer)
    where
      found :
          (r : Option BufferEntry)
          → IsWell capacity (elim r [
            | none ↦ s
            | some e ↦ if e.subscribed then s else set_status capacity direct_write s id stop
          ])
      found none = i
      found (some e) = elim (Bool-cases e.subscribed) [
        | inl y ↦ rw y i
        | inr n ↦ rw n (set_status-IsWell s id stop i)
      ]

  pub turn_off-IsWell :
      (s : BufferWrite) → IsWell capacity s → IsWell capacity (turn_off capacity direct_write s)
  unfolding turn_off
  turn_off-IsWell s i =
      let s1 : BufferWrite = record s { buffer_on = false } in
      drain_buffer-IsWell s1 (IsWell-same s s1 refl refl (omega arith) i)

  -- A write that is buffered, and one that is not.
  pub write_to_buffer-IsWell :
      (s : BufferWrite) (payload : ℕ)
      → IsWell capacity s
      → IsWell capacity (write_to_buffer capacity direct_write s payload).0
  unfolding write_to_buffer
  write_to_buffer-IsWell s payload i =
      let e : BufferEntry = record {
        id = s.next_id;
        payload = payload;
        sent = false;
        subscribed = false;
        finished = false;
      } in
      elim (Bool-cases (length s.buffer == capacity)) [
        | inl full ↦ rw full i
        | inr room ↦ rw room (
            IsWell-more s _ payload
              (ap (◌++◌ s.written) (waiting-append s.buffer (e ∷ []))
                ∙ sym (append_assoc s.written (waiting s.buffer) ((s.next_id, payload) ∷ [])))
              refl (ground (arith, length-append s.buffer (e ∷ []), room, i.fits)) i)
      ]

  pub direct_written-IsWell :
      (s : BufferWrite) (payload : ℕ) (r : DirectResult)
      → s.buffer ≡ []
      → IsWell capacity s
      → IsWell capacity (direct_written capacity direct_write s payload r).0
  unfolding direct_written called
  direct_written-IsWell s payload r empty i = elim (Option-cases r.action) [
    | inl nothing ↦ rw (nothing, direct_written) (IsWell-same s _ refl refl (omega arith) i)
    | inr (action, at) ↦
        rw (at, direct_written)
          (IsWell-more s _ payload
            (let none_wait : waiting s.buffer ≡ [] = ap waiting empty in
              ap (◌++◌ (s.written ++ (s.next_id, payload) ∷ [])) none_wait
              ∙ append-nil _
              ∙ ap (λ xs. xs ++ (s.next_id, payload) ∷ [])
                  (sym (ap (◌++◌ s.written) none_wait ∙ append-nil _)))
            refl i.fits i)
  ]

  pub write-IsWell :
      (s : BufferWrite) (payload : ℕ)
      → IsWell capacity s
      → IsWell capacity (write capacity direct_write s payload).0
  unfolding write
  write-IsWell s payload i = elim (Bool-cases (s.buffer_on || not (length s.buffer == 0))) [
    | inl held ↦ rw held (write_to_buffer-IsWell s payload i)
    | inr through ↦ rw through (
        direct_written-IsWell s payload (direct_write s.calls payload)
          (empty s.buffer (ground (arith, through))) i)
  ]
    where
      empty : (l : List BufferEntry) → length l ≡ 0 → l ≡ []
      empty [] h = refl
      empty (e ∷ es) h = absurd (omega (arith, h))

  pub drop_entries-IsWell :
      (s : BufferWrite) (ids : List ℕ)
      → IsWell capacity s
      → WellIfSome capacity (drop_entries capacity direct_write s ids)
  unfolding drop_entries
  drop_entries-IsWell s [] i = i
  drop_entries-IsWell s (id ∷ ids) i =
      let s1 : BufferWrite = record s { buffer = unsubscribe id s.buffer } in
      let i1 : IsWell capacity s1 =
        IsWell-same s s1 (ap (◌++◌ s.written) (waiting-unsubscribe id s.buffer)) refl
          (omega (arith, length-unsubscribe id s.buffer)) i in
      found (find_entry id s.buffer) _ (
        drop_entries-IsWell (set_status capacity direct_write s1 id fail) ids
          (set_status-IsWell s1 id fail i1))
    where
      found :
          (r : Option BufferEntry) (rest : Option BufferWrite)
          → WellIfSome capacity rest
          → WellIfSome capacity (elim r [ none ↦ none | some e ↦ rest ])
      found none rest w = tt
      found (some e) rest w = w

  pub drop_all-IsWell :
      (s : BufferWrite) {s' : BufferWrite}
      → drop_all capacity direct_write s ≡ some s'
      → IsWell capacity s
      → IsWell capacity s'
  unfolding drop_all
  drop_all-IsWell s h i = subst (WellIfSome capacity) h (
      cleared (drop_entries capacity direct_write s (entry_ids s.buffer))
        (drop_entries-IsWell s (entry_ids s.buffer) i))
    where
      cleared :
          (r : Option BufferWrite)
          → WellIfSome capacity r
          → WellIfSome capacity
              (elim r [ none ↦ none | some s1 ↦ some (record s1 { buffer = [] }) ])
      cleared none w = tt
      cleared (some s1) w =
          IsWell-fewer (λ y. true) s1 [] s1.log (sym (erase_if-all (waiting s1.buffer)))
            (omega arith) w
