-- ===== src/BufferWrite/Dropping.antt =====
-- buffer_write.h: entries that leave the buffer early, and what `Drop` reports.
use aether_client_cpp.Prelude.{
  ℕ, ◌+◌, ◌≡◌, ◌≢◌, refl, arith, ap, sym, ◌∙◌, subst, ◌==◌, Bool, true, false, if◌then◌else◌, List,
  [], ◌∷◌, ◌++◌, map, All, none, some, append-nil, append_assoc, inl, inr, Option-cases,
}
use aether_client_cpp.Stream.Message.{WriteStatus, fail}
use aether_client_cpp.BufferWrite.{
  BufferEntry, DirectResult, BufferWrite, called, find_entry, set_finished, unsubscribe, pass,
  offer, drain_step, drain_loop, drain_buffer, set_status, on_status, drop_entries, drop_all,
  entry_ids,
}

module _ (capacity : ℕ) (direct_write : ℕ → ℕ → DirectResult) where
  -- If the buffer holds two writes, the first one sent and not finished, the second one finished,
  -- `DrainBuffer` takes the first one out and keeps the second one; a status of the first write
  -- then changes nothing and is reported to no one.
  pub drain_buffer-loses :
      (s : BufferWrite) (a b : BufferEntry) (status : WriteStatus)
      → s.buffer ≡ a ∷ b ∷ []
      → a.id ≢ b.id
      → a.sent ≡ true
      → a.subscribed ≡ true
      → a.finished ≡ false
      → b.finished ≡ true
      → let s' = drain_buffer capacity direct_write s in
        (s'.buffer ≡ b ∷ []) × (on_status capacity direct_write s' a.id status ≡ s')
  unfolding drain_buffer drain_loop drain_step pass on_status find_entry
  drain_buffer-loses s a b status two apart sent follows live gone =
      ground (arith, two, apart, sent, follows, live, gone)

  -- If buffering is off, the buffer holds two writes that wait, and the next direct write accepts
  -- the second one and does not turn buffering on, `Drop` writes the second one, and reports both
  -- as failed.
  pub drop_all-writes :
      (s : BufferWrite) (a b : BufferEntry) (action : ℕ)
      → s.buffer ≡ a ∷ b ∷ []
      → a.id ≢ b.id
      → s.buffer_on ≡ false
      → a.sent ≡ false
      → a.finished ≡ false
      → b.sent ≡ false
      → b.finished ≡ false
      → direct_write s.calls b.payload ≡ record { action = some action; turns_on = false }
      → drop_all capacity direct_write s
        ≡ some (record s {
          buffer = [];
          calls = s.calls + 1;
          written = s.written ++ (b.id, b.payload) ∷ [];
          log = s.log ++ (a.id, fail) ∷ (b.id, fail) ∷ [];
        })
  unfolding drop_all drop_entries drain_buffer drain_loop drain_step pass offer called set_status
      set_finished unsubscribe find_entry
  drop_all-writes s a b action two apart off a_s a_f b_s b_f accepts = ground (
    arith,
    two,
    apart,
    off,
    a_s,
    a_f,
    b_s,
    b_f,
    accepts,
    append_assoc s.log ((a.id, fail) ∷ []) ((b.id, fail) ∷ []),
  )

  -- If buffering is off, the buffer holds three writes, of which the first two wait and the third
  -- one is finished, and the next direct write accepts the second one and does not turn buffering
  -- on, `Drop` goes through an entry that is gone: the status of the first one drains, which takes
  -- out the first and the second one.
  pub drop_all-gone :
      (s : BufferWrite) (a b c : BufferEntry) (action : ℕ)
      → s.buffer ≡ a ∷ b ∷ c ∷ []
      → a.id ≢ b.id
      → a.id ≢ c.id
      → b.id ≢ c.id
      → s.buffer_on ≡ false
      → a.sent ≡ false
      → a.finished ≡ false
      → b.sent ≡ false
      → b.finished ≡ false
      → c.finished ≡ true
      → direct_write s.calls b.payload ≡ record { action = some action; turns_on = false }
      → drop_all capacity direct_write s ≡ none
  unfolding drop_all drop_entries drain_buffer drain_loop drain_step pass offer called set_status
      set_finished unsubscribe find_entry
  drop_all-gone s a b c action three a_b a_c b_c off a_s a_f b_s b_f c_f accepts =
      ground (arith, three, a_b, a_c, b_c, off, a_s, a_f, b_s, b_f, c_f, accepts)

-- Whether a number is in a list.
is_in : ℕ → List ℕ → Bool
is_in id [] = false
is_in id (x ∷ xs) = if x == id then true else is_in id xs

self_in : (l : List ℕ) → All (λ id. is_in id l ≡ true) l
unfolding is_in
self_in [] = tt
self_in (x ∷ xs) = (ground arith, more xs (self_in xs))
  where
    more :
        (ids : List ℕ)
        → All (λ id. is_in id xs ≡ true) ids
        → All (λ id. is_in id (x ∷ xs) ≡ true) ids
    more [] a = tt
    more (y ∷ ys) a = (ground (arith, a.0), more ys a.1)

find_entry-is_in :
    (id : ℕ) (l : List BufferEntry) → is_in id (entry_ids l) ≡ true → find_entry id l ≢ none
unfolding find_entry is_in
find_entry-is_in id [] h = ground arith
find_entry-is_in id (e ∷ es) h = ground (arith, h, find_entry-is_in id es)

entry_ids-dropped :
    (id : ℕ) (l : List BufferEntry) → entry_ids (set_finished id (unsubscribe id l)) ≡ entry_ids l
unfolding set_finished unsubscribe
entry_ids-dropped id [] = refl
entry_ids-dropped id (e ∷ es) = ground (arith, entry_ids-dropped id es)

-- The entries when some of them were dropped.
dropped : List ℕ → List BufferEntry → List BufferEntry
dropped [] l = l
dropped (id ∷ ids) l = dropped ids (set_finished id (unsubscribe id l))

module _ (capacity : ℕ) (direct_write : ℕ → ℕ → DirectResult) where
  drop_entries-held :
      (s : BufferWrite) (ids : List ℕ)
      → s.buffer_on ≡ true
      → All (λ id. is_in id (entry_ids s.buffer) ≡ true) ids
      → drop_entries capacity direct_write s ids
        ≡ some
            (record s { buffer = dropped ids s.buffer; log = s.log ++ map (λ id. (id, fail)) ids })
  unfolding drop_entries dropped set_status
  drop_entries-held s [] on a = ap (λ l. some (record s { log = l })) (sym (append-nil s.log))
  drop_entries-held s (id ∷ ids) on a =
      let s1 : BufferWrite = record s {
        buffer = set_finished id (unsubscribe id s.buffer);
        log = s.log ++ (id, fail) ∷ [];
      } in
      let rest = drop_entries-held s1 ids on (
        subst (λ l. All (λ id. is_in id l ≡ true) ids) (sym (entry_ids-dropped id s.buffer)) a.1) in
      let step : drop_entries capacity direct_write s (id ∷ ids)
          ≡ drop_entries capacity direct_write s1 ids =
        elim (Option-cases (find_entry id s.buffer)) [
          | inl nothing ↦ absurd (find_entry-is_in id s.buffer a.0 nothing)
          | inr (e, at) ↦ rw (at, drop_entries, on, set_status) refl
        ] in
      step
      ∙ rest
      ∙ ap (λ l. some (record s { buffer = dropped ids s1.buffer; log = l }))
          (append_assoc s.log ((id, fail) ∷ []) (map (λ id. (id, fail)) ids))

  -- While buffering is on, `Drop` reports the failure of each write in the buffer, in order and
  -- also of those that were finished, writes nothing, and leaves the buffer empty; it touches no
  -- entry that is gone.
  pub drop_all-held :
      (s : BufferWrite)
      → s.buffer_on ≡ true
      → drop_all capacity direct_write s
        ≡ some
            (record s { buffer = []; log = s.log ++ map (λ id. (id, fail)) (entry_ids s.buffer) })
  unfolding drop_all
  drop_all-held s on =
      rw (drop_all, drop_entries-held s (entry_ids s.buffer) on (self_in (entry_ids s.buffer))) refl
