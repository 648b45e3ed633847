-- ===== src/BufferWrite/Order.antt =====
-- buffer_write.h: what waits in the buffer is written in order, and nothing twice.
use aether_client_cpp.Prelude.{
  ℕ, ◌+◌, ◌≤◌, ◌≡◌, refl, arith, ap, sym, ◌∙◌, subst, Bool, true, false, ◌||◌, if◌then◌else◌, List,
  [], ◌∷◌, ◌++◌, length, drop, append-nil, append_assoc, length-append, inl, inr, Bool-cases,
  Option-cases,
}
use aether_client_cpp.BufferWrite.{
  BufferEntry, DirectResult, BufferWrite, called, Drain, pass, offer, drain_step, drain_loop,
  drain_buffer,
}

-- What waits to be written: neither sent nor finished.
abbrev pub waiting : List BufferEntry → List (ℕ × ℕ)
waiting [] = []
waiting (e ∷ es) = if e.sent || e.finished then waiting es else (e.id, e.payload) ∷ waiting es

pub waiting-append : (xs ys : List BufferEntry) → waiting (xs ++ ys) ≡ waiting xs ++ waiting ys
waiting-append [] ys = refl
waiting-append (x ∷ xs) ys = ground (arith, waiting-append xs ys)

waiting-drop_one : (xs : List BufferEntry) → waiting xs ≡ [] → waiting (drop 1 xs) ≡ []
waiting-drop_one [] w = refl
waiting-drop_one (x ∷ xs) w = ground (arith, w)

length-drop_one : (xs : List BufferEntry) → length (drop 1 xs) ≤ length xs
length-drop_one [] = omega arith
length-drop_one (x ∷ xs) = omega arith

-- While the loop runs, it has left nothing behind that waits.
abbrev pub IsClear : Drain → Type 0
IsClear d = (if d.runs then waiting d.front else []) ≡ []

-- What rounds from `d` to `d'` over the entries `es` keep.
pub record Rounds (d : Drain) (es : List BufferEntry) (d' : Drain) : Type 0 where
  pub same : d'.owner.written ++ waiting d'.front ≡ d.owner.written ++ waiting (d.front ++ es)
  pub shorter : length d'.front ≤ length d.front + length es
  pub next_id : d'.owner.next_id ≡ d.owner.next_id
  pub log : d'.owner.log ≡ d.owner.log

waiting-one :
    (xs : List BufferEntry) (e : BufferEntry)
    → waiting xs ≡ []
    → waiting (xs ++ e ∷ []) ≡ waiting (e ∷ [])
waiting-one xs e w = waiting-append xs (e ∷ []) ∙ ap (λ ys. ys ++ waiting (e ∷ [])) w

offer-Rounds :
    (d : Drain) (e : BufferEntry) (r : DirectResult)
    → e.sent ≡ false
    → e.finished ≡ false
    → waiting d.front ≡ []
    → Rounds d (e ∷ []) (offer d e r) × IsClear (offer d e r)
unfolding offer called
offer-Rounds d e r s f w = elim (Option-cases r.action) [
  | inl nothing ↦
      rw (nothing, offer)
        (
          record {
            same = refl;
            shorter = omega (arith, length-append d.front (e ∷ []));
            next_id = refl;
            log = refl;
          },
          refl,
        )
  | inr (action, at) ↦
      let e' : BufferEntry = record e { sent = true; subscribed = true } in
      let clear : waiting (d.front ++ e' ∷ []) ≡ [] = waiting-one d.front e' w in
      let one : waiting (d.front ++ e ∷ []) ≡ (e.id, e.payload) ∷ [] =
        waiting-one d.front e w ∙ ground (arith, s, f) in
      rw (at, offer)
        (
          record {
            same =
                ap (◌++◌ (d.owner.written ++ (e.id, e.payload) ∷ [])) clear
                ∙ append-nil _
                ∙ sym (ap (◌++◌ d.owner.written) one);
            shorter = omega (arith, length-append d.front (e' ∷ []));
            next_id = refl;
            log = refl;
          },
          clear,
        )
]

abbrev pub Good : Drain → BufferEntry → Drain → Type 0
Good d e d' = Rounds d (e ∷ []) d' × IsClear d'

pass-Good :
    (d : Drain) (e : BufferEntry) (runs : Bool)
    → (if runs then waiting (e ∷ []) else []) ≡ []
    → IsClear (record d { runs = runs })
    → Good d e (record (pass d e) { runs = runs })
unfolding pass
pass-Good d e false w c = (
  record {
    same = refl;
    shorter = omega (arith, length-append d.front (e ∷ []));
    next_id = refl;
    log = refl;
  },
  refl,
)
pass-Good d e true w c = (
  record {
    same = refl;
    shorter = omega (arith, length-append d.front (e ∷ []));
    next_id = refl;
    log = refl;
  },
  waiting-one d.front e c ∙ w,
)

pop-Good :
    (d : Drain) (e : BufferEntry)
    → waiting d.front ≡ []
    → e.finished ≡ true
    → Good d e (record d { front = drop 1 (d.front ++ e ∷ []) })
pop-Good d e w gone =
    let none_left : waiting (d.front ++ e ∷ []) ≡ [] =
      waiting-one d.front e w ∙ ground (arith, gone) in
    let clear : waiting (drop 1 (d.front ++ e ∷ [])) ≡ [] =
      waiting-drop_one (d.front ++ e ∷ []) none_left in
    (
      record {
        same = ap (◌++◌ d.owner.written) (clear ∙ sym none_left);
        shorter =
            omega (arith, length-drop_one (d.front ++ e ∷ []), length-append d.front (e ∷ []));
        next_id = refl;
        log = refl;
      },
      ground (arith, clear),
    )

module _ (capacity : ℕ) (direct_write : ℕ → ℕ → DirectResult) where
  pub drain_step-Good :
      (d : Drain) (e : BufferEntry) → IsClear d → Good d e (drain_step capacity direct_write d e)
  unfolding drain_step pass
  drain_step-Good d e c = elim (Bool-cases d.runs) [
    | inr over ↦ subst (Good d e) (ground (arith, over)) (pass-Good d e false refl refl)
    | inl on ↦
        let w : waiting d.front ≡ [] = ground (arith, on, c) in
        elim (Bool-cases e.finished) [
          | inl gone ↦ subst (Good d e) (ground (arith, on, gone)) (pop-Good d e w gone)
          | inr live ↦ elim (Bool-cases e.sent) [
            | inl sent ↦
                subst (Good d e) (ground (arith, on, live, sent))
                  (pass-Good d e true (ground (arith, sent)) w)
            | inr unsent ↦ elim (Bool-cases d.owner.buffer_on) [
              | inl held ↦
                  subst (Good d e) (ground (arith, on, live, unsent, held))
                    (pass-Good d e false refl refl)
              | inr open_gate ↦
                  subst (Good d e) (ground (arith, on, live, unsent, open_gate))
                    (offer-Rounds d e (direct_write d.owner.calls e.payload) unsent live w)
            ]
          ]
        ]
  ]

Rounds-chain :
    (d d1 d2 : Drain) (e : BufferEntry) (es : List BufferEntry)
    → Rounds d (e ∷ []) d1
    → Rounds d1 es d2
    → Rounds d (e ∷ es) d2
Rounds-chain d d1 d2 e es r r' = record {
  same =
      r'.same
      ∙ ap (◌++◌ d1.owner.written) (waiting-append d1.front es)
      ∙ sym (append_assoc d1.owner.written (waiting d1.front) (waiting es))
      ∙ ap (λ xs. xs ++ waiting es) r.same
      ∙ append_assoc d.owner.written (waiting (d.front ++ e ∷ [])) (waiting es)
      ∙ ap (◌++◌ d.owner.written) (
          sym (waiting-append (d.front ++ e ∷ []) es)
          ∙ ap waiting (append_assoc d.front (e ∷ []) es));
  shorter = omega (arith, r.shorter, r'.shorter);
  next_id = r'.next_id ∙ r.next_id;
  log = r'.log ∙ r.log;
}

module _ (capacity : ℕ) (direct_write : ℕ → ℕ → DirectResult) where
  pub drain_loop-Rounds :
      (d : Drain) (es : List BufferEntry)
      → IsClear d
      → Rounds d es (drain_loop capacity direct_write d es)
  unfolding drain_loop
  drain_loop-Rounds d [] c = record {
    same = ap (λ l. d.owner.written ++ waiting l) (sym (append-nil d.front));
    shorter = omega arith;
    next_id = refl;
    log = refl;
  }
  drain_loop-Rounds d (e ∷ es) c =
      let d1 = drain_step capacity direct_write d e in
      let (r, c1) = drain_step-Good capacity direct_write d e c in
      Rounds-chain d d1 (drain_loop capacity direct_write d1 es) e es r (drain_loop-Rounds d1 es c1)

  pub drain_buffer-waiting :
      (s : BufferWrite)
      → let s' = drain_buffer capacity direct_write s in
        (s'.written ++ waiting s'.buffer ≡ s.written ++ waiting s.buffer)
        × (length s'.buffer ≤ length s.buffer)
        × (s'.next_id ≡ s.next_id)
        × (s'.log ≡ s.log)
  unfolding drain_buffer
  drain_buffer-waiting s =
      let r = drain_loop-Rounds (record { owner = s; front = []; runs = true }) s.buffer refl in
      (r.same, omega (arith, r.shorter), r.next_id, r.log)
