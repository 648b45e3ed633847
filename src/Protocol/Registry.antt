-- ===== src/Protocol/Registry.antt =====
-- protocol_context.cpp: `TakePending` on the entries of the registry.
use aether_client_cpp.Prelude.{
  ℕ, suc, ◌+◌, ◌≡◌, refl, arith, ◌==◌, if◌then◌else◌, false, List, [], ◌∷◌, ◌++◌, none, some,
  length, count,
}
use aether_client_cpp.Protocol.{PendingEntry, find_entry, erase_entry}

abbrev pub responses : List PendingEntry → List ℕ
responses [] = []
responses (e ∷ es) = e.response ∷ responses es

abbrev pub requests : List PendingEntry → List ℕ
requests [] = []
requests (e ∷ es) = e.request_id ∷ requests es

pub length-erase_entry :
    (id : ℕ) (es : List PendingEntry) (e : PendingEntry)
    → find_entry id es ≡ some e
    → suc (length (erase_entry id es)) ≡ length es
unfolding find_entry erase_entry
length-erase_entry id [] e h = cc
length-erase_entry id (x ∷ es) e h = ground (arith, length-erase_entry id es e)

pub responses-erase_entry :
    (id r : ℕ) (es : List PendingEntry) (e : PendingEntry)
    → find_entry id es ≡ some e
    → count r (e.response ∷ responses (erase_entry id es)) ≡ count r (responses es)
unfolding find_entry erase_entry count
responses-erase_entry id r [] e h = cc
responses-erase_entry id r (x ∷ es) e h = ground (arith, responses-erase_entry id r es e)

pub erase_entry-none :
    (id : ℕ) (es : List PendingEntry) → find_entry id es ≡ none → erase_entry id es ≡ es
unfolding find_entry erase_entry
erase_entry-none id [] h = refl
erase_entry-none id (x ∷ es) h = ground (arith, erase_entry-none id es)

pub count-erase_entry_other :
    (id k : ℕ) (es : List PendingEntry)
    → (k == id) ≡ false
    → count k (requests (erase_entry id es)) ≡ count k (requests es)
unfolding erase_entry count
count-erase_entry_other id k [] h = refl
count-erase_entry_other id k (x ∷ es) h = ground (arith, count-erase_entry_other id k es h)

pub responses-append :
    (r : ℕ) (es : List PendingEntry) (e : PendingEntry)
    → count r (responses (es ++ e ∷ []))
      ≡ count r (responses es) + (if e.response == r then 1 else 0)
unfolding count
responses-append r [] e = ground arith
responses-append r (x ∷ es) e = ground (arith, responses-append r es e)
