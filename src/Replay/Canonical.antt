-- ===== src/Replay/Canonical.antt =====
-- A canonicalised transcript (replay-engine/src/transcript.rs) passes the checks of its schema.
use native.Mathlib.Nat.{mod-eq_of_lt}
use xelma_blockchain.Prelude.{
  ℕ, suc, ◌+◌, ◌≤◌, ◌<◌, ◌≡◌, inl, inr, refl, ap, ◌∙◌, false, List, [], ◌∷◌, map, length, count,
  arith, leb, ==_refl, Bool-cases,
}
use xelma_blockchain.Machine.{u32_mod}
use xelma_blockchain.Replay.Transcript.{
  TranscriptParticipant, RoundTranscript, done, transcript_schema_version, order_check,
  validate_schema, is_empty, insert_by_index, sort_by_index, canonicalize_participants,
}

abbrev pub indices : List TranscriptParticipant → List ℕ
indices ps = map (λ p. p.index) ps

-- Each row's index is no smaller than those before it.
abbrev From : ℕ → List TranscriptParticipant → Type 0
From k [] = Unit
From k (p ∷ ps) = (k ≤ p.index) × From p.index ps

From-weaken : (j k : ℕ) (ps : List TranscriptParticipant) → j ≤ k → From k ps → From j ps
From-weaken j k [] h f = tt
From-weaken j k (p ∷ ps) h (f, fs) = (omega arith, fs)

insert_by_index-From :
    (k : ℕ) (p : TranscriptParticipant) (qs : List TranscriptParticipant)
    → k ≤ p.index
    → From k qs
    → From k (insert_by_index p qs)
unfolding insert_by_index
insert_by_index-From k p [] h f = (h, tt)
insert_by_index-From k p (q ∷ qs) h (f, fs) = elim (Bool-cases (leb p.index q.index)) [
  | inl e ↦ rw e (h, (ground arith, fs))
  | inr e ↦ rw e (f, insert_by_index-From q.index p qs (ground arith) fs)
]

sort_by_index-From : (ps : List TranscriptParticipant) → From 0 (sort_by_index ps)
unfolding sort_by_index
sort_by_index-From [] = tt
sort_by_index-From (p ∷ ps) =
    insert_by_index-From 0 p (sort_by_index ps) (omega arith) (sort_by_index-From ps)

length-insert_by_index :
    (p : TranscriptParticipant) (qs : List TranscriptParticipant)
    → length (insert_by_index p qs) ≡ suc (length qs)
unfolding insert_by_index
length-insert_by_index p [] = refl
length-insert_by_index p (q ∷ qs) = ground (arith, length-insert_by_index p qs)

pub length-sort_by_index : (ps : List TranscriptParticipant) → length (sort_by_index ps) ≡ length ps
unfolding sort_by_index
length-sort_by_index [] = refl
length-sort_by_index (p ∷ ps) =
    length-insert_by_index p (sort_by_index ps) ∙ ap suc (length-sort_by_index ps)

count-insert_by_index :
    (i : ℕ) (p : TranscriptParticipant) (qs : List TranscriptParticipant)
    → count i (indices (insert_by_index p qs)) ≡ count i (indices (p ∷ qs))
unfolding insert_by_index
count-insert_by_index i p [] = refl
count-insert_by_index i p (q ∷ qs) = elim (Bool-cases (leb p.index q.index)) [
  | inl e ↦ rw e refl
  | inr e ↦ rw e (omega (arith, count-insert_by_index i p qs))
]

count-sort_by_index :
    (i : ℕ) (ps : List TranscriptParticipant)
    → count i (indices (sort_by_index ps)) ≡ count i (indices ps)
unfolding sort_by_index
count-sort_by_index i [] = refl
count-sort_by_index i (p ∷ ps) =
    omega (arith, count-insert_by_index i p (sort_by_index ps), count-sort_by_index i ps)

-- An index below all of them does not occur.
count-From :
    (i k : ℕ) (ps : List TranscriptParticipant) → i < k → From k ps → count i (indices ps) ≡ 0
count-From i k [] h f = refl
count-From i k (p ∷ ps) h (f, fs) = ground (arith, count-From i p.index ps)

-- Rising indices from `k` on, each of the next ones once, are the numbers from `k` on.
order_check-From :
    (k : ℕ) (ps : List TranscriptParticipant)
    → From k ps
    → ((i : ℕ) → k ≤ i → i < k + length ps → count i (indices ps) ≡ 1)
    → order_check k ps ≡ done tt
unfolding order_check
order_check-From k [] f once = refl
order_check-From k (p ∷ ps) (f, fs) once =
    let here : count k (indices (p ∷ ps)) ≡ 1 = once k (omega arith) (omega arith) in
    let first = first_is k p ps f fs here in
    rw (first, ==_refl k)
      (order_check-From (suc k) ps (rest_from k p ps first fs here)
        (λ i h lt. ground (arith, once i)))
  where
    first_is :
        (k : ℕ) (p : TranscriptParticipant) (ps : List TranscriptParticipant)
        → k ≤ p.index
        → From p.index ps
        → count k (indices (p ∷ ps)) ≡ 1
        → p.index ≡ k
    first_is k p ps f fs here = ground (arith, count-From k p.index ps)

    rest_from :
        (k : ℕ) (p : TranscriptParticipant) (ps : List TranscriptParticipant)
        → p.index ≡ k
        → From p.index ps
        → count k (indices (p ∷ ps)) ≡ 1
        → From (suc k) ps
    rest_from k p [] e fs here = tt
    rest_from k p (q ∷ qs) e (f, fs) here = (ground arith, fs)

-- A transcript of the current schema with at least one row and fewer than 2^32, in any order, whose
-- indices are the numbers below the number of its rows, each once: canonicalised, it passes validation, and
-- it has as many rows of each index as before.
pub canonicalize_participants-validates :
    (t : RoundTranscript)
    → t.schema_version ≡ transcript_schema_version
    → 0 < length t.participants
    → length t.participants < u32_mod
    → ((i : ℕ) → i < length t.participants → count i (indices t.participants) ≡ 1)
    → (validate_schema (canonicalize_participants t) ≡ done tt)
      × ((i : ℕ)
          → count i (indices (canonicalize_participants t).participants)
            ≡ count i (indices t.participants))
unfolding canonicalize_participants validate_schema
canonicalize_participants-validates t version some_row fits once = (
  rw (version, listed (sort_by_index t.participants) (rw length-sort_by_index some_row))
      (rw
        (order_check-From 0 (sort_by_index t.participants) (sort_by_index-From t.participants) each)
        (rw
          (length-sort_by_index t.participants, mod-eq_of_lt fits, ==_refl (length t.participants))
          refl)),
  λ i. count-sort_by_index i t.participants,
)
  where
    listed : (ps : List TranscriptParticipant) → 0 < length ps → is_empty ps ≡ false
    listed [] h = absurd (omega arith)
    listed (p ∷ ps) h = refl

    each :
        (i : ℕ)
        → 0 ≤ i
        → i < 0 + length (sort_by_index t.participants)
        → count i (indices (sort_by_index t.participants)) ≡ 1
    each i z h =
        count-sort_by_index i t.participants
        ∙ once i (omega (arith, length-sort_by_index t.participants))
