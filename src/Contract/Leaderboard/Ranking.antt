-- ===== src/Contract/Leaderboard/Ranking.antt =====
-- The bounded indexes of contracts/src/leaderboard.rs: what an update leaves of them.
use xelma_blockchain.Prelude.{
  ℕ, zero, suc, ◌+◌, ◌≤◌, ◌<◌, ◌≡◌, refl, ◌∙◌, ◌⊎◌, inl, inr, true, false, Option, some, List, [],
  ◌∷◌, ◌++◌, take, length, All, count, arith, ◌==◌, if◌then◌else◌, Bool-cases,
}
use xelma_blockchain.Contract.State.{unwrap_or}
use xelma_blockchain.Contract.CashOut.{without}
use xelma_blockchain.Contract.Leaderboard.{
  outranks, insert_ranked, reinsert_sorted, leaderboard_limit, updated_index,
}

module _ (metric : ℕ → ℕ) where
  -- The larger metric first, and the smaller address where they are equal.
  abbrev pub Before : ℕ → ℕ → Type 0
  Before a b = (metric b < metric a) ⊎ ((metric a ≡ metric b) × (a ≤ b))

  abbrev pub Ranked : List ℕ → Type 0
  Ranked [] = Unit
  Ranked (a ∷ rest) = All (Before a) rest × Ranked rest

  outranks-Before : (a b : ℕ) → outranks metric a b ≡ true → Before a b
  unfolding outranks
  outranks-Before a b h = ground arith

  not_outranked-Before : (a b : ℕ) → outranks metric a b ≡ false → Before b a
  unfolding outranks
  not_outranked-Before a b h = ground arith

  Before-trans : (a b c : ℕ) → Before a b → Before b c → Before a c
  Before-trans a b c h k = ground arith

  All-Before : (a b : ℕ) (l : List ℕ) → Before a b → All (Before b) l → All (Before a) l
  All-Before a b [] h k = tt
  All-Before a b (c ∷ l) h (k, ks) = (Before-trans a b c h k, All-Before a b l h ks)

  All-insert_ranked :
      (a b : ℕ) (l : List ℕ)
      → Before a b
      → All (Before a) l
      → All (Before a) (insert_ranked metric b l)
  unfolding insert_ranked
  All-insert_ranked a b [] h k = (h, tt)
  All-insert_ranked a b (c ∷ l) h (k, ks) = elim (Bool-cases (outranks metric b c)) [
    | inl e ↦ rw e (h, (k, ks))
    | inr e ↦ rw e (k, All-insert_ranked a b l h ks)
  ]

  insert_ranked-Ranked : (a : ℕ) (l : List ℕ) → Ranked l → Ranked (insert_ranked metric a l)
  unfolding insert_ranked
  insert_ranked-Ranked a [] h = (tt, tt)
  insert_ranked-Ranked a (b ∷ l) (h, hs) = elim (Bool-cases (outranks metric a b)) [
    | inl e ↦ let first = outranks-Before a b e in rw e ((first, All-Before a b l first h), (h, hs))
    | inr e ↦
        rw e (All-insert_ranked b a l (not_outranked-Before a b e) h, insert_ranked-Ranked a l hs)
  ]

  reinsert_sorted-Ranked : (l xs : List ℕ) → Ranked l → Ranked (reinsert_sorted metric l xs)
  unfolding reinsert_sorted
  reinsert_sorted-Ranked l [] h = h
  reinsert_sorted-Ranked l (x ∷ xs) h =
      reinsert_sorted-Ranked (insert_ranked metric x l) xs (insert_ranked-Ranked x l h)

  count-insert_ranked :
      (v a : ℕ) (l : List ℕ) → count v (insert_ranked metric a l) ≡ count v (a ∷ l)
  unfolding insert_ranked
  count-insert_ranked v a [] = refl
  count-insert_ranked v a (b ∷ l) = elim (Bool-cases (outranks metric a b)) [
    | inl e ↦ rw e refl
    | inr e ↦ rw e (omega (arith, count-insert_ranked v a l))
  ]

  count-reinsert_sorted :
      (v : ℕ) (l xs : List ℕ) → count v (reinsert_sorted metric l xs) ≡ count v l + count v xs
  unfolding reinsert_sorted
  count-reinsert_sorted v l [] = omega arith
  count-reinsert_sorted v l (x ∷ xs) =
      omega
        (arith, count-reinsert_sorted v (insert_ranked metric x l) xs, count-insert_ranked v x l)

-- The user is listed once, and the others as often as they were.
count-candidates :
    (v user : ℕ) (l : List ℕ)
    → count v (without user l ++ user ∷ []) ≡ (if v == user then 1 else count v l)
unfolding without
count-candidates v user [] = ground arith
count-candidates v user (x ∷ l) = ground (arith, count-candidates v user l)

length-take : (n : ℕ) (l : List ℕ) → length (take n l) ≤ n
length-take zero l = omega arith
length-take (suc n) [] = omega arith
length-take (suc n) (x ∷ l) = omega (arith, length-take n l)

count-ranking :
    (metric : ℕ → ℕ) (v : ℕ) (xs : List ℕ) → count v (reinsert_sorted metric [] xs) ≡ count v xs
count-ranking metric v xs = omega (arith, count-reinsert_sorted metric v [] xs)

-- What an update makes of an index.
pub record Updated (metric : ℕ → ℕ) (old : List ℕ) (user : ℕ) (ranking : List ℕ)
    (index : Option (List ℕ)) : Type 0 where
  pub ranked : Ranked metric ranking
  pub once : (v : ℕ) → count v ranking ≡ (if v == user then 1 else count v old)
  pub top : index ≡ some (take leaderboard_limit ranking)
  pub bounded : length (unwrap_or index []) ≤ leaderboard_limit

-- After an update a bounded index holds the first 100 addresses of a ranking, by the metric and then by
-- the address, of the addresses that it held and the user, where the user stands once and the others as
-- often as they stood in it; so it has at most 100 entries.
pub updated_index-Updated :
    (metric : ℕ → ℕ) (index : Option (List ℕ)) (user : ℕ)
    → (ranking : List ℕ) × Updated metric
        (unwrap_or index [])
        user
        ranking
        (updated_index metric index user)
unfolding updated_index
updated_index-Updated metric index user =
    let old = unwrap_or index [] in
    let ranking = reinsert_sorted metric [] (without user old ++ user ∷ []) in
    (
      ranking,
      record {
        ranked = reinsert_sorted-Ranked metric [] (without user old ++ user ∷ []) tt;
        once = λ v.
            count-ranking metric v (without user old ++ user ∷ []) ∙ count-candidates v user old;
        top = refl;
        bounded = length-take leaderboard_limit ranking;
      },
    )
