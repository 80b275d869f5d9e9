-- ===== src/SettlementMath/Oracle/Sorting.antt =====
-- `sort_prices_in_place` of contracts/src/settlement_math.rs sorts: the loop over the slice inserts each
-- price into the sorted prices before it.
use xelma_blockchain.Prelude.{
  ℕ, suc, ◌+◌, ◌-◌, ◌≤◌, ◌≡◌, refl, sym, ap, ◌∙◌, Bool, true, false, List, [], ◌∷◌, length, set,
  count, arith, ltb, if◌then◌else◌,
}
use xelma_blockchain.SettlementMath.Oracle.{price_at, shift_key, sort_from, sort_prices_in_place}

-- The slice as the loop sees it: the prices before an index, the last of them first, and the others.
abbrev onto : List ℕ → List ℕ → List ℕ
onto [] rest = rest
onto (p ∷ before) rest = onto before (p ∷ rest)

-- The key put in its place among the sorted prices before it.
abbrev place : ℕ → List ℕ → List ℕ
place key [] = key ∷ []
place key (p ∷ before) =
    let placed = place key before in if ltb key p then p ∷ placed else key ∷ p ∷ before

abbrev place_all : List ℕ → List ℕ → List ℕ
place_all before [] = before
place_all before (x ∷ rest) = place_all (place x before) rest

price_at-onto :
    (before rest : List ℕ) (k i : ℕ)
    → i ≡ length before + k
    → price_at (onto before rest) i ≡ price_at rest k
price_at-onto [] rest k i h = ap (price_at rest) (omega (arith, h))
price_at-onto (p ∷ before) rest k i h = price_at-onto before (p ∷ rest) (suc k) i (omega (arith, h))

set-onto :
    (before rest : List ℕ) (k i v : ℕ)
    → i ≡ length before + k
    → set (onto before rest) i v ≡ onto before (set rest k v)
set-onto [] rest k i v h = ap (λ j. set rest j v) (omega (arith, h))
set-onto (p ∷ before) rest k i v h = set-onto before (p ∷ rest) (suc k) i v (omega (arith, h))

-- The inner loop puts the key in its place, whatever the slice holds at the key's index.
shift_key-place :
    (key : ℕ) (before : List ℕ) (x : ℕ) (rest : List ℕ)
    → shift_key key (onto before (x ∷ rest)) (length before) ≡ onto (place key before) rest
unfolding shift_key
shift_key-place key [] x rest = refl
shift_key-place key (p ∷ before) x rest =
    rw
      (
        price_at-onto before (p ∷ x ∷ rest) 0 (length before) (omega arith),
        set-onto before (p ∷ x ∷ rest) 1 (suc (length before)) p (omega arith),
        set-onto before (p ∷ x ∷ rest) 1 (suc (length before)) key (omega arith),
        shift_key-place key before p (p ∷ rest),
      )
      (branch (ltb key p))
  where
    branch :
        (b : Bool)
        → (if b then onto (place key before) (p ∷ rest) else onto before (p ∷ key ∷ rest))
          ≡ onto (if b then p ∷ place key before else key ∷ p ∷ before) rest
    branch true = refl
    branch false = refl

length-place : (key : ℕ) (before : List ℕ) → length (place key before) ≡ suc (length before)
length-place key [] = refl
length-place key (p ∷ before) = ground (arith, length-place key before)

sort_from-place_all :
    (before rest : List ℕ) (i : ℕ)
    → i ≡ length before
    → sort_from (length rest) i (onto before rest) ≡ onto (place_all before rest) []
unfolding sort_from
sort_from-place_all before [] i h = refl
sort_from-place_all before (x ∷ rest) i h =
    ap (sort_from (length rest) (suc i)) one_round
    ∙ sort_from-place_all (place x before) rest (suc i) (ap suc h ∙ sym (length-place x before))
  where
    one_round :
        shift_key (price_at (onto before (x ∷ rest)) i) (onto before (x ∷ rest)) i
        ≡ onto (place x before) rest
    one_round =
        ap (λ key. shift_key key (onto before (x ∷ rest)) i)
          (price_at-onto before (x ∷ rest) 0 i (omega (arith, h)))
        ∙ (ap (shift_key x (onto before (x ∷ rest))) h ∙ shift_key-place x before x rest)

-- Falling from the front, and rising.
abbrev Falling : List ℕ → Type 0
Falling [] = Unit
Falling (x ∷ []) = Unit
Falling (x ∷ y ∷ xs) = (y ≤ x) × Falling (y ∷ xs)

abbrev pub Sorted : List ℕ → Type 0
Sorted [] = Unit
Sorted (x ∷ []) = Unit
Sorted (x ∷ y ∷ xs) = (x ≤ y) × Sorted (y ∷ xs)

place-Falling : (key : ℕ) (before : List ℕ) → Falling before → Falling (place key before)
place-Falling key [] h = tt
place-Falling key (p ∷ []) h = ground arith
place-Falling key (p ∷ q ∷ before) (h, hs) = ground (arith, place-Falling key (q ∷ before) hs)

place_all-Falling : (before rest : List ℕ) → Falling before → Falling (place_all before rest)
place_all-Falling before [] h = h
place_all-Falling before (x ∷ rest) h =
    place_all-Falling (place x before) rest (place-Falling x before h)

onto-Sorted :
    (p : ℕ) (before rest : List ℕ)
    → Falling (p ∷ before)
    → Sorted (p ∷ rest)
    → Sorted (onto (p ∷ before) rest)
onto-Sorted p [] rest h k = k
onto-Sorted p (q ∷ before) rest (h, hs) k = onto-Sorted q before (p ∷ rest) hs (h, k)

risen-Sorted : (before : List ℕ) → Falling before → Sorted (onto before [])
risen-Sorted [] h = tt
risen-Sorted (p ∷ before) h = onto-Sorted p before [] h tt

count-place : (a key : ℕ) (before : List ℕ) → count a (place key before) ≡ count a (key ∷ before)
count-place a key [] = refl
count-place a key (p ∷ before) = ground (arith, count-place a key before)

count-onto :
    (a : ℕ) (before rest : List ℕ) → count a (onto before rest) ≡ count a before + count a rest
count-onto a [] rest = omega arith
count-onto a (p ∷ before) rest = omega (arith, count-onto a before (p ∷ rest))

count-place_all :
    (a : ℕ) (before rest : List ℕ) → count a (place_all before rest) ≡ count a before + count a rest
count-place_all a before [] = omega arith
count-place_all a before (x ∷ rest) =
    omega (arith, count-place_all a (place x before) rest, count-place a x before)

-- The sort leaves the prices in rising order, each as often as it was there.
pub sort_prices_in_place-Sorted :
    (prices : List ℕ)
    → Sorted (sort_prices_in_place prices)
      × ((price : ℕ) → count price (sort_prices_in_place prices) ≡ count price prices)
unfolding sort_prices_in_place sort_from
sort_prices_in_place-Sorted [] = (tt, λ price. refl)
sort_prices_in_place-Sorted (x ∷ prices) =
    rw (rounds, sort_from-place_all (x ∷ []) prices 1 refl)
      (
        risen-Sorted (place_all (x ∷ []) prices) (place_all-Falling (x ∷ []) prices tt),
        λ price. ground (
          arith,
          count-onto price (place_all (x ∷ []) prices) [],
          count-place_all price (x ∷ []) prices,
        ),
      )
  where
    rounds : suc (length prices) - 1 ≡ length prices
    rounds = omega arith
