-- ===== src/Contract/Claims/Batch.antt =====
-- `claim_many` of contracts/src/settlement.rs pays each user of the batch once.
use xelma_blockchain.Prelude.{
  count, ℕ, ◌+◌, ◌≤◌, ◌≡◌, ◌≢◌, refl, sym, false, List, [], ◌∷◌, map, arith, All,
}
use xelma_blockchain.Int.{ℤ, pos}
use xelma_blockchain.Errors.{ok, Ensures, Ensures-ok, Ensures-bind, Ensures-weaken}
use xelma_blockchain.Contract.State.{Env, require_auth, Storage}
use xelma_blockchain.Contract.Balances.{pending_of, insert_address, sort_addresses}
use xelma_blockchain.Contract.Claims.{claim_pending, claim_each, claim_many, has_repeat}
use xelma_blockchain.Contract.Claims.Wealth.{wealth, Claimed, claim_pending-Claimed}

abbrev pub Absent : ℕ → List ℕ → Type 0
Absent a xs = All (λ x. x ≢ a) xs

-- No address occurs twice.
abbrev pub NoRepeat : List ℕ → Type 0
NoRepeat [] = Unit
NoRepeat (x ∷ xs) = Absent x xs × NoRepeat xs

-- A batch paid: each user's winnings as they stood, all cleared, everybody's money kept.
pub record ClaimedAll (users : List ℕ) (s : Storage) (amounts : List ℤ) (s' : Storage)
    : Type 0 where
  pub pays : amounts ≡ map (pending_of s) users
  pub clears : All (λ u. pending_of s' u ≡ pos 0) users
  pub keeps_wealth : (v : ℕ) → wealth s' v ≡ wealth s v
  pub keeps_pending : (v : ℕ) → Absent v users → pending_of s' v ≡ pending_of s v

pending-rest :
    (user : ℕ) (users : List ℕ) (s s1 : Storage)
    → ((v : ℕ) → v ≢ user → pending_of s1 v ≡ pending_of s v)
    → Absent user users
    → map (pending_of s1) users ≡ map (pending_of s) users
pending-rest user [] s s1 h a = refl
pending-rest user (u ∷ users) s s1 h (ne, a) = rw (h u ne, pending-rest user users s s1 h a)

both :
    (user : ℕ) (users : List ℕ) (s s1 s2 : Storage) (amount : ℤ) (amounts : List ℤ)
    → Absent user users
    → Claimed user s amount s1
    → ClaimedAll users s1 amounts s2
    → ClaimedAll (user ∷ users) s (amount ∷ amounts) s2
both user users s s1 s2 amount amounts a c cs = record {
  pays = rw (c.pays, cs.pays, pending-rest user users s s1 c.keeps_pending a);
  clears = (rw (cs.keeps_pending user a, c.clears), cs.clears);
  keeps_wealth = λ v. rw (cs.keeps_wealth v, c.keeps_wealth v);
  keeps_pending = λ v h. rw (cs.keeps_pending v h.1, c.keeps_pending v (λ e. h.0 (sym e)));
}

claim_each-ClaimedAll :
    (env : Env) (users : List ℕ) (s : Storage)
    → NoRepeat users
    → Ensures (λ (amounts, s'). ClaimedAll users s amounts s') (claim_each env users s)
unfolding claim_each
claim_each-ClaimedAll env [] s d = record {
  pays = refl;
  clears = tt;
  keeps_wealth = λ v. refl;
  keeps_pending = λ v h. refl;
}
claim_each-ClaimedAll env (user ∷ users) s (a, d) =
    Ensures-bind _ (require_auth env user) _ (λ t signed.
      Ensures-bind _ (claim_pending user s) _ (λ (amount, s1) e1.
        Ensures-bind _ (claim_each env users s1) _ (λ (amounts, s2) e2.
          both user users s s1 s2 amount amounts a
            (Ensures-ok _ _ (claim_pending-Claimed user s) e1)
            (Ensures-ok _ _ (claim_each-ClaimedAll env users s1 d) e2))))

count-insert_address : (a b : ℕ) (xs : List ℕ) → count a (insert_address b xs) ≡ count a (b ∷ xs)
unfolding insert_address
count-insert_address a b [] = refl
count-insert_address a b (x ∷ xs) = ground (arith, count-insert_address a b xs)

count-sort_addresses : (a : ℕ) (xs : List ℕ) → count a (sort_addresses xs) ≡ count a xs
unfolding sort_addresses
count-sort_addresses a [] = refl
count-sort_addresses a (x ∷ xs) =
    rw (count-insert_address a x (sort_addresses xs)) (ground (arith, count-sort_addresses a xs))

-- Every element is at least a bound.
abbrev AtLeast : ℕ → List ℕ → Type 0
AtLeast b [] = Unit
AtLeast b (x ∷ xs) = (b ≤ x) × AtLeast b xs

abbrev Sorted : List ℕ → Type 0
Sorted [] = Unit
Sorted (x ∷ xs) = AtLeast x xs × Sorted xs

AtLeast-weaken : (a b : ℕ) (xs : List ℕ) → a ≤ b → AtLeast b xs → AtLeast a xs
AtLeast-weaken a b [] h k = tt
AtLeast-weaken a b (x ∷ xs) h (k, ks) = (omega arith, AtLeast-weaken a b xs h ks)

AtLeast-insert : (a b : ℕ) (xs : List ℕ) → a ≤ b → AtLeast a xs → AtLeast a (insert_address b xs)
unfolding insert_address
AtLeast-insert a b [] h k = (h, tt)
AtLeast-insert a b (x ∷ xs) h (k, ks) = ground (arith, AtLeast-insert a b xs h ks)

insert_address-Sorted : (b : ℕ) (xs : List ℕ) → Sorted xs → Sorted (insert_address b xs)
unfolding insert_address
insert_address-Sorted b [] h = (tt, tt)
insert_address-Sorted b (x ∷ xs) (k, ks) =
    ground (arith, insert_address-Sorted b xs ks, AtLeast-insert x b xs, AtLeast-weaken b x xs)

sort_addresses-Sorted : (xs : List ℕ) → Sorted (sort_addresses xs)
unfolding sort_addresses
sort_addresses-Sorted [] = tt
sort_addresses-Sorted (x ∷ xs) =
    insert_address-Sorted x (sort_addresses xs) (sort_addresses-Sorted xs)

count-below : (a b : ℕ) (xs : List ℕ) → a + 1 ≤ b → AtLeast b xs → count a xs ≡ 0
count-below a b [] h k = refl
count-below a b (x ∷ xs) h (k, ks) = ground (arith, count-below a b xs h ks)

-- In a sorted list whose neighbours differ nothing occurs twice.
count-once : (a : ℕ) (xs : List ℕ) → Sorted xs → has_repeat xs ≡ false → count a xs ≤ 1
unfolding has_repeat
count-once a [] h r = omega arith
count-once a (x ∷ []) h r = ground arith
count-once a (x ∷ y ∷ xs) ((k, ks), hs) r =
    ground (arith, count-once a (y ∷ xs) hs, count-below a y xs)

count-Absent : (a : ℕ) (xs : List ℕ) → count a xs ≡ 0 → Absent a xs
count-Absent a [] h = tt
count-Absent a (x ∷ xs) h = ground (arith, count-Absent a xs)

count-NoRepeat : (xs : List ℕ) → ((a : ℕ) → count a xs ≤ 1) → NoRepeat xs
count-NoRepeat [] h = tt
count-NoRepeat (x ∷ xs) h =
    (ground (arith, count-Absent x xs, h x), count-NoRepeat xs (λ a. ground (arith, h a)))

-- The check of `claim_many` on its sorted copy of the users is a check that nobody is named twice.
sorted-NoRepeat : (users : List ℕ) → has_repeat (sort_addresses users) ≡ false → NoRepeat users
sorted-NoRepeat users h = count-NoRepeat users (λ a.
    rw (sym (count-sort_addresses a users))
      (count-once a (sort_addresses users) (sort_addresses-Sorted users) h))

claim_many-Ensures :
    (env : Env) (users : List ℕ) (s : Storage)
    → Ensures
        (λ (amounts, s'). NoRepeat users × ClaimedAll users s amounts s')
        (claim_many env users s)
unfolding claim_many
claim_many-Ensures env users s = grind (arith, sorted-NoRepeat users, batch)
  where
    batch :
        NoRepeat users
        → Ensures
            (λ (amounts, s'). NoRepeat users × ClaimedAll users s amounts s')
            (claim_each env users s)
    batch d =
        Ensures-weaken (claim_each env users s) (λ r c. (d, c))
          (claim_each-ClaimedAll env users s d)

-- A batch claim that returns names nobody twice; it pays each user the pending winnings that stood at
-- the call, in the order of the batch, and clears them; it changes nobody's balance and pending
-- winnings taken together, and nobody's pending winnings outside the batch.
pub claim_many-ClaimedAll :
    (env : Env) (users : List ℕ) (s : Storage) {amounts : List ℤ} {s' : Storage}
    → claim_many env users s ≡ ok (amounts, s')
    → NoRepeat users × ClaimedAll users s amounts s'
claim_many-ClaimedAll env users s h = Ensures-ok _ _ (claim_many-Ensures env users s) h
