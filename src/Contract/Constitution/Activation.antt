-- ===== src/Contract/Constitution/Activation.antt =====
-- Amendments that cannot be activated any more (contracts/src/governance.rs).
use xelma_blockchain.Prelude.{
  ℕ, ◌<◌, ◌≡◌, ◌≢◌, refl, sym, ◌∙◌, true, false, not, some, leb, ltb, arith,
}
use xelma_blockchain.Errors.{ok, Ensures, Ensures-ok, Ensures-bind, Ensures-ok_or, Ensures-if}
use xelma_blockchain.Contract.State.{put-same, Env, Storage, Amendment, AmendmentStatus}
use xelma_blockchain.Contract.Constitution.{
  is_pending, amendment_auth, activate_amendment, get_amendment,
}

-- Only a pending amendment is activated, and only one past its deadline.
abbrev pub IsActivatable : Env → ℕ → Storage → Type 0
IsActivatable env amendment_id s =
    (a : Amendment) × (s.governance.amendments amendment_id ≡ some a)
    × (is_pending a.status ≡ true)
    × (a.activation_deadline_ledger < env.sequence)

activate-Ensures :
    (env : Env) (user amendment_id : ℕ) (s : Storage)
    → Ensures (λ s'. IsActivatable env amendment_id s) (activate_amendment env user amendment_id s)
unfolding activate_amendment
activate-Ensures env user amendment_id s = Ensures-bind _ (amendment_auth env user s) _ (λ _ _.
    Ensures-ok_or _ (s.governance.amendments amendment_id) _ _ (λ a found.
      Ensures-if _ (leb env.sequence a.activation_deadline_ledger) _ _ (λ z. tt)
        (λ late.
          Ensures-if _ (not (is_pending a.status)) _ _ (λ z. tt)
            (λ open_yet. (a, found, pending_of a open_yet, ground arith)))))
  where
    pending_of : (a : Amendment) → not (is_pending a.status) ≡ false → is_pending a.status ≡ true
    pending_of a h = ground arith

settled-stays :
    (env : Env) (user amendment_id : ℕ) (a : Amendment) (s s' : Storage)
    → s.governance.amendments amendment_id ≡ some a
    → is_pending a.status ≡ false
    → activate_amendment env user amendment_id s ≢ ok s'
settled-stays env user amendment_id a s s' found closed = λ h.
    let (b, found', open_yet, late) = Ensures-ok _ _ (activate-Ensures env user amendment_id s) h in
    let same : some a ≡ some b = sym found ∙ found' in open_and_closed a b same closed open_yet
  where
    open_and_closed :
        (a b : Amendment)
        → some a ≡ some b
        → is_pending a.status ≡ false
        → is_pending b.status ≡ true
        → ⊥
    open_and_closed a b same closed open_yet = cc

-- Reading a pending amendment after its activation deadline, when it can first be activated, is the end of
-- it: in the storage after the read, no activation of it by anybody and at any time returns.
pub get_amendment-closes :
    (env env' : Env) (user amendment_id : ℕ) (a : Amendment) (s s' : Storage)
    → s.governance.amendments amendment_id ≡ some a
    → is_pending a.status ≡ true
    → a.activation_deadline_ledger < env.sequence
    → activate_amendment env' user amendment_id (get_amendment env amendment_id s).1 ≢ ok s'
unfolding get_amendment
get_amendment-closes env env' user amendment_id a s s' found open_yet late =
    let is_late : ltb a.activation_deadline_ledger env.sequence ≡ true = ground arith in
    rw (found, open_yet, is_late)
      (settled-stays env' user amendment_id (record a { status = AmendmentStatus.expired }) _ s'
        (put-same s.governance.amendments amendment_id _) refl)
