-- ===== src/Types/Equality.antt =====
-- The derived `PartialEq` of `ChainTip` and `ChainTipStatus` in src/types.rs, by which the polling
-- task of src/main.rs compares the tips of a node with the last ones.
use fork_observer.Prelude.{
  ℕ, Bool, true, false, ◌≡◌, ◌↔◌, refl, ◌∙◌, sym, ap, List, [], ◌∷◌, arith, ◌==◌, ==_iff, str_eq,
  str_eq_iff, if◌then◌else◌,
}
use fork_observer.Types.{ChainTip}
use fork_observer.Types.Status.{ChainTipStatus}

-- The discriminant of a status
discriminant : ChainTipStatus → ℕ
discriminant ChainTipStatus.active = 0
discriminant ChainTipStatus.invalid = 1
discriminant ChainTipStatus.valid_fork = 2
discriminant ChainTipStatus.headers_only = 3
discriminant ChainTipStatus.valid_headers = 4
discriminant ChainTipStatus.unknown = 5

same_status : ChainTipStatus → ChainTipStatus → Bool
same_status s t = discriminant s == discriminant t

same_chain_tip : ChainTip → ChainTip → Bool
same_chain_tip a b =
    if a.height == b.height
    then if str_eq a.hash b.hash
      then if a.branchlen == b.branchlen then same_status a.status b.status else false
      else false
    else false

-- `==` of two vectors of tips
pub same_tips : List ChainTip → List ChainTip → Bool
same_tips [] [] = true
same_tips [] (b ∷ bs) = false
same_tips (a ∷ xs) [] = false
same_tips (a ∷ xs) (b ∷ bs) = if same_chain_tip a b then same_tips xs bs else false

-- The status of a discriminant
status_at : ℕ → ChainTipStatus
status_at n =
    if n == 0
    then ChainTipStatus.active
    else if n == 1
    then ChainTipStatus.invalid
    else if n == 2
    then ChainTipStatus.valid_fork
    else if n == 3
    then ChainTipStatus.headers_only
    else if n == 4
    then ChainTipStatus.valid_headers
    else ChainTipStatus.unknown

status_at-discriminant : (s : ChainTipStatus) → status_at (discriminant s) ≡ s
unfolding status_at discriminant
status_at-discriminant ChainTipStatus.active = refl
status_at-discriminant _ = refl

same_status_iff : (s t : ChainTipStatus) → (same_status s t ≡ true) ↔ (s ≡ t)
unfolding same_status
same_status_iff s t = (
  λ e.
      sym (status_at-discriminant s)
      ∙ ap status_at ((==_iff (discriminant s) (discriminant t)).0 e)
      ∙ status_at-discriminant t,
  λ e. (==_iff (discriminant s) (discriminant t)).1 (ap discriminant e),
)

same_chain_tip_iff : (a b : ChainTip) → (same_chain_tip a b ≡ true) ↔ (a ≡ b)
unfolding same_chain_tip
same_chain_tip_iff a b = (
  λ e. ground (arith, str_eq_iff a.hash b.hash, same_status_iff a.status b.status, e),
  λ e. ground (arith, e, str_eq_iff a.hash b.hash, same_status_iff a.status b.status),
)

-- Two vectors of tips compare equal exactly if they are.
pub same_tips_iff : (xs ys : List ChainTip) → (same_tips xs ys ≡ true) ↔ (xs ≡ ys)
unfolding same_tips
same_tips_iff [] [] = (λ e. refl, λ e. refl)
same_tips_iff [] (b ∷ bs) = (λ e. cc, λ e. cc)
same_tips_iff (a ∷ xs) [] = (λ e. cc, λ e. cc)
same_tips_iff (a ∷ xs) (b ∷ bs) = (
  λ e. ground (arith, e, same_chain_tip_iff a b, same_tips_iff xs bs),
  λ e. ground (arith, e, same_chain_tip_iff a b, same_tips_iff xs bs),
)
