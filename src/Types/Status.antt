-- ===== src/Types/Status.antt =====
-- `ChainTipStatus` of src/types.rs, its conversions and its text.
use fork_observer.Prelude.{String, str_eq, if◌then◌else◌, Bool, true, false, ◌≡◌, ◌↔◌, refl}

pub data ChainTipStatus : Type 0 where
  active invalid valid_fork headers_only valid_headers unknown : ChainTipStatus

-- `impl From<String> for ChainTipStatus`
unfoldable pub from_string : String → ChainTipStatus
from_string s =
    if str_eq s "active"
    then active
    else if str_eq s "invalid"
    then invalid
    else if str_eq s "headers-only"
    then headers_only
    else if str_eq s "valid-headers"
    then valid_headers
    else if str_eq s "valid-fork"
    then valid_fork
    else unknown

-- `impl fmt::Display for ChainTipStatus`
unfoldable pub status_to_string : ChainTipStatus → String
status_to_string active = "active"
status_to_string invalid = "invalid"
status_to_string headers_only = "headers-only"
status_to_string valid_headers = "valid-headers"
status_to_string valid_fork = "valid-fork"
status_to_string unknown = "unknown"

-- `GetChainTipsResultStatus` of the `bitcoincore_rpc` crate: the cases that the program matches.
pub data Reply : Type 0 where
  active invalid headers_only valid_headers valid_fork : Reply

-- `impl From<GetChainTipsResultStatus> for ChainTipStatus`
unfoldable pub from_reply : Reply → ChainTipStatus
from_reply Reply.active = ChainTipStatus.active
from_reply Reply.invalid = ChainTipStatus.invalid
from_reply Reply.headers_only = ChainTipStatus.headers_only
from_reply Reply.valid_headers = ChainTipStatus.valid_headers
from_reply Reply.valid_fork = ChainTipStatus.valid_fork

-- `==` of `ChainTipStatus`
unfoldable pub is_active : ChainTipStatus → Bool
is_active ChainTipStatus.active = true
is_active _ = false

pub is_active_iff : (s : ChainTipStatus) → (is_active s ≡ true) ↔ (s ≡ ChainTipStatus.active)
unfolding is_active
is_active_iff ChainTipStatus.active = (λ e. refl, λ e. refl)
is_active_iff ChainTipStatus.invalid = (λ e. absurd (cc), λ e. absurd (cc))
is_active_iff ChainTipStatus.valid_fork = (λ e. absurd (cc), λ e. absurd (cc))
is_active_iff ChainTipStatus.headers_only = (λ e. absurd (cc), λ e. absurd (cc))
is_active_iff ChainTipStatus.valid_headers = (λ e. absurd (cc), λ e. absurd (cc))
is_active_iff ChainTipStatus.unknown = (λ e. absurd (cc), λ e. absurd (cc))

-- The text of a status reads back as that status.
pub from_string-status_to_string : (s : ChainTipStatus) → from_string (status_to_string s) ≡ s
unfolding from_string status_to_string
from_string-status_to_string ChainTipStatus.active = refl
from_string-status_to_string _ = refl
