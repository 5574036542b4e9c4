-- ===== src/Cache/Identified.antt =====
-- What HeaderMiner of `update_cache` in src/main.rs puts into a cache.
use fork_observer.Prelude.{
  Bool, if◌then◌else◌, subst, ◌≡◌, ◌≢◌, refl, sym, ap, ◌∙◌, inl, inr, String, List, [], ◌∷◌, ◌++◌,
  arith, length, ltb, All-in, In, in-append, str_eq, str_eq_iff, Bool-cases,
}
use fork_observer.Bitcoin.{Bitcoin}
use fork_observer.Types.{Clock, HeaderInfoJson, HeaderInfo, Cache, set_json_miner, hash_of}
use fork_observer.Cache.{Order, header_miner, apply_update, push_recent, update_first_miner}
use fork_observer.Cache.Miners.{DistinctHashes}

in-push_recent :
    (entry : String × String) (miners : List (String × String))
    → In entry (push_recent entry miners)
unfolding push_recent
in-push_recent entry [] = inl refl
in-push_recent entry (m ∷ ms) = elim (Bool-cases (ltb 5 (length (m ∷ ms ++ entry ∷ [])))) [
  | inl full ↦ rw full ((in-append entry ms (entry ∷ [])).1 (inr (inl refl)))
  | inr room ↦ rw room ((in-append entry (m ∷ ms) (entry ∷ [])).1 (inr (inl refl)))
]

-- The header with the hash shows the miner.
update_first_miner-shown :
    (hash miner : String) (hs : List HeaderInfoJson) (g : HeaderInfoJson)
    → DistinctHashes hs
    → In g (update_first_miner hash miner hs)
    → g.hash ≡ hash
    → g.miner ≡ miner
unfolding update_first_miner set_json_miner
update_first_miner-shown hash miner [] g d m e = absurd m
update_first_miner-shown hash miner (h ∷ hs) g d m e =
    let found : Bool → Type 0 =
      λ b. In g (if b then set_json_miner miner h ∷ hs else h ∷ update_first_miner hash miner hs) in
    elim (Bool-cases (str_eq h.hash hash)) [
      | inl here ↦ elim (subst found here m) [
        | inl at ↦ ap (λ (x : HeaderInfoJson). x.miner) at
        | inr later ↦ absurd (
            All-in (λ (x : HeaderInfoJson). x.hash ≢ h.hash) hs d.0 later
              (e ∙ sym ((str_eq_iff h.hash hash).0 here)))
      ]
      | inr other ↦ elim (subst found other m) [
        | inl at ↦ absurd (ground (arith, other, str_eq_iff h.hash hash, e, at))
        | inr later ↦ update_first_miner-shown hash miner hs g d.1 later e
      ]
    ]

-- The miner is among the recent ones, and the header that the cache has of the hash shows it.
pub apply_update-header_miner :
    {B : Bitcoin} (order : Order) (now : Clock) (h : HeaderInfo B) (c : Cache B)
    → DistinctHashes c.header_infos_json
    → In
        (B.hash_to_string (hash_of h), h.miner)
        (apply_update order now (header_miner h) c).recent_miners
      × ((g : HeaderInfoJson)
          → In g (apply_update order now (header_miner h) c).header_infos_json
          → g.hash ≡ B.hash_to_string (hash_of h)
          → g.miner ≡ h.miner)
unfolding apply_update
apply_update-header_miner {B} order now h c d = (
  in-push_recent (B.hash_to_string (hash_of h), h.miner) c.recent_miners,
  λ g m e.
      update_first_miner-shown (B.hash_to_string (hash_of h)) h.miner c.header_infos_json g d m e,
)
