-- ===== src/Cache/Miners.antt =====
-- Miners are not lost: HeaderMiner and HeaderTree of `update_cache` in src/main.rs. A new header
-- tree may have been stripped before a miner was identified; the recent miners make up for that.
use mathlib.Core.List.{append-nil, append_assoc}
use fork_observer.Prelude.{
  ◌≡◌, ◌≢◌, refl, sym, ap, ◌∙◌, inl, inr, String, List, [], ◌∷◌, ◌++◌, map, arith, All, str_eq,
  str_eq_iff, string_key, if◌then◌else◌, Bool-cases,
}
use fork_observer.Prelude.HashMap
use fork_observer.Prelude.HashMap.{HashMap}
use fork_observer.Types.{HeaderInfoJson, set_json_miner}
use fork_observer.Cache.{apply_miners, collect_headers}

-- No two headers have the same hash.
abbrev pub DistinctHashes : List HeaderInfoJson → Type 0
DistinctHashes [] = Unit
DistinctHashes (h ∷ hs) = All (λ g. g.hash ≢ h.hash) hs × DistinctHashes hs

-- The header with the miner that was last identified for its hash, if there is one.
unfoldable pub relabel : List (String × String) → HeaderInfoJson → HeaderInfoJson
relabel [] h = h
relabel ((hash, miner) ∷ rest) h =
    relabel rest (if str_eq h.hash hash then set_json_miner miner h else h)

-- The entries of a hash map from the hash of each header to the header.
abbrev pub entries : List HeaderInfoJson → HashMap String HeaderInfoJson
entries hs = map (λ h. (h.hash, h)) hs

insert-entries :
    (h : HeaderInfoJson) (hs : List HeaderInfoJson)
    → All (λ g. g.hash ≢ h.hash) hs
    → HashMap.insert h.hash h (entries hs) ≡ entries (hs ++ h ∷ [])
unfolding HashMap.insert
insert-entries h [] new = refl
insert-entries h (g ∷ gs) new =
    ground (arith, str_eq_iff g.hash h.hash, new.0, insert-entries h gs new.1)

-- Each of `xs` has another hash than each of `ys`.
abbrev pub Apart : List HeaderInfoJson → List HeaderInfoJson → Type 0
Apart xs ys = All (λ y. All (λ x. x.hash ≢ y.hash) xs) ys

All-snoc :
    (P : HeaderInfoJson → Type 0) (xs : List HeaderInfoJson) (y : HeaderInfoJson)
    → All P xs
    → P y
    → All P (xs ++ y ∷ [])
All-snoc P [] y h p = (p, tt)
All-snoc P (x ∷ xs) y h p = (h.0, All-snoc P xs y h.1 p)

Apart-snoc :
    (xs : List HeaderInfoJson) (h : HeaderInfoJson) (ys : List HeaderInfoJson)
    → Apart xs ys
    → All (λ g. g.hash ≢ h.hash) ys
    → Apart (xs ++ h ∷ []) ys
Apart-snoc xs h [] a d = tt
Apart-snoc xs h (y ∷ ys) a d =
    (All-snoc (λ x. x.hash ≢ y.hash) xs h a.0 (λ e. d.0 (sym e)), Apart-snoc xs h ys a.1 d.1)

pub collect_headers-entries :
    (seen hs : List HeaderInfoJson)
    → Apart seen hs
    → DistinctHashes hs
    → collect_headers (entries seen) hs ≡ entries (seen ++ hs)
unfolding collect_headers
collect_headers-entries seen [] a d = ap entries (sym (append-nil seen))
collect_headers-entries seen (h ∷ hs) a d = rw (insert-entries h seen a.0) (
    collect_headers-entries (seen ++ h ∷ []) hs (Apart-snoc seen h hs a.1 d.0) d.1
    ∙ ap entries (append_assoc seen (h ∷ []) hs))

pub Apart-nil : (hs : List HeaderInfoJson) → Apart [] hs
Apart-nil [] = tt
Apart-nil (h ∷ hs) = (tt, Apart-nil hs)

abbrev label : String → String → HeaderInfoJson → HeaderInfoJson
label hash miner h = if str_eq h.hash hash then set_json_miner miner h else h

map-label-other :
    (hash miner : String) (hs : List HeaderInfoJson)
    → All (λ g. g.hash ≢ hash) hs
    → map (label hash miner) hs ≡ hs
map-label-other hash miner [] a = refl
map-label-other hash miner (h ∷ hs) a =
    ground (arith, str_eq_iff h.hash hash, a.0, map-label-other hash miner hs a.1)

and_modify-entries :
    (hash miner : String) (hs : List HeaderInfoJson)
    → DistinctHashes hs
    → HashMap.and_modify hash (set_json_miner miner) (entries hs)
      ≡ entries (map (label hash miner) hs)
unfolding HashMap.and_modify set_json_miner
and_modify-entries hash miner [] d = refl
and_modify-entries hash miner (h ∷ hs) d = elim (Bool-cases (str_eq h.hash hash)) [
  | inl e ↦ rw (e, map-label-other hash miner hs (rw (← (str_eq_iff h.hash hash).0 e) d.0)) refl
  | inr ne ↦ rw ne (ap (λ m. (h.hash, h) ∷ m) (and_modify-entries hash miner hs d.1))
]

hash-label : (hash miner : String) (h : HeaderInfoJson) → (label hash miner h).hash ≡ h.hash
unfolding set_json_miner
hash-label hash miner h = ground arith

DistinctHashes-label :
    (hash miner : String) (hs : List HeaderInfoJson)
    → DistinctHashes hs
    → DistinctHashes (map (label hash miner) hs)
DistinctHashes-label hash miner [] d = tt
DistinctHashes-label hash miner (h ∷ hs) d =
    (all_apart hs d.0, DistinctHashes-label hash miner hs d.1)
  where
    all_apart :
        (gs : List HeaderInfoJson)
        → All (λ g. g.hash ≢ h.hash) gs
        → All (λ g. g.hash ≢ (label hash miner h).hash) (map (label hash miner) gs)
    all_apart [] a = tt
    all_apart (g ∷ gs) a =
        (rw (hash-label hash miner g, hash-label hash miner h) a.0, all_apart gs a.1)

pub apply_miners-entries :
    (miners : List (String × String)) (hs : List HeaderInfoJson)
    → DistinctHashes hs
    → apply_miners miners (entries hs) ≡ entries (map (relabel miners) hs)
unfolding apply_miners relabel
apply_miners-entries [] hs d = ap entries (sym (map-id hs))
  where
    map-id : (gs : List HeaderInfoJson) → map (λ h. h) gs ≡ gs
    map-id [] = refl
    map-id (g ∷ gs) = ap (λ t. g ∷ t) (map-id gs)
apply_miners-entries ((hash, miner) ∷ rest) hs d = rw (and_modify-entries hash miner hs d) (
    apply_miners-entries rest (map (label hash miner) hs) (DistinctHashes-label hash miner hs d)
    ∙ ap entries (map-map hs))
  where
    map-map :
        (gs : List HeaderInfoJson)
        → map (relabel rest) (map (label hash miner) gs)
          ≡ map (λ h. relabel rest (label hash miner h)) gs
    map-map [] = refl
    map-map (g ∷ gs) = ap (λ t. relabel rest (label hash miner g) ∷ t) (map-map gs)
