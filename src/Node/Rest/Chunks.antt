-- ===== src/Node/Rest/Chunks.antt =====
-- The headers of a REST response, in terms of its bytes.
use fork_observer.Prelude.{
  ℕ, zero, suc, ◌+◌, ◌*◌, ◌-◌, ◌≤◌, ◌<◌, ◌≡◌, refl, sym, ap, ◌∙◌, String, Bool, true, false,
  if◌then◌else◌, List, [], ◌∷◌, ◌++◌, map, arith, length, length-append, take, drop, All, ◌==◌,
  ==_iff,
}
use fork_observer.Prelude.Results.{Result, ok, err, map_err, >>=_ok}
use fork_observer.Bitcoin.{Bitcoin}
use fork_observer.Errors.{Crates, FetchError, min_req}
use fork_observer.Jsonrpc.{Web}
use fork_observer.Node.Rest.{
  chunks_upto, chunks, deserialize_all, rest_url, headers_of_response, active_chain_headers_rest,
}

take-append_self : {A : Type 0} (xs ys : List A) → take (length xs) (xs ++ ys) ≡ xs
take-append_self [] ys = refl
take-append_self (x ∷ xs) ys = ap (λ l. x ∷ l) (take-append_self xs ys)

drop-append_self : {A : Type 0} (xs ys : List A) → drop (length xs) (xs ++ ys) ≡ ys
drop-append_self [] ys = refl
drop-append_self (x ∷ xs) ys = drop-append_self xs ys

length-drop : {A : Type 0} (n : ℕ) (xs : List A) → length (drop n xs) ≡ length xs - n
length-drop zero xs = omega arith
length-drop (suc n) [] = omega arith
length-drop (suc n) (x ∷ xs) = length-drop n xs ∙ omega arith

-- As many chunks as it takes for the bytes
length-chunks_upto :
    (fuel : ℕ) (bytes : List ℕ)
    → length bytes ≤ fuel
    → (length bytes ≤ 80 * length (chunks_upto fuel bytes))
      × (80 * length (chunks_upto fuel bytes) < length bytes + 80)
unfolding chunks_upto
length-chunks_upto zero [] le = (omega arith, omega arith)
length-chunks_upto zero (b ∷ bytes) le = absurd (omega arith)
length-chunks_upto (suc fuel) [] le = (omega arith, omega arith)
length-chunks_upto (suc fuel) (b ∷ bytes) le =
    let rest = drop 80 (b ∷ bytes) in
    let shorter : length rest ≡ length (b ∷ bytes) - 80 = length-drop 80 (b ∷ bytes) in
    let (low, high) = length-chunks_upto fuel rest (omega (arith, shorter, le)) in
    (omega (arith, low, high, shorter), omega (arith, low, high, shorter))

-- The bytes of headers, one after the other
abbrev pub concat : List (List ℕ) → List ℕ
concat [] = []
concat (c ∷ cs) = c ++ concat cs

take-chunk : (c rest : List ℕ) → length c ≡ 80 → take 80 (c ++ rest) ≡ c
take-chunk c rest sized = ap (λ n. take n (c ++ rest)) (sym sized) ∙ take-append_self c rest

drop-chunk : (c rest : List ℕ) → length c ≡ 80 → drop 80 (c ++ rest) ≡ rest
drop-chunk c rest sized = ap (λ n. drop n (c ++ rest)) (sym sized) ∙ drop-append_self c rest

chunks_upto-append :
    (fuel : ℕ) (c rest : List ℕ)
    → length c ≡ 80
    → chunks_upto (suc fuel) (c ++ rest) ≡ c ∷ chunks_upto fuel rest
unfolding chunks_upto
chunks_upto-append fuel [] rest sized = absurd (omega (arith, sized))
chunks_upto-append fuel (x ∷ c) rest sized =
    ap (λ l. l ∷ chunks_upto fuel (drop 80 ((x ∷ c) ++ rest))) (take-chunk (x ∷ c) rest sized)
    ∙ ap (λ l. (x ∷ c) ∷ chunks_upto fuel l) (drop-chunk (x ∷ c) rest sized)

chunks_upto-concat :
    (fuel : ℕ) (cs : List (List ℕ))
    → All (λ c. length c ≡ 80) cs
    → length (concat cs) ≤ fuel
    → chunks_upto fuel (concat cs) ≡ cs
chunks_upto-concat zero [] sized le = unfold chunks_upto in refl
chunks_upto-concat (suc fuel) [] sized le = unfold chunks_upto in refl
chunks_upto-concat zero (c ∷ cs) sized le =
    absurd (omega (arith, sized.0, length-append c (concat cs), le))
chunks_upto-concat (suc fuel) (c ∷ cs) sized le =
    chunks_upto-append fuel c (concat cs) sized.0
    ∙ ap (λ l. c ∷ l)
        (chunks_upto-concat fuel cs sized.1
          (omega (arith, sized.0, length-append c (concat cs), le)))

result_accepted :
    {F G V : Type 0} (accepted : Bool) (r : Result F V) (wrap : F → G) (refused : G) (v : V)
    → (if accepted then map_err wrap r else err refused) ≡ ok v
    → (accepted ≡ true) × (r ≡ ok v)
result_accepted true (ok x) wrap refused v h = (refl, ground (arith, h))
result_accepted true (err f) wrap refused v h = absurd (cc)
result_accepted false r wrap refused v h = absurd (cc)

module _ {B : Bitcoin} {E : Crates} (W : Web B E) where
  length-deserialize_all :
      (cs : List (List ℕ)) (hs : List B.Header)
      → deserialize_all W cs ≡ ok hs
      → length hs ≡ length cs
  unfolding deserialize_all
  length-deserialize_all [] hs e = let same : [] ≡ hs = ground (arith, e) in ap length (sym same)
  length-deserialize_all (c ∷ cs) hs e =
      let (h, first, e1) = >>=_ok (W.deserialize_header c) _ e in
      let (rest, others, e2) = >>=_ok (deserialize_all W cs) _ e1 in
      let same : h ∷ rest ≡ hs = ground (arith, e2) in
      ap length (sym same) ∙ ap suc (length-deserialize_all cs rest others)

  accepted_response :
      (url : String) (res : W.HttpResponse) (hs : List B.Header)
      → headers_of_response W url res ≡ ok hs
      → (W.status_code res ≡ 200) × (deserialize_all W (chunks (W.as_bytes res)) ≡ ok hs)
  unfolding headers_of_response
  accepted_response url res hs e =
      let (fine, parsed) =
        result_accepted (W.status_code res == 200) (deserialize_all W (chunks (W.as_bytes res))) _ _
          hs e in
      ((==_iff (W.status_code res) 200).0 fine, parsed)

  -- If headers are returned, there is one for each 80 bytes of an accepted response, the last one
  -- of which may not be complete: their number is the number of bytes over 80, rounded up.
  pub length-active_chain_headers_rest :
      (rpc_url : String) (count : ℕ) (start : B.BlockHash) (hs : List B.Header)
      → active_chain_headers_rest W rpc_url count start ≡ ok hs
      → (res : W.HttpResponse) × (W.get (rest_url W rpc_url count start) ≡ ok res)
        × (W.status_code res ≡ 200)
        × (length (W.as_bytes res) ≤ 80 * length hs)
        × (80 * length hs < length (W.as_bytes res) + 80)
  unfolding active_chain_headers_rest chunks
  length-active_chain_headers_rest rpc_url count start hs e =
      let url = rest_url W rpc_url count start in
      let (res, got, e1) = >>=_ok (map_err min_req (W.get url)) _ e in
      let (is_200, parsed) = accepted_response url res hs e1 in
      let bytes = W.as_bytes res in
      let (low, high) = length-chunks_upto (length bytes) bytes (omega arith) in
      let same = length-deserialize_all (chunks_upto (length bytes) bytes) hs parsed in
      (res, got_of (W.get url) res got, is_200, omega (arith, low, same), omega (arith, high, same))
    where
      got_of :
          (r : Result E.MinReqError W.HttpResponse) (res : W.HttpResponse)
          → ◌≡◌ {A = Result (FetchError E) W.HttpResponse} (map_err min_req r) (ok res)
          → r ≡ ok res
      got_of (ok x) res h = ground (arith, h)
      got_of (err f) res h = absurd (cc)

  -- Each header is encoded as 80 bytes that deserialize to it.
  abbrev pub Encodes : (B.Header → List ℕ) → List B.Header → Type 0
  Encodes encode = All (λ h. (length (encode h) ≡ 80) × (W.deserialize_header (encode h) ≡ ok h))

  deserialize_all-map :
      (encode : B.Header → List ℕ) (hs : List B.Header)
      → Encodes encode hs
      → deserialize_all W (map encode hs) ≡ ok hs
  unfolding deserialize_all
  deserialize_all-map encode [] e = refl
  deserialize_all-map encode (h ∷ hs) e = rw (e.0.1, deserialize_all-map encode hs e.1) refl

  all_sized :
      (encode : B.Header → List ℕ) (hs : List B.Header)
      → Encodes encode hs
      → All (λ c. length c ≡ 80) (map encode hs)
  all_sized encode [] e = tt
  all_sized encode (h ∷ hs) e = (e.0.0, all_sized encode hs e.1)

  -- The headers that a node sends, each as 80 bytes that deserialize to it, arrive as they are.
  pub active_chain_headers_rest-concat :
      (rpc_url : String) (count : ℕ) (start : B.BlockHash) (res : W.HttpResponse)
      (encode : B.Header → List ℕ) (hs : List B.Header)
      → Encodes encode hs
      → W.get (rest_url W rpc_url count start) ≡ ok res
      → W.status_code res ≡ 200
      → W.as_bytes res ≡ concat (map encode hs)
      → active_chain_headers_rest W rpc_url count start ≡ ok hs
  unfolding active_chain_headers_rest headers_of_response chunks
  active_chain_headers_rest-concat rpc_url count start res encode hs encodes got fine sent =
      let whole = concat (map encode hs) in
      let split =
        chunks_upto-concat (length whole) (map encode hs) (all_sized encode hs encodes)
          (omega arith) in
      rw
        (
          got,
          (==_iff (W.status_code res) 200).1 fine,
          sent,
          split,
          deserialize_all-map encode hs encodes,
        )
        refl
