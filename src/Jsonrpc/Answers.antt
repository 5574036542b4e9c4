-- ===== src/Jsonrpc/Answers.antt =====
-- What the functions of src/jsonrpc.rs accept of btcd.
use Prim.Native.String.{◌++◌ as cat}
use mathlib.Core.Option
use fork_observer.Prelude.{
  ℕ, ◌<◌, ◌≡◌, ◌↔◌, refl, sym, ap, ◌∙◌, inl, inr, String, Bool, true, false, Option, none, some,
  List, [], ◌∷◌, ◌==◌, ==_iff, if◌then◌else◌, arith, Bool-cases,
}
use fork_observer.Prelude.Results.{Result, ok, err, map_err, >>=_ok}
use fork_observer.Prelude.Text.{byte_len}
use fork_observer.Bitcoin.{Bitcoin}
use fork_observer.Errors.{
  Crates, JsonRpcError, min_req, from_hex, bitcoin_from_hex, bitcoin_deserialize_error,
}
use fork_observer.Jsonrpc.{
  json_rpc_version, json_rpc_id, Value, text, number, flag, Response, Web, check, unless, of_length,
  present, accepted, request, answer_of, btcd_chaintips, btcd_blockheader, btcd_blockhash,
  unwrap_or_default,
}
use fork_observer.Types.{ChainTip}

module _ {E : Crates} where
  ok_of_map_err :
      {F V : Type 0} (wrap : F → JsonRpcError E) (r : Result F V) (v : V)
      → map_err wrap r ≡ ok v
      → r ≡ ok v
  ok_of_map_err wrap (ok x) v e = ground (arith, e)
  ok_of_map_err wrap (err f) v e = absurd (cc)

  unless_iff :
      {A : Type 0} (error : Option (JsonRpcError E)) (a b : A)
      → (unless error a ≡ ok b) ↔ ((error ≡ none) × (a ≡ b))
  unfolding unless
  unless_iff none a b = (λ e. (refl, ground (arith, e)), λ (_, same). ap ok same)
  unless_iff (some e) a b = (λ h. absurd (cc), λ (h, _). absurd (cc))

  check_iff :
      {T : Type 0} (method : String) (response : Response T)
      → (check {E = E} method response ≡ none) ↔ (response.error ≡ none)
  unfolding check
  check_iff method response = map_none _ response.error
    where
      map_none : {A C : Type 0} (f : A → C) (o : Option A) → (Option.map f o ≡ none) ↔ (o ≡ none)
      map_none f none = (λ e. refl, λ e. refl)
      map_none f (some x) = (λ e. cc, λ e. cc)

  present_iff :
      {T : Type 0} (method : String) (result : Option T) (t : T)
      → (present {E = E} method result ≡ ok t) ↔ (result ≡ some t)
  unfolding present
  present_iff method none t = (λ e. cc, λ e. cc)
  present_iff method (some r) t = (λ e. ground (arith, e), λ e. ground (arith, e))

  if_ok_iff :
      {A : Type 0} (b : Bool) (x y : A) (f : JsonRpcError E)
      → ((if b then ok x else err f) ≡ ok y) ↔ ((b ≡ true) × (x ≡ y))
  if_ok_iff true x y f = (λ e. (refl, ground (arith, e)), λ (_, same). ap ok same)
  if_ok_iff false x y f = (λ e. absurd (cc), λ (e, _). absurd (cc))

  of_length_iff :
      (method : String) (length told : ℕ) (what : String) (response : Response String)
      (content : String)
      → (of_length {E = E} method length told what response ≡ ok content)
        ↔ ((unwrap_or_default response.result ≡ content) × (byte_len content ≡ length))
  unfolding of_length
  of_length_iff method length told what response content =
      let body = unwrap_or_default response.result in
      let test = if_ok_iff (byte_len body == length) body content _ in
      (
        λ e.
            let (fits, same) = test.0 e in
            (same, ap byte_len (sym same) ∙ (==_iff (byte_len body) length).0 fits),
        λ (same, fits). test.1 ((==_iff (byte_len body) length).1 (ap byte_len same ∙ fits), same),
      )

module _ {B : Bitcoin} {E : Crates} (W : Web B E) where
  -- The request of these functions, with basic authorization, is answered with the status 200 and a
  -- response that parses to the answer and contains no error.
  pub record Delivers {T : Type 0} (json : W.HttpResponse → Result E.MinReqError (Response T))
      (method : String) (params : List Value) (url user password : String) (answer : Response T)
      : Type 0 where
    pub res : W.HttpResponse
    pub sent :
        W.post url (cat "Basic " (W.base64 (cat user (cat ":" password)))) (record {
          jsonrpc = json_rpc_version;
          id = json_rpc_id;
          method = method;
          params = params;
        })
        ≡ ok res
    pub accepted : W.status_code res ≡ 200
    pub parsed : json res ≡ ok answer
    pub no_error : answer.error ≡ none

  accepted_iff :
      (res res' : W.HttpResponse)
      → (accepted W res ≡ ok res') ↔ ((W.status_code res ≡ 200) × (res ≡ res'))
  unfolding accepted
  accepted_iff res res' = elim (Bool-cases (W.status_code res == 200)) [
    | inl fine ↦
        let is_200 = (==_iff (W.status_code res) 200).0 fine in
        rw fine (λ e. (is_200, ground (arith, e)), λ (_, same). ap ok same)
    | inr refused ↦ rw refused (
      λ e. let (body, _, never) = >>=_ok (map_err min_req (W.as_str res)) _ e in absurd (cc),
      λ (is_200, _). let fine = (==_iff (W.status_code res) 200).1 is_200 in absurd (cc),
    )
  ]

  module _ {T : Type 0} (json : W.HttpResponse → Result E.MinReqError (Response T))
      (method : String) (params : List Value) (url user password : String) where
    answer_of-Delivers :
        (answer : Response T)
        → (answer_of W json method params url user password ≡ ok answer)
          ↔ Delivers json method params url user password answer
    unfolding answer_of request
    answer_of-Delivers answer = (
      λ e.
          let (res, requested, e1) = >>=_ok (request W method params url user password) _ e in
          let (sent, posted, e2) = >>=_ok (map_err min_req (W.post url _ _)) _ requested in
          let (is_200, same) = (accepted_iff sent res).0 e2 in
          let (response, read, e3) = >>=_ok (map_err min_req (json res)) _ e1 in
          let (quiet, same') = (unless_iff (check method response) response answer).0 e3 in
          record {
            res = res;
            sent = ok_of_map_err min_req _ sent posted ∙ ap ok same;
            accepted = ap W.status_code (sym same) ∙ is_200;
            parsed = ok_of_map_err min_req _ response read ∙ ap ok same';
            no_error = ap (λ r. r.error) (sym same') ∙ (check_iff method response).0 quiet;
          },
      λ d.
          rw (d.sent, (accepted_iff d.res d.res).1 (d.accepted, refl), d.parsed)
            ((unless_iff (check method answer) answer answer).1
              ((check_iff method answer).1 d.no_error, refl)),
    )

  -- A text that is not empty is there.
  content_some :
      (result : Option String) (content : String)
      → unwrap_or_default result ≡ content
      → 0 < byte_len content
      → result ≡ some content
  unfolding byte_len
  content_some none content e lt = let zero_len = ap byte_len e in absurd (omega (arith, zero_len))
  content_some (some t) content e lt = ap some e

  -- `btcd_chaintips` returns tips exactly if btcd delivers a response with these tips: any other
  -- response, an error in it, or no result is an error.
  pub btcd_chaintips_iff :
      (url user password : String) (tips : List ChainTip)
      → (btcd_chaintips W url user password ≡ ok tips) ↔ (
          (answer : Response (List ChainTip)) × Delivers W.json_tips "getchaintips" [] url user
            password answer
          × (answer.result ≡ some tips))
  unfolding btcd_chaintips
  btcd_chaintips_iff url user password tips = (
    λ e.
        let (answer, delivered, e1) =
          >>=_ok (answer_of W W.json_tips "getchaintips" [] url user password) _ e in
        (
          answer,
          (answer_of-Delivers W.json_tips "getchaintips" [] url user password answer).0 delivered,
          (present_iff {E = E} "getchaintips" answer.result tips).0 e1,
        ),
    λ (answer, d, here).
        rw ((answer_of-Delivers W.json_tips "getchaintips" [] url user password answer).1 d)
          ((present_iff {E = E} "getchaintips" answer.result tips).1 here),
  )

  abbrev header_params : String → List Value
  header_params hash = text hash ∷ flag false ∷ []

  -- btcd delivers a response whose result is a text of 160 bytes, the hex digits of bytes that
  -- deserialize to the header.
  abbrev pub DeliversHeader : String → String → String → String → B.Header → Type 0
  DeliversHeader url user password hash h =
      (answer : Response String) × (content : String) × (bytes : List ℕ) × Delivers W.json_text
        "getblockheader" (text hash ∷ flag false ∷ []) url user password answer
      × (answer.result ≡ some content)
      × (byte_len content ≡ 160)
      × (W.hex_decode content ≡ ok bytes)
      × (W.deserialize_header bytes ≡ ok h)

  -- btcd delivers a response whose result is a text of 64 bytes that parses to the hash.
  abbrev pub DeliversHash : String → String → String → ℕ → B.BlockHash → Type 0
  DeliversHash url user password height hash =
      (answer : Response String) × (content : String) × Delivers W.json_text "getblockhash"
        (number height ∷ []) url user password answer
      × (answer.result ≡ some content)
      × (byte_len content ≡ 64)
      × (W.hash_from_hex content ≡ ok hash)

  -- `btcd_blockheader` returns a header exactly if btcd delivers a response whose result is a text
  -- of 160 bytes, the hex digits of bytes that deserialize to the header.
  pub btcd_blockheader_iff :
      (url user password hash : String) (h : B.Header)
      → (btcd_blockheader W url user password hash ≡ ok h) ↔ DeliversHeader url user password hash h
  unfolding btcd_blockheader
  btcd_blockheader_iff url user password hash h =
      let delivers =
        answer_of-Delivers W.json_text "getblockheader" (header_params hash) url user password in
      (
        λ e.
            let (answer, delivered, e1) =
              >>=_ok
                (answer_of W W.json_text "getblockheader" (header_params hash) url user password) _
                e in
            let (content, sized, e2) =
              >>=_ok (of_length {E = E} "getblockheader" 160 160 "header" answer) _ e1 in
            let (bytes, decoded, e3) = >>=_ok (map_err from_hex (W.hex_decode content)) _ e2 in
            let (same, fits) =
              (of_length_iff {E = E} "getblockheader" 160 160 "header" answer content).0 sized in
            (
              answer,
              content,
              bytes,
              (delivers answer).0 delivered,
              content_some answer.result content same (omega (arith, fits)),
              fits,
              ok_of_map_err from_hex _ bytes decoded,
              ok_of_map_err bitcoin_deserialize_error _ h e3,
            ),
        λ (answer, content, bytes, d, here, fits, decoded, parsed).
            rw
              (
                (delivers answer).1 d,
                (of_length_iff {E = E} "getblockheader" 160 160 "header" answer content).1
                    (ap unwrap_or_default here, fits),
                decoded,
                parsed,
              )
              refl,
      )

  -- `btcd_blockhash` returns a hash exactly if btcd delivers a response whose result is a text of
  -- 64 bytes that parses to the hash.
  pub btcd_blockhash_iff :
      (url user password : String) (height : ℕ) (hash : B.BlockHash)
      → (btcd_blockhash W url user password height ≡ ok hash)
        ↔ DeliversHash url user password height hash
  unfolding btcd_blockhash
  btcd_blockhash_iff url user password height hash =
      let delivers =
        answer_of-Delivers W.json_text "getblockhash" (number height ∷ []) url user password in
      (
        λ e.
            let (answer, delivered, e1) =
              >>=_ok (answer_of W W.json_text "getblockhash" (number height ∷ []) url user password)
                _ e in
            let (content, sized, e2) =
              >>=_ok (of_length {E = E} "getblockhash" 64 160 "hash" answer) _ e1 in
            let (same, fits) =
              (of_length_iff {E = E} "getblockhash" 64 160 "hash" answer content).0 sized in
            (
              answer,
              content,
              (delivers answer).0 delivered,
              content_some answer.result content same (omega (arith, fits)),
              fits,
              ok_of_map_err bitcoin_from_hex _ hash e2,
            ),
        λ (answer, content, d, here, fits, parsed).
            rw
              (
                (delivers answer).1 d,
                (of_length_iff {E = E} "getblockhash" 64 160 "hash" answer content).1
                    (ap unwrap_or_default here, fits),
                parsed,
              )
              refl,
      )
