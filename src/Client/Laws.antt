-- ===== src/Client/Laws.antt =====
-- What an exchange sends, and what it answers (client.go).
use computeid_go.Common.{
  ◌≡◌, refl, ◌↔◌, ◌<◌, ℕ, String, false, Option, none, some, List, [], ◌∷◌, ◌⊎◌, inl, inr, leb,
  arith, Bool-cases, Option-cases, ap,
}
use computeid_go.Errors.{ok, ok_injective}
use computeid_go.Server.Text.{RequestBody, sent, broken, Decoder}
use computeid_go.Server.Db.{Sum-cases}
use computeid_go.Client.{◌++◌, HttpResponse, Client, Net}
use computeid_go.Client.Requests.{
  decoded, read_answer, read_response, receive, request_of, send_bytes, do_request,
}

-- How the body of a request was encoded.
abbrev pub Encodes : Option (String ⊎ List ℕ) → Option (List ℕ) → Type 0
Encodes none b = b ≡ none
Encodes (some (inl e)) b = ⊥
Encodes (some (inr bytes)) b = b ≡ some bytes

-- How the bytes of an answer are read.
abbrev pub Reads : {A : Type 0} → A → Option (Decoder A) → List ℕ → A → Type 0
Reads zero none raw a = zero ≡ a
Reads zero (some decode) [] a = zero ≡ a
Reads zero (some decode) (b ∷ bs) a = decode (b ∷ bs) ≡ (a, none)

module _ {A : Type 0} (path : String) (zero : A) where
  reads_sound :
      (out : Option (Decoder A)) (raw : List ℕ) (a : A)
      → read_answer path zero out raw ≡ ok a
      → Reads zero out raw a
  unfolding read_answer
  reads_sound none raw a h = ok_injective h
  reads_sound (some decode) [] a h = ok_injective h
  reads_sound (some decode) (b ∷ bs) a h = decoded_ok (decode (b ∷ bs)) h
    where
      decoded_ok : (r : A × Option String) → decoded path r ≡ ok a → r ≡ (a, none)
      decoded_ok (v, none) e = unfold decoded in ap (λ (x : A). (x, none)) (ok_injective e)
      decoded_ok (v, some t) e = unfold decoded in cc

  reads_complete :
      (out : Option (Decoder A)) (raw : List ℕ) (a : A)
      → Reads zero out raw a
      → read_answer path zero out raw ≡ ok a
  unfolding read_answer decoded
  reads_complete none raw a h = ap ok h
  reads_complete (some decode) [] a h = ap ok h
  reads_complete (some decode) (b ∷ bs) a h = rw h refl

RequestBody-cases :
    (b : RequestBody) → ((e : String) × (b ≡ broken e)) ⊎ ((raw : List ℕ) × (b ≡ sent raw))
RequestBody-cases (broken e) = inl (e, refl)
RequestBody-cases (sent raw) = inr (raw, refl)

module _ {A W : Type 0} (net : Net) (c : Client W) (method path : String) (zero : A)
    (out : Option (Decoder A)) (body : Option (String ⊎ List ℕ)) (w : W) where
  -- One request was sent, and its answer is a success that decodes to `a`.
  pub record Answered (a : A) : Type 0 where
    pub bytes : Option (List ℕ)
    pub encoded : Encodes body bytes
    pub built : net.build method (c.base_url ++ path) ≡ none
    pub response : HttpResponse
    pub exchanged : (c.http_client (request_of net c method path bytes) w).0 ≡ inr response
    pub raw : List ℕ
    pub whole : response.body ≡ sent raw
    pub success : response.status_code < 400
    pub reads : Reads zero out raw a

  -- The world after a call: untouched, or after one exchange.
  pub data Exchanged (w' : W) : Type 0 where
    unsent : w' ≡ w → Exchanged w'
    sent_once :
        (bytes : Option (List ℕ))
        → Encodes body bytes
        → w' ≡ (c.http_client (request_of net c method path bytes) w).1
        → Exchanged w'

  send_bytes_sound :
      (a : A) (bytes : Option (List ℕ))
      → Encodes body bytes
      → (send_bytes net c method path zero out bytes w).0 ≡ ok a
      → Answered a
  unfolding send_bytes receive read_response
  send_bytes_sound a bytes enc h = elim (Option-cases (net.build method (c.base_url ++ path))) [
    | inr (e, refused) ↦ cc (rw (refused, send_bytes) at h)
    | inl built ↦ elim (Sum-cases (c.http_client (request_of net c method path bytes) w).0) [
      | inl (e, lost) ↦ cc (rw (built, send_bytes, lost, receive) at h)
      | inr (r, got) ↦ elim (RequestBody-cases (r.body)) [
        | inl (e, torn) ↦ cc (rw (built, send_bytes, got, receive, torn, read_response) at h)
        | inr (raw, whole) ↦ elim (Bool-cases (leb 400 (r.status_code))) [
          | inl bad ↦ cc (rw (built, send_bytes, got, receive, whole, read_response, bad) at h)
          | inr good ↦ record {
            bytes = bytes;
            encoded = enc;
            built = built;
            response = r;
            exchanged = got;
            raw = raw;
            whole = whole;
            success = ground arith;
            reads =
                reads_sound path zero out raw a
                  (rw (built, send_bytes, got, receive, whole, read_response, good) at h);
          }
        ]
      ]
    ]
  ]

  send_bytes_complete :
      (a : A) (r : Answered a) → (send_bytes net c method path zero out (r.bytes) w).0 ≡ ok a
  unfolding send_bytes receive read_response
  send_bytes_complete a r =
      let good : leb 400 (r.response.status_code) ≡ false = let s = r.success in ground arith in
      rw (r.built, send_bytes, r.exchanged, receive, r.whole, read_response, good)
        (reads_complete path zero out (r.raw) a (r.reads))

module _ {A W : Type 0} (net : Net) (c : Client W) (method path : String) (zero : A)
    (out : Option (Decoder A)) where
  -- A call gives a value exactly if its body was encoded, the request could be built and was sent,
  -- and a whole answer with a status under 400 came back that decodes to the value; where nothing
  -- is to be decoded, or nothing came, the value is the zero value.
  pub do_request_iff :
      (body : Option (String ⊎ List ℕ)) (w : W) (a : A)
      → ((do_request net c method path zero out body w).0 ≡ ok a)
        ↔ Answered net c method path zero out body w a
  unfolding do_request
  do_request_iff none w a = (
    send_bytes_sound net c method path zero out none w a none refl,
    λ r. rw (← r.encoded) (send_bytes_complete net c method path zero out none w a r),
  )
  do_request_iff (some (inl e)) w a = (λ h. cc, λ r. absurd r.encoded)
  do_request_iff (some (inr bytes)) w a = (
    send_bytes_sound net c method path zero out (some (inr bytes)) w a (some bytes) refl,
    λ r. rw (← r.encoded) (send_bytes_complete net c method path zero out (some (inr bytes)) w a r),
  )

  send_bytes-Exchanged :
      (body : Option (String ⊎ List ℕ)) (w : W) (bytes : Option (List ℕ))
      → Encodes body bytes
      → Exchanged net c method path zero out body w
          (send_bytes net c method path zero out bytes w).1
  unfolding send_bytes
  send_bytes-Exchanged body w bytes enc =
      elim (Option-cases (net.build method (c.base_url ++ path))) [
        | inr (e, refused) ↦ rw (refused, send_bytes) (unsent refl)
        | inl built ↦ rw (built, send_bytes) (sent_once bytes enc refl)
      ]

  -- A call sends at most one request, and it is the one with the method, the address, the headers
  -- and the body that the client made.
  pub do_request-Exchanged :
      (body : Option (String ⊎ List ℕ)) (w : W)
      → Exchanged net c method path zero out body w (do_request net c method path zero out body w).1
  unfolding do_request
  do_request-Exchanged none w = send_bytes-Exchanged none w none refl
  do_request-Exchanged (some (inl e)) w = unsent refl
  do_request-Exchanged (some (inr bytes)) w =
      send_bytes-Exchanged (some (inr bytes)) w (some bytes) refl

module _ {A W : Type 0} (net : Net) (c : Client W) (method path : String) (zero : A)
    (out : Option (Decoder A)) where
  -- The world after a call that gave a value is the one after its exchange.
  pub Answered-world :
      (body : Option (String ⊎ List ℕ)) (w : W) (a : A)
      → (r : Answered net c method path zero out body w a)
      → (do_request net c method path zero out body w).1
        ≡ (c.http_client (request_of net c method path r.bytes) w).1
  unfolding do_request send_bytes
  Answered-world none w a r = rw (r.encoded, send_bytes, r.built) refl
  Answered-world (some (inl e)) w a r = absurd r.encoded
  Answered-world (some (inr bytes)) w a r = rw (r.encoded, send_bytes, r.built) refl
