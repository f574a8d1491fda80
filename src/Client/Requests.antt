-- ===== src/Client/Requests.antt =====
-- client.go: `do`, which sends one request and reads its response.
use computeid_go.Common.{
  ℕ, String, Option, none, some, List, [], ◌∷◌, ◌⊎◌, inl, inr, ◌==◌, leb, if◌then◌else◌,
}
use computeid_go.Common.Dict.{Dict, insert}
use computeid_go.Errors.{Result, ok, err}
use computeid_go.Server.Text.{RequestBody, sent, broken, Decoder}
use computeid_go.Client.{
  ◌++◌, HttpRequest, HttpResponse, Client, Net, parse_api_error, transport_error,
}

unfoldable pub decoded : {A : Type 0} → String → A × Option String → Result A
decoded path (a, none) = ok a
decoded path (a, some e) = err (transport_error "decode " path e)

-- `json.Unmarshal(raw, out)`, unless there is no place for it or nothing to read.
unfoldable pub read_answer : {A : Type 0} → String → A → Option (Decoder A) → List ℕ → Result A
read_answer path zero none raw = ok zero
read_answer path zero (some decode) [] = ok zero
read_answer path zero (some decode) (b ∷ bs) = decoded path (decode (b ∷ bs))

-- What `do` makes of a response.
unfoldable pub read_response :
    {A : Type 0} → Net → String → A → Option (Decoder A) → ℕ → RequestBody → Result A
read_response net path zero out status (broken e) = err (transport_error "read " path e)
read_response net path zero out status (sent raw) =
    if leb 400 status
    then err (parse_api_error net status path raw)
    else read_answer path zero out raw

unfoldable pub receive :
    {A : Type 0} → Net → String → A → Option (Decoder A) → String ⊎ HttpResponse → Result A
receive net path zero out (inl e) = err (transport_error "" path e)
receive net path zero out (inr r) = read_response net path zero out (r.status_code) (r.body)

-- A header that is set when its value is not empty.
abbrev pub set_unless_empty : String → String → Dict String → Dict String
set_unless_empty name value h = if value == "" then h else insert name value h

abbrev pub content_type : Option (List ℕ) → Dict String → Dict String
content_type none h = h
content_type (some b) h = insert "Content-Type" "application/json" h

module _ {W : Type 0} (net : Net) (c : Client W) where
  -- The headers of a request, by their canonical names.
  unfoldable pub headers_of : Option (List ℕ) → Dict String
  headers_of body = set_unless_empty "User-Agent" (c.user_agent) (
      set_unless_empty "X-Api-Key" (c.api_key)
        (content_type body (insert "Accept" "application/json" [])))

  abbrev pub request_of : String → String → Option (List ℕ) → HttpRequest
  request_of method path body = record {
    method = method;
    url = c.base_url ++ path;
    headers = headers_of body;
    body = body;
  }

  module _ {A : Type 0} (method path : String) (zero : A) (out : Option (Decoder A)) where
    -- From the encoded body on.
    unfoldable pub send_bytes : Option (List ℕ) → W → Result A × W
    send_bytes body w = elim (net.build method (c.base_url ++ path)) [
      | some e ↦ (err (transport_error "build " path e), w)
      | none ↦
          let answered = c.http_client (request_of method path body) w in
          (receive net path zero out answered.0, answered.1)
    ]

    -- `do`: the body is nil, or what `json.Marshal` makes of it.
    unfoldable pub do_request : Option (String ⊎ List ℕ) → W → Result A × W
    do_request none w = send_bytes none w
    do_request (some (inl e)) w = (err (transport_error "encode " path e), w)
    do_request (some (inr bytes)) w = send_bytes (some bytes) w
