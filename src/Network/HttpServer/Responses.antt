-- ===== src/Network/HttpServer/Responses.antt =====
-- src/network/http_server.cpp: `HttpResponse`, and the answers that say what went wrong.
use personalblockchain.Prelude.{ℕ, none, some, List, [], ◌∷◌, ◌++◌, Text, codes, length, decimal}
use personalblockchain.Json.{Json}

pub record HttpResponse : Type 0 where
  pub status_code : ℕ
  pub status_text : Text
  pub content_type : Text
  pub body : Text

-- The status that `HttpResponse` starts with.
abbrev ok_response : Text → HttpResponse
ok_response body = record {
  status_code = 200;
  status_text = codes "OK";
  content_type = codes "application/json";
  body = body;
}

abbrev pub response : ℕ → Text → Text → HttpResponse
response status_code status_text body = record (ok_response body) {
  status_code = status_code;
  status_text = status_text;
}

abbrev pub line : Text → Text → Text
line s rest = s ++ 13 ∷ 10 ∷ rest

unfoldable pub serialize : HttpResponse → Text
serialize r = line (codes "HTTP/1.1 " ++ decimal r.status_code ++ b' ' ∷ r.status_text) (
    line (codes "Content-Type: " ++ r.content_type) (
      line (codes "Content-Length: " ++ decimal (length r.body)) (
        line (codes "Access-Control-Allow-Origin: *") (
          line (codes "Access-Control-Allow-Methods: GET, POST, OPTIONS") (
            line (codes "Access-Control-Allow-Headers: Content-Type")
              (line (codes "Connection: close") (line [] r.body)))))))

abbrev pub no_content : HttpResponse
no_content = response 204 (codes "No Content") []

abbrev pub not_found : HttpResponse
not_found = response 404 (codes "Not Found") (codes "{\"error\": \"Endpoint not found\"}")

abbrev pub invalid_content_length : HttpResponse
invalid_content_length =
    response 400 (codes "Bad Request") (codes "{\"error\": \"Invalid Content-Length header\"}")

abbrev pub payload_too_large : HttpResponse
payload_too_large =
    response 413 (codes "Payload Too Large")
      (codes "{\"error\": \"Request body too large (max 1MB)\"}")

module _ {J : Type 0} (json : Json J) where
  -- An object with these members.
  abbrev pub object_of : List (Text × J) → J
  object_of [] = json.object
  object_of ((key, value) ∷ members) = json.set key value (object_of members)

  -- The answer of a handler that succeeds.
  abbrev pub success : J → HttpResponse
  success j = ok_response (json.dump (some 2) j)

  unfoldable pub error_response : ℕ → Text → Text → Text → HttpResponse
  error_response status_code status_text error_code message = response status_code status_text (
      json.dump none (
        object_of (
          (codes "error", json.text message)
          ∷ (codes "errorCode", json.text error_code)
          ∷ (codes "message", json.text message)
          ∷ [])))

  abbrev pub bad_request : Text → Text → HttpResponse
  bad_request error_code message = error_response 400 (codes "Bad Request") error_code message

  -- What the handlers of a GET answer when an exception is thrown.
  abbrev pub internal_error : Text → HttpResponse
  internal_error what =
      response 500 (codes "Internal Server Error")
        (json.dump none (object_of ((codes "error", json.text what) ∷ [])))
