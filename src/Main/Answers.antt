-- ===== src/Main/Answers.antt =====
-- What the main program puts around the router and the topic (cmd/deployd/main.go): the CORS headers, the
-- answer to OPTIONS, and the text of an event. The router's handler and JSON are parameters; an answer is
-- its headers, of one value each, and its status.
use deployd.Prelude.{ℕ, String, ◌≡◌, refl, Option, none, some, List, ◌⊎◌, inl, inr}
use deployd.Prelude.GoMap.{lookup, set, lookup-set}

pub record Answer : Type 0 where
  pub headers : List (String × String)
  pub status : Option ℕ

abbrev pub Handler : Type 0
Handler = Answer → Answer

abbrev set_header : String → String → Handler
set_header name value a = record a { headers = set name value a.headers }

-- `http.Header.Get`
abbrev pub header : String → Answer → String
header name a = text (lookup name a.headers)
  where
    text : Option String → String
    text none = ""
    text (some value) = value

-- WriteHeader takes the first status only.
abbrev first_status : ℕ → Option ℕ → Option ℕ
first_status n none = some n
first_status n (some m) = some m

-- router.GlobalOPTIONS
unfoldable pub global_options : Handler
global_options a = record a { status = first_status 204 a.status }

-- withCors inside startRouter, which is used.
unfoldable pub with_cors : Handler → Handler
with_cors router a = router (
    set_header "Access-Control-Allow-Headers" "*" (
      set_header "Access-Control-Allow-Methods" "*" (
        set_header "Access-Control-Allow-Origin" "*"
          (set_header "Access-Control-Allow-Methods" "*" a))))

-- The package's own withCors, which is not used.
unfoldable pub with_allowed_cors : Handler → Handler
with_allowed_cors router a = router (
    set_header "Access-Control-Allow-Headers" "Content-Type" (
      set_header "Access-Control-Allow-Origin" "*"
        (set_header "Access-Control-Allow-Methods" (header "Allow" a) a)))

-- The answer to OPTIONS has no content, and allows every origin, method and header, whatever it had.
pub with_cors-global_options :
    (a : Answer)
    → a.status ≡ none
    → (header "Access-Control-Allow-Origin" (with_cors global_options a) ≡ "*")
      × (header "Access-Control-Allow-Methods" (with_cors global_options a) ≡ "*")
      × (header "Access-Control-Allow-Headers" (with_cors global_options a) ≡ "*")
      × ((with_cors global_options a).status ≡ some 204)
unfolding with_cors global_options
with_cors-global_options a h = (simp lookup-set, simp lookup-set, simp lookup-set, rw h refl)

-- An event of the topic: a record of the log, or another value.
pub data Shown (Record Value : Type 0) : Type 0 where
  log : Record → Shown Record Value
  other : Value → Shown Record Value

module _ {Record Value Error : Type 0} (of_record : Record → Error ⊎ String)
    (of_value : Value → Error ⊎ String) where
  -- The error is dropped, and the bytes are nil.
  abbrev payload : Error ⊎ String → String
  payload (inl e) = ""
  payload (inr text) = text

  pub topic_render : Shown Record Value → String
  topic_render (log r) = payload (of_record r)
  topic_render (other v) = payload (of_value v)
