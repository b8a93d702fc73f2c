-- ===== src/Requests.antt =====
-- tools/nrmcp-gateway/src/main.rs: the HTTP requests and responses of the gateway, and what it reads
-- from the headers.
pub mod Origin
use nightrun.Prelude.{
  ℕ, ◌+◌, Bool, true, false, ◌&&◌, ◌||◌, List, [], ◌∷◌, ◌++◌, length, take, Option, none, some, leb,
  ◌==◌, if◌then◌else◌,
}
use nightrun.Prelude.Bytes.{bytes_eq}

pub record Header : Type 0 where
  pub field : List ℕ
  pub value : List ℕ

-- `body` is what the reader delivers, none where reading fails.
pub record Request : Type 0 where
  pub url : List ℕ
  pub is_post : Bool
  pub headers : List Header
  pub body : Option (List ℕ)

-- The responses; the wording of a text is left out.
pub data Response : Type 0 where
  text : ℕ → Response
  json : ℕ → List ℕ → Response
  empty : ℕ → Response

to_ascii_lowercase : ℕ → ℕ
to_ascii_lowercase b = if leb 65 b && leb b 90 then b + 32 else b

eq_ignore_ascii_case : List ℕ → List ℕ → Bool
eq_ignore_ascii_case [] [] = true
eq_ignore_ascii_case [] (y ∷ ys) = false
eq_ignore_ascii_case (x ∷ xs) [] = false
eq_ignore_ascii_case (x ∷ xs) (y ∷ ys) =
    (to_ascii_lowercase x == to_ascii_lowercase y) && eq_ignore_ascii_case xs ys

find_header : List Header → List ℕ → Option (List ℕ)
find_header [] name = none
find_header (h ∷ hs) name =
    let rest = find_header hs name in
    if eq_ignore_ascii_case h.field name then some h.value else rest

unfoldable pub header_value : Request → List ℕ → Option (List ℕ)
unfolding find_header eq_ignore_ascii_case to_ascii_lowercase
header_value request name = find_header request.headers name

-- "/mcp"
abbrev pub endpoint : List ℕ
endpoint = 47 ∷ 109 ∷ 99 ∷ 112 ∷ []

-- "Origin"
abbrev pub origin_name : List ℕ
origin_name = 79 ∷ 114 ∷ 105 ∷ 103 ∷ 105 ∷ 110 ∷ []

-- "Authorization"
abbrev pub authorization_name : List ℕ
authorization_name = 65 ∷ 117 ∷ 116 ∷ 104 ∷ 111 ∷ 114 ∷ 105 ∷ 122 ∷ 97 ∷ 116 ∷ 105 ∷ 111 ∷ 110 ∷ []

-- "Bearer "
abbrev pub bearer : List ℕ
bearer = 66 ∷ 101 ∷ 97 ∷ 114 ∷ 101 ∷ 114 ∷ 32 ∷ []

-- "http://127.0.0.1"
abbrev pub loopback_address : List ℕ
loopback_address =
    104 ∷ 116 ∷ 116 ∷ 112 ∷ 58 ∷ 47 ∷ 47 ∷ 49 ∷ 50 ∷ 55 ∷ 46 ∷ 48 ∷ 46 ∷ 48 ∷ 46 ∷ 49 ∷ []

-- "http://localhost"
abbrev pub loopback_name : List ℕ
loopback_name =
    104 ∷ 116 ∷ 116 ∷ 112 ∷ 58 ∷ 47 ∷ 47 ∷ 108 ∷ 111 ∷ 99 ∷ 97 ∷ 108 ∷ 104 ∷ 111 ∷ 115 ∷ 116 ∷ []

pub starts_with : List ℕ → List ℕ → Bool
starts_with s prefix = bytes_eq (take (length prefix) s) prefix

-- The test on an `Origin`; 58 is the colon.
loopback : Option (List ℕ) → Bool
loopback none = true
loopback (some origin) =
    starts_with origin (loopback_address ++ (58 ∷ []))
    || starts_with origin (loopback_name ++ (58 ∷ []))
    || bytes_eq origin loopback_address
    || bytes_eq origin loopback_name

unfoldable pub origin_allowed : Request → Bool
unfolding loopback starts_with
origin_allowed request = loopback (header_value request origin_name)
