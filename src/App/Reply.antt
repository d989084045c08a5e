-- ===== src/App/Reply.antt =====
-- `Reply` of src/app.hpp and the bodies that src/app.cpp writes: `mk`, `bad`, `link_json` and the
-- answers of the shorten handlers.
use shrt_cpp.Prelude.{
  ℕ, ◌||◌, List, [], ◌∷◌, ◌++◌, Option, none, Bytes, codes, Int64, length, ◌==◌, if◌then◌else◌,
}
use shrt_cpp.Codec.Number.{itoa}
use shrt_cpp.Store.State.{Link}

-- `ctype` is none for application/json.
pub record Reply : Type 0 where
  pub status : ℕ
  pub location : Option Bytes
  pub body : Bytes
  pub ctype : Option Bytes

abbrev pub mk : ℕ → Bytes → Reply
mk status body = record { status = status; location = none; body = body; ctype = none }

abbrev pub json_error : Bytes → Bytes
json_error err = codes "{\"error\":\"" ++ (err ++ codes "\"}")

abbrev pub bad : Bytes → Reply
bad err = mk 400 (json_error err)

abbrev pub not_found : Reply
not_found = mk 404 (codes "{\"error\":\"not found\"}")

unfoldable pub json_url : Bytes → Bytes
json_url [] = []
json_url (c ∷ s) = if c == b'"' || c == b'\\' then b'\\' ∷ c ∷ json_url s else c ∷ json_url s

abbrev pub json_expiry : Int64 → Bytes
json_expiry e = if e == 0 then codes "null" else itoa e

unfoldable pub link_json : Link → Bytes
link_json l =
    codes "{\"code\":\""
    ++ (l.code
        ++ (codes "\",\"url\":\""
            ++ (json_url l.url
                ++ (codes "\",\"hits\":"
                    ++ (itoa l.hits
                        ++ (codes ",\"created_at\":"
                            ++ (itoa l.created_at
                                ++ (codes ",\"expires_at\":"
                                    ++ (json_expiry l.expires_at ++ b'}' ∷ [])))))))))

-- The pieces, with a comma between two of them.
unfoldable pub commas : List Bytes → Bytes
commas [] = []
commas (x ∷ []) = x
commas (x ∷ y ∷ xs) = x ++ b',' ∷ commas (y ∷ xs)

unfoldable pub each_link : List Link → List Bytes
each_link [] = []
each_link (l ∷ ls) = link_json l ∷ each_link ls

unfoldable pub links_json : List Link → ℕ → Bytes
links_json links total =
    codes "{\"links\":["
    ++ (commas (each_link links) ++ (codes "],\"total\":" ++ (itoa total ++ b'}' ∷ [])))

unfoldable pub created_json : Bytes → Bytes
created_json code =
    codes "{\"code\":\"" ++ (code ++ (codes "\",\"short_url\":\"/" ++ (code ++ codes "\"}")))

unfoldable pub quoted : List Bytes → List Bytes
quoted [] = []
quoted (x ∷ xs) = (b'"' ∷ (x ++ b'"' ∷ [])) ∷ quoted xs

unfoldable pub bulk_json : List Bytes → Bytes
bulk_json xs =
    codes "{\"count\":"
    ++ (itoa (length xs) ++ (codes ",\"codes\":[" ++ (commas (quoted xs) ++ codes "]}")))
