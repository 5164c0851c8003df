-- ===== src/Authclient/Headers.antt =====
-- What authclient/ uses of `net/http`: a header, by the canonical form of its names.
use go_authbyte.Base.{
  ℕ, Bool, true, ◌&&◌, ◌||◌, Option, none, some, List, [], ◌∷◌, ◌++◌, leb, nat_eq, if◌then◌else◌,
  all, any, Bytes, codes, ℕ_comparable, Bytes_comparable,
}
use go_authbyte.Base.Map.{lookup, insert}
use go_authbyte.Base.Texts.{to_upper, to_lower}

-- `http.Header`: the values of each name, which is in the canonical form of `net/http`.
abbrev pub Headers : Type 0
Headers = List (Bytes × List Bytes)

-- A byte of a header's name.
abbrev is_token : ℕ → Bool
is_token c =
    (leb b'a' c && leb c b'z')
    || ((leb b'A' c && leb c b'Z')
        || ((leb b'0' c && leb c b'9') || any (nat_eq c) (codes "!#$%&'*+-.^_`|~")))

-- The letters behind a dash and at the start are capital.
abbrev capitalized : Bool → Bytes → Bytes
capitalized up [] = []
capitalized up (c ∷ s) = (if up then to_upper c else to_lower c) ∷ capitalized (nat_eq c b'-') s

unfoldable pub canonical : Bytes → Bytes
unfolding to_upper to_lower
canonical name = if all is_token name then capitalized true name else name

abbrev values_of : Option (List Bytes) → List Bytes
values_of none = []
values_of (some vs) = vs

abbrev pub first_of : List Bytes → Bytes
first_of [] = []
first_of (v ∷ vs) = v

-- `Get`, `Set` and `Add` of a header.
unfoldable pub get_header : Headers → Bytes → Bytes
unfolding canonical
get_header h name = first_of (values_of (lookup h (canonical name)))

unfoldable pub set_header : Headers → Bytes → Bytes → Headers
unfolding canonical
set_header h name value = insert h (canonical name) (value ∷ [])

unfoldable pub add_header : Headers → Bytes → Bytes → Headers
unfolding canonical
add_header h name value =
    insert h (canonical name) (values_of (lookup h (canonical name)) ++ value ∷ [])

-- `for k, vs := range reqHeader { for _, v := range vs { req.Header.Add(k, v) } }`
abbrev add_values : Headers → Bytes → List Bytes → Headers
add_values h name [] = h
add_values h name (v ∷ vs) = add_values (add_header h name v) name vs

unfoldable pub add_all : Headers → Headers → Headers
unfolding add_header
add_all h [] = h
add_all h ((name, vs) ∷ given) = add_all (add_values h name vs) given
