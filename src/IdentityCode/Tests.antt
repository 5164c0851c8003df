-- ===== src/IdentityCode/Tests.antt =====
-- identitycode/identitycode.go: the model at fixed inputs, and instances of the theorems.
use go_authbyte.Base.{
  ◌≡◌, refl, none, [], arith, Bytes, codes, ℕ_comparable, Bytes_comparable, ok, err,
}
use go_authbyte.IdentityCode.{
  Code, Error, code_string, parse, canonical, unwrap, cross_border_form, key, display,
}
use go_authbyte.IdentityCode.Canonical.{canonical-parse}
use go_authbyte.IdentityCode.Hint.{unwrap_ends}
use go_authbyte.IdentityCode.Display.{canonical-display}
use go_authbyte.IdentityCode.Key.{key-canonical}
use go_authbyte.IdentityCode.Chars.{is_separator, upper}

abbrev lv : Bytes
lv = codes "LV"

abbrev stored : Bytes
stored = codes "PNOLV-12345678901"

abbrev parts : Code
parts = record { semantics = codes "PNO"; country = lv; identifier = codes "12345678901" }

spellings :
    (canonical (codes " 123456-78901 ") lv ≡ ok stored)
    × (canonical (codes "pnolv-123456.78901") [] ≡ ok stored)
    × (canonical (codes "LV/EE/123456-78901") (codes "DE") ≡ ok stored)
    × (canonical (codes "123456-78901") [] ≡ err Error.country_required)
    × (canonical (codes "VATLV-123") [] ≡ err Error.unknown_semantics)
    × (canonical (codes "LT:LT-123") [] ≡ err Error.unknown_semantics)
    × (canonical (codes "PNOLV123") lv ≡ err Error.ambiguous)
    × (canonical (codes "12_3") lv ≡ err Error.malformed)
unfolding canonical
spellings = (refl, refl, refl, refl, refl, refl, refl, refl)

shown :
    (display stored ≡ codes "123456-78901")
    × (display (codes "NTRLV-40003") ≡ codes "NTRLV-40003")
    × (key (codes "a-b c") ≡ codes "ABC")
unfolding display key is_separator upper
shown = (refl, refl, refl)

stored-parse : parse stored ≡ ok parts
unfolding parse
stored-parse = refl

canonical-parse_example :
    (c : Code) × (parse stored ≡ ok c)
    × (code_string c ≡ stored)
    × ((hint : Bytes) → canonical stored hint ≡ ok stored)
unfolding canonical
canonical-parse_example = canonical-parse (codes " 123456-78901 ") lv refl

unwrap_ends_example : cross_border_form (unwrap 13 [] (codes "LV/EE/LT/EE/1")).1 ≡ none
unwrap_ends_example = unwrap_ends 13 [] (codes "LV/EE/LT/EE/1") (omega arith)

canonical-display_example : canonical (display stored) lv ≡ ok stored
unfolding parse
canonical-display_example = canonical-display stored parts refl

key-canonical_example : key (codes "pnolv-123456.78901") ≡ stored
unfolding canonical
key-canonical_example = key-canonical (codes "pnolv-123456.78901") refl
