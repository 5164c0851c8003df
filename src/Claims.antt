-- ===== src/Claims.antt =====
-- claims/claims.go: the claims of a token, and what a request's user is built from. The registered
-- claims but for the subject are read by other code, and are left out.
pub mod User
mod Tests
use go_authbyte.Base.{
  ℕ, zero, suc, min, max, String, refl, sym, ap, subst, inl, inr, Bool, true, false, not, ◌&&◌,
  Option, none, some, List, [], ◌∷◌, map, append-nil, append_assoc, arith, ltb, leb, nat_eq,
  if◌then◌else◌, ltb→lt, lt→ltb, leb→le, le→leb, nat_eq_iff, Bool-cases, Option-cases, length, take,
  drop, get_elem?, replicate, all, any, length-append, take-append-drop, All, All-append,
  Comparable, ==_iff, ==_refl, Bytes, codes, bytes_eq, bytes_eq_iff, ℕ_comparable, Bytes_comparable,
  Result, ok, err, bind-ok, ok_or, ok_inj, reverse, reverse_aux,
}
use go_authbyte.Base.Map.{
  lookup, insert, retain, kept, Distinct, lookup-insert, insert-Distinct, lookup-retain,
  retain-Distinct, length-insert, length-retain,
}
use go_authbyte.IdentityCode.Chars.{is_space, trim_space}

-- A pointer to an actor: nil, or an actor's subject and the pointer to the prior one.
pub data Actor : Type 0 where
  nobody : Actor
  actor : Bytes → Actor → Actor

unfoldable pub chain : Actor → List Bytes
chain nobody = []
chain (actor [] act) = []
chain (actor (c ∷ subject) act) = (c ∷ subject) ∷ chain act

pub record Confirmation : Type 0 where
  pub jkt : Bytes

pub record Claims : Type 0 where
  pub subject : Bytes
  pub scope : Bytes
  pub loa : Bytes
  pub login_method : Bytes
  pub name : Bytes
  pub given_name : Bytes
  pub family_name : Bytes
  pub serial_number : Bytes
  pub tenant : Bytes
  pub client_id : Bytes
  pub confirmation : Option Confirmation
  pub act : Actor

unfoldable pub delegated : Claims → Bool
delegated c = elim c.act [ nobody ↦ false | actor s act ↦ true ]

abbrev starts_with : Bytes → Bytes → Bool
starts_with [] s = true
starts_with (a ∷ p) [] = false
starts_with (a ∷ p) (b ∷ s) = nat_eq a b && starts_with p s

abbrev service_subject_prefix : Bytes
service_subject_prefix = codes "svc:"

unfoldable pub is_service : Claims → Bool
is_service c = starts_with service_subject_prefix c.subject

unfoldable pub thumbprint : Claims → Bytes
thumbprint c = elim c.confirmation [ none ↦ [] | some cnf ↦ cnf.jkt ]

-- The words of a text: the one that it begins with, which may be empty, and those behind it.
abbrev word_of : Bytes → List Bytes → List Bytes
word_of [] words = words
word_of (c ∷ word) words = (c ∷ word) ∷ words

unfoldable split_words : Bytes → Bytes × List Bytes
unfolding is_space
split_words [] = ([], [])
split_words (c ∷ s) =
    let (word, words) = split_words s in
    if is_space c then ([], word_of word words) else (c ∷ word, words)

-- `strings.Fields`
unfoldable pub fields : Bytes → List Bytes
unfolding split_words
fields s = let (word, words) = split_words s in word_of word words

unfoldable pub scopes : Claims → List Bytes
unfolding fields
scopes c = fields c.scope

abbrev pub UserClaims : Type 0
UserClaims = List (Bytes × List Bytes)

-- `if len(values) > 0 { m[claim] = values }`
unfoldable pub set_all : Bytes → List Bytes → UserClaims → UserClaims
set_all claim [] m = m
set_all claim (v ∷ values) m = insert m claim (v ∷ values)

abbrev pub single : Bytes → List Bytes
single [] = []
single (c ∷ value) = (c ∷ value) ∷ []

-- `if value != "" { m[claim] = token.ClaimStrings{value} }`
-- The statements behind the subject's, in their order: a claim's name and its values, none where a
-- text is empty.
abbrev pub statements : Claims → UserClaims
statements c =
    (codes "scope", scopes c)
    ∷ (codes "loa", single c.loa)
    ∷ (codes "login_method", single c.login_method)
    ∷ (codes "name", single c.name)
    ∷ (codes "given_name", single c.given_name)
    ∷ (codes "family_name", single c.family_name)
    ∷ (codes "serial_number", single c.serial_number)
    ∷ (codes "tenant", single c.tenant)
    ∷ (codes "client_id", single c.client_id)
    ∷ (codes "act", chain c.act)
    ∷ []

unfoldable pub run : UserClaims → UserClaims → UserClaims
unfolding set_all
run [] m = m
run ((claim, values) ∷ rest) m = run rest (set_all claim values m)

unfoldable pub to_user_claims : Claims → UserClaims
unfolding run scopes chain
to_user_claims c = run (statements c) (insert [] (codes "sub") (c.subject ∷ []))

-- `ClaimValue` of a request's user; `none` of the user is nil.
abbrev pub ClaimReader : Type 0
ClaimReader = Bytes → Bytes

abbrev pub or_client : ClaimReader → Bytes → Bytes
or_client u [] = trim_space (u (codes "client_id"))
or_client u (c ∷ a) = c ∷ a

unfoldable pub acting_client : Option ClaimReader → Bytes
unfolding trim_space
acting_client none = []
acting_client (some u) = or_client u (trim_space (u (codes "act")))
