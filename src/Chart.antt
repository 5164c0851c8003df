-- ===== src/Chart.antt =====
-- chart/chart.go and chart/register.go: who is below whom in a tenant's chart. The cycle of the keeper is in Keeper, and
-- nothing follows a confirmation here.
mod Below
mod Tests
use go_authbyte.Base.{
  ℕ, zero, suc, min, max, String, refl, sym, ap, subst, inl, inr, Bool, true, false, not, ◌&&◌,
  ◌||◌, Option, none, some, List, [], ◌∷◌, ◌++◌, map, append-nil, append_assoc, arith, ltb, leb,
  nat_eq, if◌then◌else◌, ltb→lt, lt→ltb, leb→le, le→leb, nat_eq_iff, Bool-cases, Option-cases,
  length, take, drop, get_elem?, replicate, all, any, length-append, take-append-drop, All,
  All-append, Comparable, ◌==◌, ==_iff, ==_refl, Bytes, codes, bytes_eq, bytes_eq_iff, ℕ_comparable,
  Bytes_comparable, Result, ok, err, ◌>>=◌, bind-ok, ok_or, ok_inj, reverse, reverse_aux,
}
use go_authbyte.Base.Map.{lookup, insert}
use go_authbyte.Base.Texts.{is_empty, is_in}
use go_authbyte.Base.Sorting.{sort, compact}
use go_authbyte.Keeper.{Keeper, Running, Outside, Rest, SyncError, sync, cycle}
use go_authbyte.Placement.Register.{trim_slashes}
use go_authbyte.Authclient.Headers.{Headers, set_header, get_header}
use go_authbyte.Authclient.Calls.{Answer, CallError, Asked}

abbrev pub Below : Type 0
Below = List (Bytes × List Bytes)

pub record Chart : Type 0 where
  pub version : Bytes
  pub below : Below

-- `Sync` ends with the confirmation.
abbrev pub no_rest : {S : Type 0} → Rest Unit S
no_rest r tenant = (r, none)

unfoldable pub sync_chart :
    {S : Type 0} → Outside S Chart → Running Unit S → Bytes → Running Unit S × Option SyncError
unfolding sync
sync_chart o r tenant = sync o no_rest r tenant

unfoldable pub cycle_charts : {S : Type 0} → Outside S Chart → Running Unit S → Running Unit S
unfolding cycle
cycle_charts o r = cycle o no_rest r

pub data RegisterError : Type 0 where
  not_absolute no_audience no_version bad_body no_subject : RegisterError
  call_failed : CallError → RegisterError
  refused : ℕ → Bytes → RegisterError

pub record Register : Type 0 where
  pub base : Bytes
  pub audience : Bytes

pub record Network (T : Type 0) : Type 0 where
  pub parse_url : Bytes → Option (Bytes × Bytes)
  pub path_escape : Bytes → Bytes
  pub call : T → Bytes → Bytes → Bytes → Asked → T × Result CallError Answer
  pub decode_chart : Bytes → Option Below

abbrev is_absolute : Option (Bytes × Bytes) → Bool
is_absolute none = false
is_absolute (some (scheme, host)) = not (is_empty scheme) && not (is_empty host)

-- `NewRegister` with a client.
unfoldable pub new_register :
    {T : Type 0} → Network T → Bytes → Bytes → Result RegisterError Register
unfolding trim_slashes
new_register n base audience =
    if not (is_absolute (n.parse_url base))
    then err not_absolute
    else if is_empty audience
    then err no_audience
    else ok (record { base = trim_slashes base; audience = audience })

-- `slices.DeleteFunc` of the empty text and the subject.
abbrev others : Bytes → List Bytes → List Bytes
others subject [] = []
others subject (s ∷ below) =
    let rest = others subject below in if is_empty s || s == subject then rest else s ∷ rest

unfoldable pub below_of : Bytes → List Bytes → List Bytes
unfolding sort compact
below_of subject below = compact (sort (others subject below))

-- `if len(below) > 0 { c.Below[subject] = below }`
abbrev pub with_below : Bytes → List Bytes → Below → Below
with_below subject [] m = m
with_below subject (s ∷ below) m = (subject, s ∷ below) ∷ m

-- The entries of the answer, whose subjects are distinct, in any order.
unfoldable pub copy_chart : Below → Result RegisterError Below
unfolding below_of
copy_chart [] = ok []
copy_chart ((subject, below) ∷ answered) =
    let rest = copy_chart answered in
    if is_empty subject
    then err no_subject
    else (rest >>= λ m. ok (with_below subject (below_of subject below) m))

abbrev copied : Bytes → Option Below → Result RegisterError (Option Chart)
copied etag none = err bad_body
copied etag (some answered) =
    copy_chart answered >>= λ m. ok (some (record { version = etag; below = m }))

unfoldable pub read_chart : {T : Type 0} → Network T → Answer → Result RegisterError (Option Chart)
unfolding copy_chart get_header
read_chart n a =
    if nat_eq a.status 304
    then ok none
    else if not (nat_eq a.status 200)
    then err (refused a.status a.body)
    else if is_empty (get_header a.headers (codes "ETag"))
    then err no_version
    else copied (get_header a.headers (codes "ETag")) (n.decode_chart a.body)

abbrev json : Headers
json = (codes "Accept", codes "application/json" ∷ []) ∷ []

module _ {T : Type 0} (n : Network T) (r : Register) where
  abbrev pub chart_of : T × Result CallError Answer → T × Result RegisterError (Option Chart)
  chart_of (x, err e) = (x, err (call_failed e))
  chart_of (x, ok a) = (x, read_chart n a)

  -- `Chart`
  unfoldable pub chart : T → Bytes → Bytes → T × Result RegisterError (Option Chart)
  unfolding read_chart set_header
  chart x tenant version =
      let headers =
        if is_empty version then json else set_header json (codes "If-None-Match") version in
      chart_of (
        n.call x r.audience (codes "membership:chart") tenant (record {
          method = codes "GET";
          url = r.base ++ (codes "/api/v1/tenants/" ++ (n.path_escape tenant ++ codes "/chart"));
          headers = headers;
          body = none;
        }))
