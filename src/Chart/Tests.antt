-- ===== src/Chart/Tests.antt =====
-- chart/register.go: one answer of the register.
use go_authbyte.Base.{
  ℕ, ◌≡◌, refl, false, none, some, [], ◌∷◌, All, codes, ℕ_comparable, Bytes_comparable, ok,
}
use go_authbyte.Base.Texts.{is_empty}
use go_authbyte.Base.Map.{lookup}
use go_authbyte.Authclient.Headers.{get_header, canonical}
use go_authbyte.Authclient.Calls.{Answer}
use go_authbyte.Chart.{Below, Chart, Network, read_chart}
use go_authbyte.Chart.Below.{Entry, Complete, read_chart-Entry}

abbrev given : Below
given =
    (codes "x", codes "z" ∷ codes "y" ∷ codes "x" ∷ [] ∷ codes "z" ∷ [])
    ∷ (codes "y", codes "y" ∷ [])
    ∷ []

abbrev network : Network ℕ
network = record {
  parse_url = λ s. none;
  path_escape = λ s. s;
  call = λ x audience scope tenant a. (x, ok (record { status = 304; headers = []; body = [] }));
  decode_chart = λ b. some given;
}

abbrev answer : Answer
answer = record {
  status = 200;
  headers = (canonical (codes "ETag"), codes "v1" ∷ []) ∷ [];
  body = codes "{}";
}

abbrev chart : Chart
chart = record { version = codes "v1"; below = (codes "x", codes "y" ∷ codes "z" ∷ []) ∷ [] }

read : read_chart network answer ≡ ok (some chart)
unfolding read_chart lookup canonical
read = refl

read_chart-Entry_example :
    (answer.status ≡ 200)
    × (is_empty chart.version ≡ false)
    × (chart.version ≡ get_header answer.headers (codes "ETag"))
    × (answered : Below) × (some given ≡ some answered)
    × All (Entry answered) chart.below
    × Complete answered chart.below
read_chart-Entry_example = read_chart-Entry network answer chart read
